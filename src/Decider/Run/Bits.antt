-- ===== src/Decider/Run/Bits.antt =====
-- Each bit of hltDecision stands for one trigger.
use Prim.Native.Nat.{bit_or, bit_and, max, min}
use star_hlt_tofmtd.Prelude.{
  ℕ, ◌-◌, ◌^◌, ◌≤◌, ◌≡◌, ◌≢◌, ◌⊎◌, inl, inr, refl, sym, ap, ◌∙◌, Bool, true, false, List, [], ◌∷◌,
  ◌==◌, if◌then◌else◌, Bool-cases, get_or, arith,
}
use star_hlt_tofmtd.Prelude.Bits.{bit, bit-bit_or, bit-zero, bit_le, bit-shift_self, bit-shift_ne}
use star_hlt_tofmtd.Prelude.Masks.{bit-bit_and}
use star_hlt_tofmtd.Floats.{Floats}
use star_hlt_tofmtd.Decider.Types.{Trigger, number, Event, Parts}
use star_hlt_tofmtd.Decider.Cuts.{Cuts, default_bit, trigger_bit}
use star_hlt_tofmtd.Decider.State.{Decider, reset_event}
use star_hlt_tofmtd.Decider.Run.{algorithms, run_algorithms}
use star_hlt_tofmtd.Decider.Run.Accepted.{or_all, accepted, run_algorithms-accepted}

-- The number of a trigger's bit; the two triggers without one get places outside the 32-bit word.
unfoldable pub bit_place : Trigger → ℕ
bit_place Trigger.all_events_no_hlt = 32
bit_place Trigger.high_pt = 16
bit_place Trigger.di_electron = 17
bit_place Trigger.heavy_fragment = 18
bit_place Trigger.all_events = 19
bit_place Trigger.random_events = 20
bit_place Trigger.bes_good_events = 21
bit_place Trigger.di_v0 = 33
bit_place Trigger.matched_ht2 = 23
bit_place Trigger.low_mult = 24
bit_place Trigger.upc_di_electron = 25
bit_place Trigger.upc_pair = 26
bit_place Trigger.mtd_di_muon = 27
bit_place Trigger.fixed_target = 28
bit_place Trigger.fixed_target_monitor = 29
bit_place Trigger.bes_monitor = 30
bit_place Trigger.hlt_good2 = 31
bit_place Trigger.mtd_quarkonium = 22
bit_place Trigger.di_electron2_twr = 0

power_or_zero : (t : Trigger) → (default_bit t ≡ 2 ^ bit_place t) ⊎ (default_bit t ≡ 0)
unfolding default_bit bit_place
power_or_zero Trigger.all_events_no_hlt = inr refl
power_or_zero Trigger.high_pt = inl refl
power_or_zero Trigger.di_electron = inl refl
power_or_zero Trigger.heavy_fragment = inl refl
power_or_zero Trigger.all_events = inl refl
power_or_zero Trigger.random_events = inl refl
power_or_zero Trigger.bes_good_events = inl refl
power_or_zero Trigger.di_v0 = inr refl
power_or_zero Trigger.matched_ht2 = inl refl
power_or_zero Trigger.low_mult = inl refl
power_or_zero Trigger.upc_di_electron = inl refl
power_or_zero Trigger.upc_pair = inl refl
power_or_zero Trigger.mtd_di_muon = inl refl
power_or_zero Trigger.fixed_target = inl refl
power_or_zero Trigger.fixed_target_monitor = inl refl
power_or_zero Trigger.bes_monitor = inl refl
power_or_zero Trigger.hlt_good2 = inl refl
power_or_zero Trigger.mtd_quarkonium = inl refl
power_or_zero Trigger.di_electron2_twr = inl refl

-- Back from the number of a trigger, and from the place of its bit to its number.
named : (t : Trigger) → get_or algorithms (number t - 1) Trigger.all_events_no_hlt ≡ t
unfolding algorithms number
named Trigger.all_events_no_hlt = refl
named Trigger.high_pt = refl
named Trigger.di_electron = refl
named Trigger.heavy_fragment = refl
named Trigger.all_events = refl
named Trigger.random_events = refl
named Trigger.bes_good_events = refl
named Trigger.di_v0 = refl
named Trigger.matched_ht2 = refl
named Trigger.low_mult = refl
named Trigger.upc_di_electron = refl
named Trigger.upc_pair = refl
named Trigger.mtd_di_muon = refl
named Trigger.fixed_target = refl
named Trigger.fixed_target_monitor = refl
named Trigger.bes_monitor = refl
named Trigger.hlt_good2 = refl
named Trigger.mtd_quarkonium = refl
named Trigger.di_electron2_twr = refl

abbrev owners : List ℕ
owners =
    19 ∷ 0 ∷ 0 ∷ 0 ∷ 0 ∷ 0 ∷ 0 ∷ 0 ∷ 0 ∷ 0 ∷ 0 ∷ 0 ∷ 0 ∷ 0 ∷ 0 ∷ 0 ∷ 2 ∷ 3 ∷ 4 ∷ 5 ∷ 6 ∷ 7 ∷ 18 ∷ 9
    ∷ 10 ∷ 11 ∷ 12 ∷ 13 ∷ 14 ∷ 15 ∷ 16 ∷ 17 ∷ 1 ∷ 8 ∷ []

owner : (t : Trigger) → get_or owners (bit_place t) 0 ≡ number t
unfolding bit_place number
owner Trigger.all_events_no_hlt = refl
owner Trigger.high_pt = refl
owner Trigger.di_electron = refl
owner Trigger.heavy_fragment = refl
owner Trigger.all_events = refl
owner Trigger.random_events = refl
owner Trigger.bes_good_events = refl
owner Trigger.di_v0 = refl
owner Trigger.matched_ht2 = refl
owner Trigger.low_mult = refl
owner Trigger.upc_di_electron = refl
owner Trigger.upc_pair = refl
owner Trigger.mtd_di_muon = refl
owner Trigger.fixed_target = refl
owner Trigger.fixed_target_monitor = refl
owner Trigger.bes_monitor = refl
owner Trigger.hlt_good2 = refl
owner Trigger.mtd_quarkonium = refl
owner Trigger.di_electron2_twr = refl

pub number_injective : (t u : Trigger) → number t ≡ number u → t ≡ u
number_injective t u e =
    sym (named t) ∙ ap (λ (n : ℕ). get_or algorithms (n - 1) Trigger.all_events_no_hlt) e ∙ named u

place_ne : (t u : Trigger) → number t ≢ number u → bit_place t ≢ bit_place u
place_ne t u h e = h (sym (owner t) ∙ ap (λ (n : ℕ). get_or owners n 0) e ∙ owner u)

abbrev pub one_if : Bool → ℕ
one_if b = if b then 1 else 0

one_if_le : (b : Bool) → one_if b ≤ 1
one_if_le true = omega arith
one_if_le false = omega arith

-- Each trigger has one bit, at a place of its own, or none at all.
pub record OwnBits (bits place : Trigger → ℕ) : Type 0 where
  pub one_bit : (t : Trigger) → (bits t ≡ 2 ^ place t) ⊎ (bits t ≡ 0)
  pub apart : (t u : Trigger) → number t ≢ number u → place t ≢ place u

-- The bits that setTriggers assigns are of this kind.
pub default_bit-OwnBits : OwnBits default_bit bit_place
default_bit-OwnBits = record { one_bit = power_or_zero; apart = place_ne }

-- Whether a list has a trigger.
unfoldable pub is_in : Trigger → List Trigger → Bool
is_in t [] = false
is_in t (u ∷ us) = let rest = is_in t us in if number t == number u then true else rest

module _ (bits place : Trigger → ℕ) (own : OwnBits bits place) where
  -- A trigger's word seen from the place of another one.
  bit-word : (t u : Trigger) → bits t ≢ 0 → bit (bits u) (place t) ≡ one_if (number t == number u)
  bit-word t u has_bit = elim (Bool-cases (number t == number u)) [
    | inl e ↦
        let same : t ≡ u = number_injective t u (ground arith) in
        let power : bits t ≡ 2 ^ place t = elim (own.one_bit t) [
          | inl p ↦ p
          | inr z ↦ absurd (has_bit z)
        ] in
        rw (e, sym same, power) (bit-shift_self (place t))
    | inr e ↦
        let away = own.apart t u (ground arith) in
        elim (own.one_bit u) [
          | inl p ↦ rw (e, p) (bit-shift_ne (place u) (place t) (λ q. away (sym q)))
          | inr z ↦ rw (e, z) (bit-zero (place t))
        ]
  ]

  bit-or_all :
      (t : Trigger) (us : List Trigger) (w : ℕ)
      → bits t ≢ 0
      → bit (or_all bits us w) (place t) ≡ max (bit w (place t)) (one_if (is_in t us))
  unfolding or_all is_in
  bit-or_all t [] w has_bit = omega arith
  bit-or_all t (u ∷ us) w has_bit =
      let k = place t in
      let rest = bit-or_all t us (bit_or w (bits u)) has_bit in
      let here = bit-bit_or w (bits u) k in
      let word = bit-word t u has_bit in
      let low = bit_le w k in
      elim (Bool-cases (number t == number u)) [
        | inl e ↦
            let set : bit (bits u) k ≡ 1 = word ∙ rw e refl in
            rw e (omega (arith, rest, here, set, low, one_if_le (is_in t us)))
        | inr e ↦
            let clear : bit (bits u) k ≡ 0 = word ∙ rw e refl in
            rw e (omega (arith, rest, here, clear))
      ]

-- The words of a list of triggers at one bit.
unfoldable pub some_bit : (Trigger → ℕ) → ℕ → List Trigger → ℕ
some_bit f k [] = 0
some_bit f k (t ∷ ts) = max (bit (f t) k) (some_bit f k ts)

bit-or_all_masks :
    (l2_mask : ℕ) (needed : Trigger → ℕ) (ts : List Trigger) (w k : ℕ)
    → bit (or_all (λ t. bit_and l2_mask (needed t)) ts w) k
      ≡ max (bit w k) (min (bit l2_mask k) (some_bit needed k ts))
unfolding or_all some_bit
bit-or_all_masks l2_mask needed [] w k = omega arith
bit-or_all_masks l2_mask needed (t ∷ ts) w k =
    let m = bit_and l2_mask (needed t) in
    let rest = bit-or_all_masks l2_mask needed ts (bit_or w m) k in
    omega (arith, rest, bit-bit_or w m k, bit-bit_and l2_mask (needed t) k)

module _ (fl : Floats) (parts : Parts fl) (cuts : Cuts fl) (ev : Event fl) (l2_mask : ℕ)
    (needed : Trigger → ℕ) where
  abbrev pub whole_run : Decider fl → ℕ × Decider fl
  whole_run s = run_algorithms fl parts cuts ev l2_mask needed algorithms (0, reset_event fl s)

  abbrev pub taken : Decider fl → List Trigger
  taken s = accepted fl parts cuts ev l2_mask needed algorithms (reset_event fl s)

  -- Where the parameters give each trigger one bit of its own or none, the bit of a trigger in
  -- hltDecision is set, after resetEvent and the loop and from any state, exactly when the trigger is
  -- among the accepted ones, for each trigger that has a bit.
  pub decision_bit :
      (place : Trigger → ℕ) (t : Trigger) (s : Decider fl)
      → OwnBits (trigger_bit fl cuts) place
      → trigger_bit fl cuts t ≢ 0
      → bit (whole_run s).1.hlt_decision (place t) ≡ one_if (is_in t (taken s))
  unfolding reset_event
  decision_bit place t s own has_bit =
      let whole =
        (run_algorithms-accepted fl parts cuts ev l2_mask needed algorithms 0
          (reset_event fl s)).1 in
      rw
        (
          whole,
          bit-or_all (trigger_bit fl cuts) place own t (taken s) 0 has_bit,
          bit-zero (place t),
        )
        (omega arith)

  -- After resetEvent and the loop, from any state, a bit of l3TrgMask is set exactly when it is set in
  -- l2TrgMask and in the mask that one of the accepted algorithms is needed by.
  pub mask_bit :
      (k : ℕ) (s : Decider fl)
      → bit (whole_run s).0 k ≡ min (bit l2_mask k) (some_bit needed k (taken s))
  mask_bit k s =
      let whole =
        (run_algorithms-accepted fl parts cuts ev l2_mask needed algorithms 0
          (reset_event fl s)).0 in
      rw (whole, bit-or_all_masks l2_mask needed (taken s) 0 k, bit-zero k) (omega arith)
