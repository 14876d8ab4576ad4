-- ===== src/Mtd/Singles/Distinct.antt =====
-- The shape of the slots that fillMtdSingleHits builds.
use star_hlt_tofmtd.Prelude.{
  ℕ, ◌≤◌, ◌<◌, ◌≡◌, ◌≢◌, refl, List, [], ◌∷◌, false, Option, none, some, arith, ◌==◌, length, map,
  length-map, All, Bool-cases, inl, inr, subst,
}
use star_hlt_tofmtd.Prelude.Pigeonhole.{Distinct, length-Distinct-le}
use star_hlt_tofmtd.Prelude.Int.{ℤ, pos, ◌+ℤ◌, ◌-ℤ◌, div_trunc, mod_trunc}
use star_hlt_tofmtd.Mtd.Types.{RawHit, SingleHit}
use star_hlt_tofmtd.Mtd.Singles.{
  Side, leading, trailing, Place, slot, checked_place, place_of, same_strip, push_time, new_hit,
  add_time, Slots, add_at, fill_edges, fill_single_hits,
}

-- A place inside the detector.
pub record IsPlace (p : Place) : Type 0 where
  pub backleg_low : 1 ≤ p.backleg
  pub backleg_high : p.backleg ≤ 30
  pub tray_low : 1 ≤ p.tray
  pub tray_high : p.tray ≤ 5
  pub channel_lt : p.channel < 24

abbrev pub strip_of : SingleHit → Place
strip_of s = record { backleg = s.backleg; tray = s.tray; channel = s.channel }

abbrev pub channels : List SingleHit → List ℕ
channels = map (λ s. s.channel)

-- A single hit that stands in slot i.
pub record InSlot (i : ℕ) (s : SingleHit) : Type 0 where
  pub inside : IsPlace (strip_of s)
  pub here : slot (strip_of s) ≡ i

-- Every single hit of the slot belongs to it, and no two are of one strip.
pub record IsSlot (i : ℕ) (ss : List SingleHit) : Type 0 where
  pub members : All (InSlot i) ss
  pub apart : Distinct (channels ss)

checked_place-IsPlace :
    (b : ℕ) (itray ichan : ℤ) (p : Place) → checked_place b itray ichan ≡ some p → IsPlace p
unfolding checked_place
checked_place-IsPlace b itray ichan p e = ground arith

-- A raw hit that passes the checks has a place inside the detector.
pub place_of-IsPlace : (h : RawHit) (p : Place) → place_of h ≡ some p → IsPlace p
unfolding place_of checked_place
place_of-IsPlace h p e =
    checked_place-IsPlace h.backleg (div_trunc (h.globaltdcchan -ℤ pos 1) 24 +ℤ pos 1)
      (mod_trunc (h.globaltdcchan -ℤ pos 1) 24) p e

strip_of-push_time :
    (side : Side) (t : ℕ) (s : SingleHit) → strip_of (push_time side t s) ≡ strip_of s
strip_of-push_time leading t s = refl
strip_of-push_time trailing t s = refl

channel-push_time : (side : Side) (t : ℕ) (s : SingleHit) → (push_time side t s).channel ≡ s.channel
channel-push_time leading t s = refl
channel-push_time trailing t s = refl

InSlot-push_time :
    (i : ℕ) (side : Side) (t : ℕ) (s : SingleHit) → InSlot i s → InSlot i (push_time side t s)
InSlot-push_time i leading t s v = record { inside = v.inside; here = v.here }
InSlot-push_time i trailing t s v = record { inside = v.inside; here = v.here }

module _ (i : ℕ) (side : Side) (p : Place) (fiber t : ℕ) (ok : IsPlace p) (here : slot p ≡ i) where
  InSlot-first : InSlot i (push_time side t (new_hit p fiber))
  InSlot-first = InSlot-push_time i side t (new_hit p fiber) (record { inside = ok; here = here })

  add_time-members :
      (ss : List SingleHit) → All (InSlot i) ss → All (InSlot i) (add_time side p fiber t ss)
  unfolding add_time
  add_time-members [] v = (InSlot-first, tt)
  add_time-members (s ∷ ss) (v, vs) = elim (Bool-cases (same_strip p s)) [
    | inl e ↦ rw e (InSlot-push_time i side t s v, vs)
    | inr e ↦ rw e (v, add_time-members ss vs)
  ]

  add_time-All_ne :
      (c : ℕ) (ss : List SingleHit)
      → p.channel ≢ c
      → All (λ k. k ≢ c) (channels ss)
      → All (λ k. k ≢ c) (channels (add_time side p fiber t ss))
  unfolding add_time
  add_time-All_ne c [] ne v = (rw (channel-push_time side t (new_hit p fiber)) ne, tt)
  add_time-All_ne c (s ∷ ss) ne (v, vs) = elim (Bool-cases (same_strip p s)) [
    | inl e ↦ rw (e, channel-push_time side t s) (v, vs)
    | inr e ↦ rw e (v, add_time-All_ne c ss ne vs)
  ]

  -- Two strips of one slot that are not the same differ in the channel.
  other_channel : (s : SingleHit) → InSlot i s → same_strip p s ≡ false → p.channel ≢ s.channel
  other_channel s v e = ground (arith, ok, here, v.inside, v.here)

  add_time-apart :
      (ss : List SingleHit)
      → All (InSlot i) ss
      → Distinct (channels ss)
      → Distinct (channels (add_time side p fiber t ss))
  unfolding add_time
  add_time-apart [] v d = (tt, tt)
  add_time-apart (s ∷ ss) (v, vs) (f, d) = elim (Bool-cases (same_strip p s)) [
    | inl e ↦ rw (e, channel-push_time side t s) (f, d)
    | inr e ↦
        let other : p.channel ≢ s.channel = other_channel s v e in
        rw e (add_time-All_ne s.channel ss other f, add_time-apart ss vs d)
  ]

  add_time-IsSlot : (ss : List SingleHit) → IsSlot i ss → IsSlot i (add_time side p fiber t ss)
  add_time-IsSlot ss v = record {
    members = add_time-members ss v.members;
    apart = add_time-apart ss v.members v.apart;
  }

-- Every slot of the array.
abbrev pub IsSlots : Slots → Type 0
IsSlots f = (i : ℕ) → IsSlot i (f i)

add_at-IsSlots :
    (side : Side) (h : RawHit) (o : Option Place) (f : Slots)
    → ((p : Place) → o ≡ some p → IsPlace p)
    → IsSlots f
    → IsSlots (add_at side h o f)
unfolding add_at
add_at-IsSlots side h none f ok v i = v i
add_at-IsSlots side h (some p) f ok v i = elim (Bool-cases (slot p == i)) [
  | inl e ↦
      let here : slot p ≡ i = ground arith in
      rw e (
        subst (λ (k : ℕ). IsSlot k (add_time side p h.fiberid h.tdc (f (slot p)))) here
          (add_time-IsSlot (slot p) side p h.fiberid h.tdc (ok p refl) refl (f (slot p))
            (v (slot p))))
  | inr e ↦ rw e (v i)
]

fill_edges-IsSlots :
    (side : Side) (hs : List RawHit) (f : Slots) → IsSlots f → IsSlots (fill_edges side hs f)
unfolding fill_edges
fill_edges-IsSlots side [] f v = v
fill_edges-IsSlots side (h ∷ hs) f v =
    fill_edges-IsSlots side hs (add_at side h (place_of h) f)
      (add_at-IsSlots side h (place_of h) f (place_of-IsPlace h) v)

-- fillMtdSingleHits keeps every slot to single hits of its own backleg and tray, of strips inside the
-- detector, and never two of one strip.
pub fill_single_hits-IsSlots :
    (lead trail : List RawHit) (f : Slots) → IsSlots f → IsSlots (fill_single_hits lead trail f)
unfolding fill_single_hits
fill_single_hits-IsSlots lead trail f v =
    fill_edges-IsSlots trailing trail _ (fill_edges-IsSlots leading lead f v)

channels_lt : (i : ℕ) (ss : List SingleHit) → All (InSlot i) ss → All (λ c. c < 24) (channels ss)
channels_lt i [] v = tt
channels_lt i (s ∷ ss) (v, vs) = (v.inside.channel_lt, channels_lt i ss vs)

-- A slot holds at most 24 single hits.
pub length-IsSlot-le : (i : ℕ) (ss : List SingleHit) → IsSlot i ss → length ss ≤ 24
length-IsSlot-le i ss v = omega (
  arith,
  length-map {0, 0} ss (λ s. s.channel),
  length-Distinct-le 24 (channels ss) (channels_lt i ss v.members) v.apart,
)
