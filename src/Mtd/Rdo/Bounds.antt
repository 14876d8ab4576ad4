-- ===== src/Mtd/Rdo/Bounds.antt =====
-- What read_rdo_event appends, whatever the words are.
use star_hlt_tofmtd.Prelude.{
  ℕ, suc, ◌+◌, ◌-◌, ◌*◌, ◌%◌, ◌^◌, ◌≤◌, ◌<◌, ◌≡◌, ◌≢◌, refl, sym, ap, ◌∙◌, ◌⊎◌, inl, inr, List, [],
  ◌∷◌, ◌++◌, arith, Bool, true, false, ◌&&◌, ◌||◌, leb, ◌==◌, length, length-append, All,
  All-append, some, none, Option, Bool-cases, ltb, set, if◌then◌else◌,
}
use mathlib.Core.List.{append-nil, append_assoc}
use star_hlt_tofmtd.Prelude.Bits.{field}
use star_hlt_tofmtd.Prelude.Finite.{all_below, all_below_sound}
use star_hlt_tofmtd.Prelude.Int.{
  ℤ, pos, negsuc, pos_part, neg_part, ◌≤ℤ◌, ◌+ℤ◌, ◌-ℤ◌, ◌*ℤ◌, *ℤ-pos_parts, +ℤ_parts, -ℤ_parts,
}
use star_hlt_tofmtd.Mtd.Types.{RawHit, Geo, Scan}
use star_hlt_tofmtd.Mtd.Rdo.{
  tray_of, tdig_of, local_strip, global_strip, raw_hit, read_tdc, read_word, read_words,
  read_rdo_event,
}
use star_hlt_tofmtd.Mtd.Rdo.Strips.{tray_of_le}

-- The strip number of some channel of some chip of the backleg.
pub record IsChannel (b : ℕ) (s : ℤ) : Type 0 where
  pub tdig : ℕ
  pub chip : ℕ
  pub chan : ℕ
  pub tdig_lt : tdig < 8
  pub chip_lt : chip < 16
  pub chan_lt : chan < 8
  pub strip_eq : s ≡ global_strip (tray_of b tdig) tdig chip chan

pub record IsRaw (rdo : ℕ) (h : RawHit) : Type 0 where
  pub fiber : h.fiberid ≡ rdo - 1
  pub backleg_low : 1 ≤ h.backleg
  pub backleg_high : h.backleg ≤ 30
  pub tdc_lt : h.tdc < 2 ^ 21
  pub strip_low : negsuc 24 ≤ℤ h.globaltdcchan
  pub strip_high : h.globaltdcchan ≤ℤ pos 120
  pub channel : IsChannel h.backleg h.globaltdcchan

any_in : ℕ → ℕ → ℕ → Bool
any_in t q c = let s = local_strip t q c in leb (neg_part s) 1 && leb (pos_part s) 24

any_table : all_below 8 (λ t. all_below 4 λ q. all_below 8 (any_in t q)) ≡ true
unfolding all_below any_in local_strip
any_table = refl

local_strip_range :
    (t tdcid c : ℕ)
    → t < 8
    → c < 8
    → (neg_part (local_strip t tdcid c) ≤ 1) × (pos_part (local_strip t tdcid c) ≤ 24)
unfolding local_strip any_in
local_strip_range t tdcid c ht hc =
    let e : tdcid % 4 % 4 ≡ tdcid % 4 = omega arith in
    let checked =
      all_below_sound 8 _ c
        (all_below_sound 4 _ (tdcid % 4) (all_below_sound 8 _ t any_table ht) (omega arith)) hc in
    ground (arith, rw e at checked)

tray_shift :
    (tray : ℕ) (z : ℤ)
    → tray ≤ 5
    → neg_part z ≤ 1
    → pos_part z ≤ 24
    → (negsuc 24 ≤ℤ z +ℤ (pos tray -ℤ pos 1) *ℤ pos 24)
      × (z +ℤ (pos tray -ℤ pos 1) *ℤ pos 24 ≤ℤ pos 120)
tray_shift tray z h a b =
    let step = -ℤ_parts (pos tray) (pos 1) in
    let scaled = *ℤ-pos_parts (pos tray -ℤ pos 1) 24 in
    let total = +ℤ_parts z ((pos tray -ℤ pos 1) *ℤ pos 24) in omega (arith, step, scaled, total)

raw_hit-IsRaw :
    (rdo : ℕ) (g : Geo) (w : ℕ)
    → g.half < 2
    → 1 ≤ g.backleg
    → g.backleg ≤ 30
    → IsRaw rdo (raw_hit rdo g w)
unfolding raw_hit global_strip tdig_of
raw_hit-IsRaw rdo g w half low high =
    let tdcid = field w 24 4 in
    let tdig = field tdcid 2 2 + g.half * 4 in
    let tray = tray_of g.backleg tdig in
    let (neg, above) = local_strip_range tdig tdcid (field w 21 3) (omega arith) (omega arith) in
    let (bottom, top) =
      tray_shift tray (local_strip tdig tdcid (field w 21 3))
        (tray_of_le g.backleg tdig (omega arith) (omega arith)) neg above in
    record {
      fiber = refl;
      backleg_low = low;
      backleg_high = high;
      tdc_lt = omega arith;
      strip_low = bottom;
      strip_high = top;
      channel = record {
        tdig = tdig;
        chip = tdcid;
        chan = field w 21 3;
        tdig_lt = omega arith;
        chip_lt = omega arith;
        chan_lt = omega arith;
        strip_eq = refl;
      };
    }

-- The half of a geographical word that is kept is one bit.
abbrev IsGeo : Option Geo → Type 0
IsGeo none = Unit {0}
IsGeo (some g) = g.half < 2

-- A scan from `s` to `t` that appends at most `n` raw hits and nothing else to the two lists.
pub record Grows (rdo n : ℕ) (s t : Scan) : Type 0 where
  pub lead : List RawHit
  pub trail : List RawHit
  pub leading_eq : t.leading ≡ s.leading ++ lead
  pub trailing_eq : t.trailing ≡ s.trailing ++ trail
  pub lead_raw : All (IsRaw rdo) lead
  pub trail_raw : All (IsRaw rdo) trail
  pub count : length lead + length trail ≤ n

module _ (rdo : ℕ) where
  Grows-same :
      (n : ℕ) (s t : Scan) → t.leading ≡ s.leading → t.trailing ≡ s.trailing → Grows rdo n s t
  Grows-same n s t e f = record {
    lead = [];
    trail = [];
    leading_eq = e ∙ sym (append-nil _);
    trailing_eq = f ∙ sym (append-nil _);
    lead_raw = tt;
    trail_raw = tt;
    count = omega arith;
  }

  Grows-trans :
      (m n k : ℕ) {s t u : Scan} → m + n ≤ k → Grows rdo m s t → Grows rdo n t u → Grows rdo k s u
  Grows-trans m n k {s} {t} {u} le g h = record {
    lead = g.lead ++ h.lead;
    trail = g.trail ++ h.trail;
    leading_eq =
        h.leading_eq
        ∙ ap (λ (l : List RawHit). l ++ h.lead) g.leading_eq
        ∙ append_assoc s.leading g.lead h.lead;
    trailing_eq =
        h.trailing_eq
        ∙ ap (λ (l : List RawHit). l ++ h.trail) g.trailing_eq
        ∙ append_assoc s.trailing g.trail h.trail;
    lead_raw = All-append (IsRaw rdo) g.lead h.lead g.lead_raw h.lead_raw;
    trail_raw = All-append (IsRaw rdo) g.trail h.trail g.trail_raw h.trail_raw;
    count =
        omega (arith, g.count, h.count, length-append g.lead h.lead, length-append g.trail h.trail);
  }

  Grows-push_lead :
      (s : Scan) (h : RawHit)
      → IsRaw rdo h
      → Grows rdo 1 s (record s { leading = s.leading ++ h ∷ [] })
  Grows-push_lead s h r = record {
    lead = h ∷ [];
    trail = [];
    leading_eq = refl;
    trailing_eq = sym (append-nil _);
    lead_raw = (r, tt);
    trail_raw = tt;
    count = omega arith;
  }

  Grows-push_trail :
      (s : Scan) (h : RawHit)
      → IsRaw rdo h
      → Grows rdo 1 s (record s { trailing = s.trailing ++ h ∷ [] })
  Grows-push_trail s h r = record {
    lead = [];
    trail = h ∷ [];
    leading_eq = sym (append-nil _);
    trailing_eq = refl;
    lead_raw = tt;
    trail_raw = (r, tt);
    count = omega arith;
  }

  -- The invariant of the loop.
  abbrev Keeps : Scan → Scan → Type 0
  Keeps s t = Grows rdo 1 s t × IsGeo t.geo

  if-Keeps :
      {s : Scan} (b : Bool) (t u : Scan)
      → (b ≡ true → Keeps s t)
      → (b ≡ false → Keeps s u)
      → Keeps s (if b then t else u)
  if-Keeps true t u h k = h refl
  if-Keeps false t u h k = k refl

  read_tdc-Keeps :
      (s : Scan) (geo : Option Geo) (w : ℕ)
      → IsGeo geo
      → IsGeo s.geo
      → Keeps s (read_tdc rdo s geo w)
  unfolding read_tdc
  read_tdc-Keeps s none w v v' = (Grows-same 1 s s refl refl, v')
  read_tdc-Keeps s (some g) w v v' =
      let edge = field w 28 4 in
      let lead : Scan = record s { leading = s.leading ++ raw_hit rdo g w ∷ [] } in
      let trail : Scan = record s { trailing = s.trailing ++ raw_hit rdo g w ∷ [] } in
      let last = if edge == 5 then trail else s in
      let other = if edge == 4 then lead else last in
      if-Keeps (ltb g.backleg 1 || ltb 30 g.backleg) s other (λ _. (Grows-same 1 s s refl refl, v'))
        λ inside.
          let raw : IsRaw rdo (raw_hit rdo g w) =
            raw_hit-IsRaw rdo g w v (ground (arith, inside)) (ground (arith, inside)) in
          if-Keeps (edge == 4) lead last (λ _. (Grows-push_lead s _ raw, v'))
            λ _.
              if-Keeps (edge == 5) trail s (λ _. (Grows-push_trail s _ raw, v'))
                λ _. (Grows-same 1 s s refl refl, v')

  read_word-Keeps : (s : Scan) (w : ℕ) → IsGeo s.geo → Keeps s (read_word rdo s w)
  unfolding read_word
  read_word-Keeps s w v =
      let tag = field w 28 4 in
      let timed : Scan = record s { trigger_time = set s.trigger_time (rdo - 1) w } in
      let placed : Scan = record s {
        geo = some (record { half = w % 2; backleg = field w 1 7 });
      } in
      let tdc = read_tdc rdo s s.geo w in
      let rest = if tag == 0xc then placed else tdc in
      if-Keeps (tag == 0xa || tag == 0xd || tag == 0xe) s (if tag == 2 then timed else rest)
        (λ _. (Grows-same 1 s s refl refl, v))
        λ _.
          if-Keeps (tag == 2) timed rest (λ _. (Grows-same 1 s timed refl refl, v))
            λ _.
              if-Keeps (tag == 0xc) placed tdc (λ _. (Grows-same 1 s placed refl refl, omega arith))
                λ _. read_tdc-Keeps s s.geo w v v

  read_words-Grows :
      (s : Scan) (ws : List ℕ) → IsGeo s.geo → Grows rdo (length ws) s (read_words rdo s ws)
  unfolding read_words
  read_words-Grows s [] v = Grows-same 0 s s refl refl
  read_words-Grows s (w ∷ ws) v =
      let (one, v') = read_word-Keeps s w v in
      Grows-trans 1 (length ws) (suc (length ws)) (omega arith) one
        (read_words-Grows (read_word rdo s w) ws v')

-- Whatever the words are, read_rdo_event returns 0 or -1 and appends at most one hit a word to the
-- two lists, behind those that are there. Each new hit carries the fiber of the RDO, a backleg from 1
-- to 30, a time below 2^21, and the strip number of some channel of this backleg, which fits the signed
-- char that holds it.
pub read_rdo_event-Grows :
    (rdo : ℕ) (ws : List ℕ) (s : Scan)
    → let (ret, t) = read_rdo_event rdo ws s in
      (((rdo ≡ 1) ⊎ (rdo ≡ 2)) × (ret ≡ pos 0) × Grows rdo (length ws) s t)
      ⊎ ((rdo ≢ 1) × (rdo ≢ 2) × (ret ≡ negsuc 0) × (t ≡ s))
unfolding read_rdo_event
read_rdo_event-Grows rdo ws s = elim (Bool-cases (rdo == 1 || rdo == 2)) [
  | inl known ↦ rw known (inl (ground arith, refl, begin))
  | inr other ↦ rw other (inr (ground arith, ground arith, refl, refl))
]
  where
    begin : Grows rdo (length ws) s (read_words rdo (record s { geo = none }) ws)
    begin =
        let g = read_words-Grows rdo (record s { geo = none }) ws tt in
        record {
          lead = g.lead;
          trail = g.trail;
          leading_eq = g.leading_eq;
          trailing_eq = g.trailing_eq;
          lead_raw = g.lead_raw;
          trail_raw = g.trail_raw;
          count = g.count;
        }
