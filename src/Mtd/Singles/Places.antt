-- ===== src/Mtd/Singles/Places.antt =====
-- From the TDC word of an edge to the strip that its time is filed under.
use star_hlt_tofmtd.Prelude.{
  ℕ, zero, suc, ◌+◌, ◌-◌, ◌*◌, ◌/◌, ◌%◌, ◌≤◌, ◌<◌, ◌≡◌, ◌≢◌, ap, ◌∙◌, some, arith,
}
use star_hlt_tofmtd.Prelude.Int.{pos, ◌+ℤ◌, ◌-ℤ◌, div_trunc, mod_trunc}
use star_hlt_tofmtd.Mtd.Types.{RawHit, Geo}
use star_hlt_tofmtd.Mtd.Rdo.{tray_of, tdig_of}
use star_hlt_tofmtd.Mtd.Rdo.Strips.{
  IsMapped, tray_of_le, global_strip_bounds, global_strip_unmapped,
}
use star_hlt_tofmtd.Mtd.Rdo.Decode.{Edge, hit_of}
use star_hlt_tofmtd.Mtd.Singles.{checked_place, place_of}

checked_place_ok :
    (b tray c : ℕ)
    → 1 ≤ b
    → b ≤ 30
    → b ≢ 9
    → 1 ≤ tray
    → tray ≤ 5
    → c < 24
    → checked_place b (pos tray) (pos c) ≡ some (record { backleg = b; tray = tray; channel = c })
unfolding checked_place
checked_place_ok b tray c l h n tl th cl = ground arith

divide :
    (s tray : ℕ)
    → 1 ≤ tray
    → (tray - 1) * 24 < s
    → s ≤ tray * 24
    → (div_trunc (pos s -ℤ pos 1) 24 +ℤ pos 1 ≡ pos tray)
      × (mod_trunc (pos s -ℤ pos 1) 24 ≡ pos (s - 1 - (tray - 1) * 24))
unfolding div_trunc mod_trunc
divide zero tray t l h = absurd (omega arith)
divide (suc k) tray t l h =
    let q : k / 24 ≡ tray - 1 = omega arith in
    let r : k % 24 ≡ k - (tray - 1) * 24 = omega arith in
    let minus : pos (suc k) -ℤ pos 1 ≡ pos k = unfold ◌-ℤ◌ in ground arith in
    let plus : pos (tray - 1) +ℤ pos 1 ≡ pos tray = unfold ◌+ℤ◌ in ground arith in
    (rw (minus, div_trunc, q) plus, rw (minus, mod_trunc) (ap pos (omega arith)))

place_of_strip :
    (h : RawHit) (s tray : ℕ)
    → 1 ≤ h.backleg
    → h.backleg ≤ 30
    → h.backleg ≢ 9
    → 1 ≤ tray
    → tray ≤ 5
    → h.globaltdcchan ≡ pos s
    → (tray - 1) * 24 < s
    → s ≤ tray * 24
    → place_of h
      ≡ some (record { backleg = h.backleg; tray = tray; channel = s - 1 - (tray - 1) * 24 })
unfolding place_of
place_of_strip h s tray l b n tl th e low high =
    let (quotient, rest) = divide s tray tl low high in
    rw (e, quotient, rest)
      (checked_place_ok h.backleg tray (s - 1 - (tray - 1) * 24) l b n tl th (omega arith))

-- A module in use on a half backleg.
pub record InUse (g : Geo) (e : Edge) : Type 0 where
  pub half_lt : g.half < 2
  pub backleg_low : 1 ≤ g.backleg
  pub backleg_high : g.backleg ≤ 30
  pub not_nine : g.backleg ≢ 9
  pub tdcid_lt : e.tdcid < 16
  pub tdcchan_lt : e.tdcchan < 8

tdig_of-lt : (g : Geo) (e : Edge) → InUse g e → tdig_of e.tdcid g.half < 8
unfolding tdig_of
tdig_of-lt g e v = omega (arith, v.half_lt)

-- On a backleg in use, the edge of a mapped channel of a module that is read out is filed under its
-- own tray, and under a channel from 0 to 23 of it.
pub place_of-hit_of :
    (rdo : ℕ) (g : Geo) (e : Edge)
    → InUse g e
    → IsMapped e.tdcid e.tdcchan
    → 1 ≤ tray_of g.backleg (tdig_of e.tdcid g.half)
    → (c : ℕ) × (c < 24)
      × (place_of (hit_of rdo g e)
          ≡ some (record {
            backleg = g.backleg;
            tray = tray_of g.backleg (tdig_of e.tdcid g.half);
            channel = c;
          }))
unfolding hit_of
place_of-hit_of rdo g e v m h =
    let t = tdig_of e.tdcid g.half in
    let tray = tray_of g.backleg t in
    let t_lt : t < 8 = tdig_of-lt g e v in
    let (s, eq, low, high) =
      global_strip_bounds g.backleg t e.tdcid e.tdcchan (omega (arith, v.backleg_high)) t_lt m h in
    (
      s - 1 - (tray - 1) * 24,
      omega arith,
      place_of_strip (hit_of rdo g e) s tray v.backleg_low v.backleg_high v.not_nine h
          (tray_of_le g.backleg t (omega (arith, v.backleg_high)) t_lt) eq low high,
    )

-- On the first half of a backleg in use, a channel of a chip with number 3 modulo 4, which has no
-- strip, of a module other than the first is filed under channel 22 of the tray before its own.
pub place_of-hit_of_unmapped :
    (rdo : ℕ) (g : Geo) (e : Edge)
    → InUse g e
    → e.tdcid % 4 ≡ 3
    → g.half ≡ 0
    → 2 ≤ tray_of g.backleg (tdig_of e.tdcid g.half)
    → place_of (hit_of rdo g e)
      ≡ some (record {
        backleg = g.backleg;
        tray = tray_of g.backleg (tdig_of e.tdcid g.half) - 1;
        channel = 22;
      })
unfolding hit_of
place_of-hit_of_unmapped rdo g e v q zeroth h =
    let t = tdig_of e.tdcid g.half in
    let tray = tray_of g.backleg t in
    let le = tray_of_le g.backleg t (omega (arith, v.backleg_high)) (tdig_of-lt g e v) in
    let small : t ≤ 3 = unfold tdig_of in omega (arith, v.tdcid_lt) in
    let eq = global_strip_unmapped tray t e.tdcid e.tdcchan h small q v.tdcchan_lt in
    let filed =
      place_of_strip (hit_of rdo g e) ((tray - 2) * 24 + 23) (tray - 1) v.backleg_low v.backleg_high
        v.not_nine (omega arith) (omega arith) eq (omega arith) (omega arith) in
    let channel : (tray - 2) * 24 + 23 - 1 - (tray - 1 - 1) * 24 ≡ 22 = omega arith in
    filed
    ∙ ap (λ (c : ℕ). some (record { backleg = g.backleg; tray = tray - 1; channel = c })) channel
