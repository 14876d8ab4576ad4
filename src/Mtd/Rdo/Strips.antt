-- ===== src/Mtd/Rdo/Strips.antt =====
-- The numbering of the strips by read_rdo_event, over the tables of HLT_MTD/mtd_defs.h.
use star_hlt_tofmtd.Prelude.{
  ℕ, zero, suc, ◌+◌, ◌-◌, ◌*◌, ◌%◌, ◌≤◌, ◌<◌, ◌≡◌, refl, sym, ap, ◌∙◌, Bool, true, ◌&&◌, arith, ltb,
  leb, ◌==◌, if◌then◌else◌,
}
use star_hlt_tofmtd.Prelude.Int.{
  ℤ, pos, negsuc, pos_part, neg_part, ◌+ℤ◌, ◌-ℤ◌, ◌*ℤ◌, ◌==ℤ◌, eq_of_parts, -ℤ_parts, +ℤ_parts,
  *ℤ-pos_parts,
}
use star_hlt_tofmtd.Prelude.Finite.{all_below, all_below_sound, implies}
use star_hlt_tofmtd.Mtd.Rdo.{tray_of, local_strip, global_strip}

-- A TDC channel that the map has.
abbrev pub IsMapped : ℕ → ℕ → Type 0
IsMapped tdcid tdcchan = (tdcid % 4 < 3) × (tdcchan < 8)

local_in : ℕ → ℕ → ℕ → Bool
local_in t q c =
    let s = local_strip t q c in neg_part s == 0 && leb 1 (pos_part s) && leb (pos_part s) 24

in_table : all_below 8 (λ t. all_below 3 λ q. all_below 8 (local_in t q)) ≡ true
unfolding all_below local_in local_strip
in_table = refl

inverse_table :
    all_below 8 (λ t. all_below 3 λ q. all_below 8 λ c. all_below 3 λ q'.
      all_below 8 λ c'. implies (local_strip t q c ==ℤ local_strip t q' c') (q == q' && c == c'))
    ≡ true
unfolding all_below local_strip
inverse_table = refl

tray_table :
    all_below 31 (λ b. all_below 8 λ t. all_below 8 λ t'.
      leb (tray_of b t) 5 && implies (leb 1 (tray_of b t) && tray_of b t == tray_of b t') (t == t'))
    ≡ true
unfolding all_below tray_of
tray_table = refl

local_strip-mod : (t tdcid c : ℕ) → local_strip t (tdcid % 4) c ≡ local_strip t tdcid c
unfolding local_strip
local_strip-mod t tdcid c = let e : tdcid % 4 % 4 ≡ tdcid % 4 = omega arith in rw e

pub global_strip-mod :
    (tray t tdcid c : ℕ) → global_strip tray t (tdcid % 4) c ≡ global_strip tray t tdcid c
unfolding global_strip
global_strip-mod tray t tdcid c = rw (local_strip-mod t tdcid c)

-- A mapped channel has a strip from 1 to 24.
local_strip_bounds :
    (t tdcid c : ℕ)
    → t < 8
    → IsMapped tdcid c
    → (neg_part (local_strip t tdcid c) ≡ 0)
      × (1 ≤ pos_part (local_strip t tdcid c))
      × (pos_part (local_strip t tdcid c) ≤ 24)
unfolding local_in
local_strip_bounds t tdcid c ht (hq, hc) = rw (← local_strip-mod t tdcid c) (
    let checked =
      all_below_sound 8 _ c (all_below_sound 3 _ (tdcid % 4) (all_below_sound 8 _ t in_table ht) hq)
        hc in
    ground (arith, checked))

local_strip-injective :
    (t tdcid c tdcid' c' : ℕ)
    → t < 8
    → IsMapped tdcid c
    → IsMapped tdcid' c'
    → local_strip t tdcid c ≡ local_strip t tdcid' c'
    → (tdcid % 4 ≡ tdcid' % 4) × (c ≡ c')
local_strip-injective t tdcid c tdcid' c' ht (hq, hc) (hq', hc') e =
    let checked =
      all_below_sound 8 _ c'
        (all_below_sound 3 _ (tdcid' % 4)
          (all_below_sound 8 _ c
            (all_below_sound 3 _ (tdcid % 4) (all_below_sound 8 _ t inverse_table ht) hq) hc)
          hq')
        hc' in
    let same : local_strip t (tdcid % 4) c ≡ local_strip t (tdcid' % 4) c' =
      local_strip-mod t tdcid c ∙ e ∙ sym (local_strip-mod t tdcid' c') in
    ground (arith, checked, same)

pub tray_of_le : (b t : ℕ) → b < 31 → t < 8 → tray_of b t ≤ 5
tray_of_le b t hb ht =
    let checked =
      all_below_sound 8 _ t (all_below_sound 8 _ t (all_below_sound 31 _ b tray_table hb) ht) ht in
    ground (arith, checked)

tray_of-injective :
    (b t t' : ℕ) → b < 31 → t < 8 → t' < 8 → 1 ≤ tray_of b t → tray_of b t ≡ tray_of b t' → t ≡ t'
tray_of-injective b t t' hb ht ht' h e =
    let checked =
      all_below_sound 8 _ t' (all_below_sound 8 _ t (all_below_sound 31 _ b tray_table hb) ht)
        ht' in
    ground (arith, checked)

shift_value :
    (tray : ℕ) (s : ℤ)
    → 1 ≤ tray
    → neg_part s ≡ 0
    → s +ℤ (pos tray -ℤ pos 1) *ℤ pos 24 ≡ pos (pos_part s + (tray - 1) * 24)
unfolding ◌+ℤ◌ ◌*ℤ◌
shift_value zero s h e = absurd (omega arith)
shift_value (suc k) (negsuc n) h e = absurd (omega arith)
shift_value (suc k) (pos n) h e =
    let step : pos (suc k) -ℤ pos 1 ≡ pos k = unfold ◌-ℤ◌ in ground arith in rw step (ground arith)

global_strip_value :
    (tray t tdcid c : ℕ)
    → 1 ≤ tray
    → neg_part (local_strip t tdcid c) ≡ 0
    → global_strip tray t tdcid c ≡ pos (pos_part (local_strip t tdcid c) + (tray - 1) * 24)
unfolding global_strip
global_strip_value tray t tdcid c h e = shift_value tray (local_strip t tdcid c) h e

-- A mapped channel of a module that is read out lies within its tray's 24 strips.
pub global_strip_bounds :
    (b t tdcid c : ℕ)
    → b < 31
    → t < 8
    → IsMapped tdcid c
    → 1 ≤ tray_of b t
    → (s : ℕ) × (global_strip (tray_of b t) t tdcid c ≡ pos s)
      × ((tray_of b t - 1) * 24 < s)
      × (s ≤ tray_of b t * 24)
global_strip_bounds b t tdcid c hb ht m h =
    let (sign, low, high) = local_strip_bounds t tdcid c ht m in
    (
      pos_part (local_strip t tdcid c) + (tray_of b t - 1) * 24,
      global_strip_value (tray_of b t) t tdcid c h sign,
      omega arith,
      omega arith,
    )

-- Two mapped TDC channels of modules of a backleg that are read out, if they share a strip, are the
-- same channel of the same TDIG and of chips with the same number modulo 4.
pub global_strip-injective :
    (b t tdcid c t' tdcid' c' : ℕ)
    → b < 31
    → t < 8
    → t' < 8
    → IsMapped tdcid c
    → IsMapped tdcid' c'
    → 1 ≤ tray_of b t
    → 1 ≤ tray_of b t'
    → global_strip (tray_of b t) t tdcid c ≡ global_strip (tray_of b t') t' tdcid' c'
    → (t ≡ t') × (tdcid % 4 ≡ tdcid' % 4) × (c ≡ c')
global_strip-injective b t tdcid c t' tdcid' c' hb ht ht' m m' h h' e =
    let (sign, low, high) = local_strip_bounds t tdcid c ht m in
    let (sign', low', high') = local_strip_bounds t' tdcid' c' ht' m' in
    let sums = ap pos_part (
      sym (global_strip_value (tray_of b t) t tdcid c h sign)
      ∙ e
      ∙ global_strip_value (tray_of b t') t' tdcid' c' h' sign') in
    let same_tdig : t ≡ t' = tray_of-injective b t t' hb ht ht' h (omega arith) in
    let same_strip : local_strip t tdcid c ≡ local_strip t tdcid' c' =
      eq_of_parts _ _ (omega (arith, ap (tray_of b) same_tdig))
      ∙ ap (λ (k : ℕ). local_strip k tdcid' c') (sym same_tdig) in
    let (q, ch) = local_strip-injective t tdcid c tdcid' c' ht m m' same_strip in (same_tdig, q, ch)

unmapped_table :
    all_below 8 (λ t. all_below 8 λ c. local_strip t 3 c ==ℤ (if ltb 3 t then pos 11 else negsuc 0))
    ≡ true
unfolding all_below local_strip
unmapped_table = refl

-- The code does not check whether a channel has a strip: the -1 of a chip with number 3 modulo 4 is
-- taken for a strip number, and turned over it becomes 11.
local_strip_unmapped :
    (t tdcid c : ℕ)
    → t < 8
    → tdcid % 4 ≡ 3
    → c < 8
    → local_strip t tdcid c ≡ (if ltb 3 t then pos 11 else negsuc 0)
local_strip_unmapped t tdcid c ht q hc =
    let checked = all_below_sound 8 _ c (all_below_sound 8 _ t unmapped_table ht) hc in
    sym (local_strip-mod t tdcid c) ∙ ap (λ (k : ℕ). local_strip t k c) q ∙ ground (arith, checked)

-- So on the unturned modules such a channel reads as strip 23 of the tray before.
pub global_strip_unmapped :
    (tray t tdcid c : ℕ)
    → 2 ≤ tray
    → t ≤ 3
    → tdcid % 4 ≡ 3
    → c < 8
    → global_strip tray t tdcid c ≡ pos ((tray - 2) * 24 + 23)
unfolding global_strip
global_strip_unmapped tray t tdcid c h ht q hc =
    let e : local_strip t tdcid c ≡ negsuc 0 =
      local_strip_unmapped t tdcid c (omega arith) q hc ∙ ground arith in
    rw e (before tray h)
  where
    before : (k : ℕ) → 2 ≤ k → negsuc 0 +ℤ (pos k -ℤ pos 1) *ℤ pos 24 ≡ pos ((k - 2) * 24 + 23)
    before k le =
        let step = -ℤ_parts (pos k) (pos 1) in
        let scaled = *ℤ-pos_parts (pos k -ℤ pos 1) 24 in
        let total = +ℤ_parts (negsuc 0) ((pos k -ℤ pos 1) *ℤ pos 24) in
        eq_of_parts _ _ (omega (arith, step, scaled, total))
