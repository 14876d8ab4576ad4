-- ===== src/Mtd/Trigger/Slewing.antt =====
-- The search for the slewing bin of an ADC value.
use star_hlt_tofmtd.Prelude.{
  [], ℕ, zero, suc, ◌+◌, ◌-◌, ◌*◌, ◌≤◌, ◌<◌, ◌≡◌, refl, ap, ◌⊎◌, inl, inr, Bool, true, false, ◌&&◌,
  Option, none, some, arith, ltb, leb, ◌==◌, Bool-cases, get_or,
}
use star_hlt_tofmtd.Prelude.Finite.{all_below, all_below_sound}
use star_hlt_tofmtd.Mtd.SlewEdges.{qtslew_binedge_run16}
use star_hlt_tofmtd.Mtd.Config.{Config, slewing, init}
use star_hlt_tofmtd.Mtd.Trigger.{bin_from, slew_bin, slewed}

-- The value lies in bin l: up to edge l and, but for the first bin, above edge l - 1.
abbrev pub InBin : (ℕ → ℕ) → ℕ → ℕ → Type 0
InBin edge a l = (l < 8) × (a ≤ edge l) × ((l ≡ 0) ⊎ (edge (l - 1) < a))

bin_from-InBin :
    (left l : ℕ) (edge : ℕ → ℕ) (a : ℕ)
    → 1 ≤ l
    → l + left ≡ 8
    → edge (l - 1) < a
    → a ≤ edge 7
    → (k : ℕ) × (bin_from left l edge a ≡ some k) × InBin edge a k
unfolding bin_from
bin_from-InBin zero l edge a low e above below =
    let seven : l - 1 ≡ 7 = omega arith in
    let last : edge (l - 1) ≡ edge 7 = ap edge seven in absurd (omega arith)
bin_from-InBin (suc left) l edge a low e above below = elim (Bool-cases (leb a (edge l))) [
  | inl t ↦
      let here : (ltb (edge (l - 1)) a && leb a (edge l)) ≡ true = ground arith in
      (l, rw here refl, (omega arith, ground arith, inr above))
  | inr t ↦
      let not_here : (ltb (edge (l - 1)) a && leb a (edge l)) ≡ false = ground arith in
      let next : edge (l + 1 - 1) ≡ edge l = ap edge (omega arith) in
      let (k, found, inside) =
        bin_from-InBin left (l + 1) edge a (omega arith) (omega arith) (ground arith) below in
      (k, rw not_here found, inside)
]

slew_bin-InBin :
    (edge : ℕ → ℕ) (a : ℕ) → a ≤ edge 7 → (l : ℕ) × (slew_bin edge a ≡ some l) × InBin edge a l
unfolding slew_bin
slew_bin-InBin edge a h = elim (Bool-cases (leb a (edge 0))) [
  | inl t ↦ (0, rw t refl, (omega arith, ground arith, inl refl))
  | inr t ↦
      let (k, found, inside) =
        bin_from-InBin 7 1 edge a (omega arith) (omega arith) (ground arith) h in
      (k, rw t found, inside)
]

last_edge : ℕ → ℕ → Bool
last_edge im ch = get_or (get_or qtslew_binedge_run16 (im * 16 + ch) []) 7 0 == 4095

last_table : all_below 8 (λ im. all_below 16 (last_edge im)) ≡ true
unfolding all_below last_edge qtslew_binedge_run16
last_table = refl

edge-init : (y im ch : ℕ) → 14 ≤ y → im < 8 → ch < 16 → (init y).slew_bin_edge im ch 7 ≡ 4095
unfolding init slewing last_edge
edge-init y im ch h hi hc =
    let late : leb 14 y ≡ true = ground arith in
    elim (Bool-cases (y == 16)) [
      | inl e ↦
          let checked = all_below_sound 16 _ ch (all_below_sound 8 _ im last_table hi) hc in
          rw (late, e) (ground (arith, checked))
      | inr e ↦ rw (late, e) refl
    ]

slewed-bin :
    (c : Config) (im ch a j l : ℕ)
    → slew_bin (c.slew_bin_edge im ch) a ≡ some l
    → slewed c im ch a j ≡ j + c.slew_corr im ch l
unfolding slewed
slewed-bin c im ch a j l e =
    ap (λ (o : Option ℕ). elim o as (λ _. ℕ) [ none ↦ j | some k ↦ j + c.slew_corr im ch k ]) e

-- From run year 14 on, every 12-bit ADC value of each of the 16 channels of the eight boards lies in
-- a slewing bin, and the TAC value is corrected by the entry of that bin.
pub slewed-init :
    (y im ch a j : ℕ)
    → 14 ≤ y
    → im < 8
    → ch < 16
    → a < 4096
    → (l : ℕ) × InBin ((init y).slew_bin_edge im ch) a l
      × (slewed (init y) im ch a j ≡ j + (init y).slew_corr im ch l)
slewed-init y im ch a j h hi hc ha =
    let (l, found, inside) =
      slew_bin-InBin ((init y).slew_bin_edge im ch) a (omega (arith, edge-init y im ch h hi hc)) in
    (l, inside, slewed-bin (init y) im ch a j l found)
