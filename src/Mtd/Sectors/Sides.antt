-- ===== src/Mtd/Sectors/Sides.antt =====
-- The sectors on the two sides of the TPC for a direction.
use star_hlt_tofmtd.Prelude.{
  ℕ, ◌+◌, ◌-◌, ◌%◌, ◌≤◌, ◌≡◌, refl, Bool, true, false, ◌&&◌, List, [], ◌∷◌, arith, ltb,
  if◌then◌else◌,
}
use star_hlt_tofmtd.Prelude.Int.{ℤ, pos, ◌+ℤ◌, ◌-ℤ◌, ◌==ℤ◌}
use star_hlt_tofmtd.Prelude.Finite.{all_below, all_below_sound}
use star_hlt_tofmtd.Mtd.Sectors.{west_sectors, east_sectors}

is_pair : List ℤ → ℕ → ℕ → Bool
is_pair (a ∷ b ∷ []) x y = a ==ℤ pos x && b ==ℤ pos y
is_pair _ x y = false

is_pair_sound : (zs : List ℤ) (x y : ℕ) → is_pair zs x y ≡ true → zs ≡ pos x ∷ pos y ∷ []
unfolding is_pair
is_pair_sound (a ∷ b ∷ []) x y e = ground arith
is_pair_sound (a ∷ b ∷ c ∷ zs) x y e = cc
is_pair_sound [] x y e = cc
is_pair_sound (a ∷ []) x y e = cc

abbrev west_at : ℕ → ℕ
west_at k = if ltb k 3 then 3 - k else 15 - k

abbrev east_at : ℕ → ℕ
east_at k = if ltb k 4 then k + 21 else k + 9

west_table : all_below 13 (λ k. is_pair (west_sectors (pos k)) (west_at k) (west_at (k + 1))) ≡ true
unfolding all_below is_pair west_sectors ◌+ℤ◌ ◌-ℤ◌
west_table = refl

east_table : all_below 13 (λ k. is_pair (east_sectors (pos k)) (east_at k) (east_at (k + 1))) ≡ true
unfolding all_below is_pair east_sectors ◌+ℤ◌ ◌-ℤ◌
east_table = refl

-- For a direction in one of the twelve bins of the circle, or on its end: two neighbouring sectors
-- from 1 to 12 on the west side, whose numbers fall, and on the east side two neighbouring ones from
-- 13 to 24, whose numbers rise. The sectors that face each other add up to a multiple of 12.
pub opposite_sectors :
    (k : ℕ)
    → k ≤ 12
    → (w1 w2 e1 e2 : ℕ) × (west_sectors (pos k) ≡ pos w1 ∷ pos w2 ∷ [])
      × (east_sectors (pos k) ≡ pos e1 ∷ pos e2 ∷ [])
      × (1 ≤ w1)
      × (w1 ≤ 12)
      × (1 ≤ w2)
      × (w2 ≤ 12)
      × (13 ≤ e1)
      × (e1 ≤ 24)
      × (13 ≤ e2)
      × (e2 ≤ 24)
      × (w1 % 12 ≡ (w2 + 1) % 12)
      × (e2 % 12 ≡ (e1 + 1) % 12)
      × ((w1 + e1) % 12 ≡ 0)
      × ((w2 + e2) % 12 ≡ 0)
opposite_sectors k h = (
  west_at k,
  west_at (k + 1),
  east_at k,
  east_at (k + 1),
  is_pair_sound _ _ _ (all_below_sound 13 _ k west_table (omega arith)),
  is_pair_sound _ _ _ (all_below_sound 13 _ k east_table (omega arith)),
  ground arith,
  ground arith,
  ground arith,
  ground arith,
  ground arith,
  ground arith,
  ground arith,
  ground arith,
  ground arith,
  ground arith,
  ground arith,
  ground arith,
)
