-- ===== src/Tests/Sectors.antt =====
-- The sectors of one direction and the mask of three fired sectors.
use star_hlt_tofmtd.Prelude.{◌||◌, ◌+◌, ◌^◌, ◌<◌, ◌≡◌, refl, List, [], ◌∷◌, arith, if◌then◌else◌}
use star_hlt_tofmtd.Prelude.Bits.{bit}
use star_hlt_tofmtd.Prelude.Int.{ℤ, pos}
use star_hlt_tofmtd.Mtd.Sectors.{tracking_mask}
use star_hlt_tofmtd.Mtd.Sectors.Mask.{contains, none_fired, bit-tracking_mask}

abbrev fired : List ℤ
fired = pos 3 ∷ pos 21 ∷ pos 3 ∷ []

bit-tracking_mask_example :
    (bit (tracking_mask fired) 20
      ≡ (if none_fired fired || contains (pos (20 + 1)) fired then 1 else 0))
    × (tracking_mask fired < 2 ^ 24)
bit-tracking_mask_example = bit-tracking_mask fired 20 (omega arith) (
  (omega arith, omega arith, refl),
  ((omega arith, omega arith, refl), ((omega arith, omega arith, refl), tt)),
)
