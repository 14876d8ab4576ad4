-- ===== src/Mtd/Sectors.antt =====
-- Which TPC sectors to track for the hits that fired the trigger: getTpcSectorMask,
-- findTpcSectorsForTracking, findWestTpcSectors, findEastTpcSectors, determineTpcTrackingMask,
-- getMtdHitGlobalPhi and rotatePhi of HLT_MTD/mtd_hlt_reader.cxx.
-- The two loops of rotatePhi run on fuel; `none` means that it ran out.
use Prim.Native.Nat.{bit_or}
use star_hlt_tofmtd.Prelude.{
  ℕ, zero, suc, ◌+◌, ◌-◌, ◌^◌, Bool, true, false, ◌&&◌, List, [], ◌∷◌, ◌++◌, Option, none, some,
  ltb, leb, ◌==◌, if◌then◌else◌,
}
use star_hlt_tofmtd.Prelude.Int.{ℤ, pos, negsuc, pos_part, ◌+ℤ◌, ◌-ℤ◌, ltb_ℤ, ◌==ℤ◌}
use star_hlt_tofmtd.Floats.{Arith, Floats}
use star_hlt_tofmtd.Mtd.Hits.{MtdHit, ◌>>=◌}
pub mod Mask
pub mod Sides

-- Sectors 1 to 12, from k = floor(phi / 30 degrees).
unfoldable pub west_sectors : ℤ → List ℤ
west_sectors k =
    let first = pos 3 -ℤ k in
    let sector1 = if ltb_ℤ first (pos 1) then first +ℤ pos 12 else first in
    let second = sector1 -ℤ pos 1 in
    let sector2 = if ltb_ℤ second (pos 1) then second +ℤ pos 12 else second in
    sector1 ∷ sector2 ∷ []

-- Sectors 13 to 24.
unfoldable pub east_sectors : ℤ → List ℤ
east_sectors k =
    let first = k +ℤ pos 21 in
    let sector1 = if ltb_ℤ (pos 24) first then first -ℤ pos 12 else first in
    let second = sector1 +ℤ pos 1 in
    let sector2 = if ltb_ℤ (pos 24) second then second -ℤ pos 12 else second in
    sector1 ∷ sector2 ∷ []

-- findTpcSectorsForTracking: what a hit in a module appends to mFiredSectors.
unfoldable pub sectors_for_tracking : ℤ → ℕ → List ℤ
sectors_for_tracking k hit_module =
    (if ltb hit_module 5 then east_sectors k else [])
    ++ (if ltb 1 hit_module then west_sectors k else [])

-- std::sort
insert_sorted : ℤ → List ℤ → List ℤ
insert_sorted x [] = x ∷ []
insert_sorted x (y ∷ ys) = if ltb_ℤ y x then y ∷ insert_sorted x ys else x ∷ y ∷ ys

unfoldable pub sort : List ℤ → List ℤ
unfolding insert_sorted
sort [] = []
sort (x ∷ xs) = insert_sorted x (sort xs)

-- erase(unique(…)): drops an item equal to the one before it.
drop_repeats : ℤ → List ℤ → List ℤ
drop_repeats x [] = x ∷ []
drop_repeats x (y ∷ ys) = if x ==ℤ y then drop_repeats x ys else x ∷ drop_repeats y ys

unfoldable pub unique : List ℤ → List ℤ
unfolding drop_repeats
unique [] = []
unique (x ∷ xs) = drop_repeats x xs

-- mask |= 1U << (sector - 1), for each sector.
unfoldable pub set_bits : ℕ → List ℤ → ℕ
set_bits mask [] = mask
set_bits mask (s ∷ ss) = set_bits (bit_or mask (2 ^ pos_part (s -ℤ pos 1))) ss

mask_from : List ℤ → ℕ
unfolding set_bits
mask_from [] = 0xffffff
mask_from (s ∷ ss) = set_bits 0 (s ∷ ss)

-- determineTpcTrackingMask: all 24 sectors if none fired.
unfoldable pub tracking_mask : List ℤ → ℕ
unfolding sort unique mask_from
tracking_mask fired = mask_from (unique (sort fired))

module _ (fl : Floats) where
  open fl use {Double, double}

  -- MTD_PI and 2*MTD_PI
  abbrev pub mtd_pi : Double
  mtd_pi = double.decimal (pos 31415926) 7

  abbrev pub two_pi : Double
  two_pi = double.mul (double.of_int (pos 2)) mtd_pi

  unfoldable pub turn_up : ℕ → Double → Option Double
  turn_up zero phi = none
  turn_up (suc fuel) phi =
      let rest = turn_up fuel (double.add phi two_pi) in
      if double.lt phi (double.of_int (pos 0)) then rest else some phi

  unfoldable pub turn_down : ℕ → Double → Option Double
  turn_down zero phi = none
  turn_down (suc fuel) phi =
      let rest = turn_down fuel (double.sub phi two_pi) in
      if double.lt two_pi phi then rest else some phi

  unfoldable pub rotate_phi : ℕ → Double → Option Double
  unfolding turn_up turn_down
  rotate_phi fuel phi = turn_up fuel phi >>= turn_down fuel

  -- x * MTD_PI / 180., for an integer x.
  abbrev degrees : ℕ → Double
  degrees x = double.div (double.mul (double.of_int (pos x)) mtd_pi) (double.of_int (pos 180))

  backleg_phi : ℕ → Double
  backleg_phi backleg =
      let phi =
        double.add (degrees 90) (
          double.mul (double.of_int (pos backleg -ℤ pos 1)) (double.add (degrees 8) (degrees 4))) in
      if double.lt two_pi phi then double.sub phi two_pi else phi

  -- (MTD_NCHANNEL/4.-0.5-cell)*(MTD_CELLWIDTH+MTD_CELLGAP)/MTD_MINRADIUS
  strip_offset : ℕ → Double
  strip_offset cell =
      double.div
        (double.mul
          (double.sub
            (double.sub (double.div (double.of_int (pos 24)) (double.of_int (pos 4)))
              (double.decimal (pos 5) 1))
            (double.of_int (pos cell)))
          (double.add (double.decimal (pos 38) 1) (double.decimal (pos 6) 1)))
        (double.decimal (pos 392802) 3)

  unfoldable pub mtd_hit_global_phi : ℕ → ℕ → ℕ → ℕ → Option Double
  unfolding backleg_phi strip_offset
  mtd_hit_global_phi fuel backleg module' cell = rotate_phi fuel (
      if ltb 0 module' && ltb module' 4
      then double.sub (backleg_phi backleg) (strip_offset cell)
      else double.add (backleg_phi backleg) (strip_offset cell))

  -- int(floor(hit_phi/tpc_sector_width))
  unfoldable pub phi_bin : Double → ℤ
  phi_bin phi = double.floor (double.div phi (double.div mtd_pi (double.of_int (pos 6))))

  -- What the loop of getTpcSectorMask collects from the hits.
  unfoldable pub fired_sectors : ℕ → List (MtdHit fl) → Option (List ℤ)
  fired_sectors fuel [] = some []
  fired_sectors fuel (h ∷ hs) =
      let rest = fired_sectors fuel hs in
      if h.is_trigger
      then (mtd_hit_global_phi fuel h.backleg h.tray h.channel >>= λ phi.
          rest >>= λ ss. some (sectors_for_tracking (phi_bin phi) h.tray ++ ss))
      else rest

  unfoldable pub tpc_sector_mask : ℕ → List (MtdHit fl) → Option ℕ
  unfolding fired_sectors tracking_mask
  tpc_sector_mask fuel hs = fired_sectors fuel hs >>= λ ss. some (tracking_mask ss)
