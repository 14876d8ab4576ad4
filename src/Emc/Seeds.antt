-- ===== src/Emc/Seeds.antt =====
-- gl3EMC::getTrackingSeeds (L4_HLT/gl3EMC.cxx): for each of the 24 sectors of the TPC the towers that a
-- track of the sector may point to. What an array holds beyond its number of seeds is not modelled.
use star_hlt_tofmtd.Prelude.{
  ℕ, zero, suc, ◌+◌, ◌*◌, Bool, true, false, ◌&&◌, ◌||◌, Option, none, some, List, [], ◌∷◌, ◌++◌,
  ltb, length, take, get_or, replicate, if◌then◌else◌,
}
use star_hlt_tofmtd.Prelude.Int.{ℤ, pos, negsuc}
use star_hlt_tofmtd.Floats.{Floats}
use star_hlt_tofmtd.Mtd.Hits.{◌>>=◌}
use star_hlt_tofmtd.Emc.Types.{EmcTower, Emc}
pub mod Filled

-- The numerators of sectorPhi, in sixths of pi.
abbrev pub sixths : List ℕ
sixths =
    2 ∷ 1 ∷ 0 ∷ 11 ∷ 10 ∷ 9 ∷ 8 ∷ 7 ∷ 6 ∷ 5 ∷ 4 ∷ 3 ∷ 4 ∷ 5 ∷ 6 ∷ 7 ∷ 8 ∷ 9 ∷ 10 ∷ 11 ∷ 0 ∷ 1 ∷ 2
    ∷ 3 ∷ []

-- The room of trackingSeeds for one sector.
abbrev pub max_seeds : ℕ
max_seeds = 200

module _ (fl : Floats) (fabs : fl.Double → fl.Double) where
  open fl use {Double, Float, double, float, to_float, to_double}

  -- One entry of trackingSeeds: the two layers, the radius, phi and z.
  pub record Seed : Type 0 where
    pub begin_layer : Float
    pub end_layer : Float
    pub r : Float
    pub phi : Float
    pub z : Float

  abbrev pi : Double
  pi = double.decimal (pos 31415927) 7

  abbrev whole : ℕ → Double
  whole n = double.of_int (pos n)

  unfoldable pub sector_phi : ℕ → Double
  sector_phi j = double.div (double.mul (whole (get_or sixths j 0)) pi) (whole 6)

  -- (j<12 && z>-zEdge) || (j>=12 && z<zEdge)
  unfoldable pub on_side : ℕ → Float → Bool
  on_side j z =
      if ltb j 12
      then double.lt (double.of_int (negsuc 19)) (to_double z)
      else double.lt (to_double z) (whole 20)

  -- while(phiDiff > pi) phiDiff -= 2*pi
  unfoldable pub turn_back : ℕ → Float → Option Float
  turn_back zero d = none
  turn_back (suc fuel) d =
      let rest = turn_back fuel (to_float (double.sub (to_double d) (double.mul (whole 2) pi))) in
      if double.lt pi (to_double d) then rest else some d

  -- phiDiff is not above maxPhiDiff.
  unfoldable pub is_near : ℕ → Float → ℕ → Option Bool
  unfolding turn_back
  is_near fuel phi j =
      let start = to_float (fabs (double.sub (to_double phi) (sector_phi j))) in
      let max_phi_diff = double.add (double.div pi (whole 12)) (double.decimal (pos 1) 1) in
      turn_back fuel start >>= λ d.
      let phi_diff = to_float (fabs (to_double d)) in
      some (if double.lt max_phi_diff (to_double phi_diff) then false else true)

  unfoldable pub seed_of : EmcTower fl → Seed
  seed_of t = record {
    begin_layer = float.of_int (pos 45);
    end_layer = float.of_int (pos 26);
    r = to_float (double.decimal (pos 225405) 3);
    phi = t.info.phi;
    z = t.info.z;
  }

  -- The seed goes to the array of the sector, unless that is full.
  unfoldable pub add_seed : EmcTower fl → List Seed → List Seed
  add_seed t seeds = if ltb (length seeds) max_seeds then seeds ++ (seed_of t ∷ []) else seeds

  -- The body of the inner loop.
  unfoldable pub seed_sector : ℕ → EmcTower fl → ℕ → List Seed → Option (List Seed)
  unfolding add_seed on_side
  seed_sector fuel t j seeds =
      if on_side j t.info.z
      then (is_near fuel t.info.phi j >>= λ near. some (if near then add_seed t seeds else seeds))
      else some seeds

  -- for(int j=0; j<24; j++)
  unfoldable pub seed_sectors : ℕ → EmcTower fl → ℕ → List (List Seed) → Option (List (List Seed))
  unfolding seed_sector
  seed_sectors fuel t j [] = some []
  seed_sectors fuel t j (seeds ∷ rest) = seed_sector fuel t j seeds >>= λ new.
      seed_sectors fuel t (suc j) rest >>= λ news. some (new ∷ news)

  -- for(int i=0; i<nBarrelTowers; i++)
  unfoldable pub seed_towers :
      ℕ → Float → List (EmcTower fl) → List (List Seed) → Option (List (List Seed))
  unfolding seed_sectors
  seed_towers fuel min [] all = some all
  seed_towers fuel min (t ∷ ts) all =
      let skip = seed_towers fuel min ts all in
      if float.lt t.energy min
      then skip
      else (seed_sectors fuel t 0 all >>= λ next. seed_towers fuel min ts next)

  -- The seeds of the sectors; `fuel` bounds the turns of the inner while.
  unfoldable pub get_tracking_seeds : ℕ → Emc fl → Option (List (List Seed))
  unfolding seed_towers
  get_tracking_seeds fuel s =
      seed_towers fuel s.min_energy_for_tracking_seed (take s.n_barrel_towers s.tower)
        (replicate 24 [])
