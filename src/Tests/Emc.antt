-- ===== src/Tests/Emc.antt =====
-- A calorimeter of two towers, with the front ends of one event.
use star_hlt_tofmtd.Prelude.{
  ℕ, ◌-◌, ◌≡◌, refl, true, List, [], ◌∷◌, some, arith, length, ltb, keep, take,
}
use star_hlt_tofmtd.Prelude.Int.{ℤ, pos}
use star_hlt_tofmtd.Emc.Types.{
  TowerInfo, EmcCalibration, EmcTower, Emc, tower_info, daq_to_id, tower_of_id, entry, reset,
  set_adc, set_tower_info,
}
use star_hlt_tofmtd.Emc.Read.{read_raw_btowers, above_half, crate_number, bad_crate, read_barrel}
use star_hlt_tofmtd.Emc.Read.Kept.{
  IsComplete, fee_readings, readings, entries, energetic, read_raw_btowers-kept,
}
use star_hlt_tofmtd.Emc.Read.Constructed.{IdMap, read_barrel-reset}
use star_hlt_tofmtd.Prelude.{map, replicate, ◌++◌}
use mathlib.Core.Option
use star_hlt_tofmtd.Prelude.Int.{abs}
use star_hlt_tofmtd.Prelude.Finite.{all_below, all_below_sound}
use star_hlt_tofmtd.Emc.Seeds.{
  Seed, get_tracking_seeds, seed_towers, seed_sectors, seed_sector, add_seed, seed_of, is_near,
  turn_back, sector_phi, on_side,
}
use star_hlt_tofmtd.Emc.Seeds.Filled.{Ends, returns, sector_seeds, get_tracking_seeds-first}
use star_hlt_tofmtd.Tests.Fixed.{fixed}

abbrev info : TowerInfo fixed
unfolding fixed
info = record {
  phi = pos 0;
  eta = pos 0;
  eta_min = pos 0;
  eta_max = pos 0;
  z = pos 0;
  z_min = pos 0;
  z_max = pos 0;
  pedestal = pos 0;
  gain = pos 1000000;
  soft_id = pos 1;
  daq_id = pos 0;
  crate = pos 1;
  crate_seq = pos 0;
  phi_eta = pos 0;
}

-- All places of the crates lead to the first tower.
abbrev calibration : EmcCalibration fixed
calibration = record {
  n_towers = 2;
  tower = λ i. info;
  daq2id = λ i. pos 1;
  crate_to_daq_id = λ c j. pos 0;
}

calibration-IsComplete : IsComplete fixed calibration (λ c j. info)
unfolding tower_info daq_to_id tower_of_id entry
calibration-IsComplete c j lo hi jh =
    let row : ltb 0 c ≡ true = ground arith in
    let crate : ltb (c - 1) 30 ≡ true = ground arith in
    let seq : ltb j 160 ≡ true = ground arith in rw row (rw crate (rw seq refl))

abbrev cold : EmcTower fixed
unfolding fixed
cold = record { adc = pos 0; energy = pos 0; info = info }

abbrev emc : Emc fixed
unfolding fixed
emc = record {
  tower = cold ∷ cold ∷ cold ∷ [];
  n_barrel_towers = 2;
  n_endcap_towers = 0;
  err_flags = 0;
  e_total = pos 0;
  e_barrel = pos 0;
  e_endcap = pos 0;
  min_energy_for_tracking_seed = pos 500000;
}

-- One front end with two values, one with the bad crate 31.
abbrev fees : List (ℕ × List ℤ)
fees = (1025, pos 0 ∷ pos 7 ∷ []) ∷ (31, pos 5 ∷ []) ∷ []

read_raw_btowers-kept_example :
    (t : Emc fixed) × (read_raw_btowers fixed calibration fees emc ≡ some t)
    × (take t.n_barrel_towers t.tower
        ≡ keep (energetic fixed) (fee_readings fixed calibration (λ c j. info) fees))
    × (length t.tower ≡ length emc.tower)
unfolding entries emc
read_raw_btowers-kept_example =
    read_raw_btowers-kept fixed calibration (λ c j. info) calibration-IsComplete fees emc
      (omega arith, (omega arith, tt)) (omega arith)

one_kept : length (keep (energetic fixed) (fee_readings fixed calibration (λ c j. info) fees)) ≡ 1
unfolding fixed fee_readings readings above_half set_adc set_tower_info crate_number bad_crate
one_kept = refl

calibration-IdMap : IdMap fixed calibration
calibration-IdMap i h = (1, refl)

read_barrel-reset_example :
    read_barrel fixed calibration (pos 9 ∷ pos 8 ∷ []) (reset fixed emc) ≡ some (reset fixed emc)
read_barrel-reset_example =
    read_barrel-reset fixed calibration calibration-IdMap (pos 9 ∷ pos 8 ∷ []) emc (omega arith)

unfoldable fabs_fixed : fixed.Double → fixed.Double
unfolding fixed
fabs_fixed = abs

abbrev hot : EmcTower fixed
unfolding fixed
hot = record cold { energy = pos 2000000 }

abbrev hot_emc : Emc fixed
hot_emc = record emc { tower = hot ∷ hot ∷ cold ∷ []; n_barrel_towers = 3 }

-- Three turns are enough for phi 0.
hot-returns : all_below 24 (λ j. returns (is_near fixed fabs_fixed 3 info.phi j)) ≡ true
unfolding fixed is_near turn_back sector_phi all_below abs fabs_fixed info
hot-returns = refl

hot-Ends : Ends fixed fabs_fixed 3 hot
unfolding hot info
hot-Ends j h =
    all_below_sound 24 (λ j. returns (is_near fixed fabs_fixed 3 info.phi j)) j hot-returns h

get_tracking_seeds-first_example :
    get_tracking_seeds fixed fabs_fixed 3 hot_emc
    ≡ some (
        sector_seeds fixed fabs_fixed 3 hot_emc.min_energy_for_tracking_seed
          (take hot_emc.n_barrel_towers hot_emc.tower)
          0
          24)
unfolding cold hot
get_tracking_seeds-first_example =
    get_tracking_seeds-first fixed fabs_fixed 3 hot_emc (hot-Ends, (hot-Ends, (hot-Ends, tt)))

-- Two seeds for the two sectors about phi 0, and none for the others.
two_seeds :
    Option.map
      (λ (ss : List (List (Seed fixed fabs_fixed))). map length ss)
      (get_tracking_seeds fixed fabs_fixed 3 hot_emc)
    ≡ some (0 ∷ 0 ∷ 2 ∷ replicate 17 0 ++ (2 ∷ 0 ∷ 0 ∷ 0 ∷ []))
unfolding fixed abs fabs_fixed info hot cold emc get_tracking_seeds seed_towers seed_sectors
    seed_sector add_seed seed_of is_near turn_back sector_phi on_side
two_seeds = refl
