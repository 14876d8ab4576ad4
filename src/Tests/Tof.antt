-- ===== src/Tests/Tof.antt =====
-- Hits of a time-of-flight tray.
use star_hlt_tofmtd.Prelude.{
  ◌<◌, ◌==◌, ◌||◌, ◌&&◌, ℕ, ◌*◌, ◌%◌, ◌^◌, ◌≡◌, refl, true, false, List, [], ◌∷◌, some, none, arith,
  All,
}
use star_hlt_tofmtd.Prelude.Int.{ℤ, pos, negsuc}
use star_hlt_tofmtd.Tof.Types.{Calibration, TofRawHit, TofCell}
use mathlib.Core.Bool.{not}
use star_hlt_tofmtd.Prelude.Bits.{field}
use star_hlt_tofmtd.Tof.Rdo.{Geo, Scan, next_chan, time_in_bin, inl_of, read_tdc}
use star_hlt_tofmtd.Tof.Rdo.Range.{IsCalibration, goes_on, inl_of-some, read_tdc-goes_on}
use star_hlt_tofmtd.Tof.Pairs.{
  groups, time_outside, wrap_up, vpd_cell, tray_cell, pair_cell, leads_cells, group_cells,
}
use star_hlt_tofmtd.Tof.Pairs.Groups.{IsGroup, groups-IsGroup}
use star_hlt_tofmtd.Tests.Fixed.{fixed}

abbrev flat : Calibration fixed
unfolding fixed
flat = record {
  tdig_on_tray = λ i j. pos 7;
  tdig_on_west_vpd = λ j. pos 8;
  tdig_on_east_vpd = λ j. pos 9;
  board_id_2_index = λ i. pos 3;
  inl_corr = λ i j k. negsuc 4;
  upvpd_le_chan = λ i. pos 142;
  upvpd_te_chan = λ i. pos 129;
  vpd_delay = λ i. pos 0;
  cutlow = λ i. pos 0;
  cuthi = λ i. pos 900000000;
  tdig_2_mrpc_chan = λ i. pos i;
}

abbrev hit : ℕ → ℕ → ℕ → TofRawHit fixed
unfolding fixed
hit tray chan tdc = record {
  fiberid = 0;
  trayid = tray;
  globaltdcchan = chan;
  tdc = pos (tdc * 1000000);
  triggertime = pos 0;
}

abbrev leads : List (TofRawHit fixed)
leads = hit 5 10 100 ∷ hit 5 11 300 ∷ []

abbrev trails : List (TofRawHit fixed)
trails = hit 4 10 110 ∷ hit 5 10 120 ∷ []

groups-IsGroup_example :
    (gs : List (List (TofRawHit fixed) × List (TofRawHit fixed))) × (groups fixed 5 leads trails
      ≡ some gs)
    × All (IsGroup fixed) gs
groups-IsGroup_example = groups-IsGroup fixed 5 leads trails (omega arith)

one_cell : List (TofCell fixed)
unfolding fixed
one_cell =
    record {
      trayid = 4;
      channel = pos 10;
      triggertime = pos 0;
      tdc = pos 100000000;
      tot = pos 20000000;
      tof = negsuc 9998999999;
    }
    ∷ []

one_cell-made : group_cells fixed flat 3 leads (hit 5 10 120 ∷ []) ≡ some one_cell
unfolding fixed one_cell group_cells leads_cells pair_cell wrap_up tray_cell vpd_cell time_outside
one_cell-made = refl

flat-IsCalibration : IsCalibration fixed flat
unfolding flat
flat-IsCalibration = record {
  tray_board = λ i j. (refl, omega arith);
  west_board = λ j. (refl, omega arith);
  east_board = λ j. (refl, omega arith);
  board_index = λ i. (refl, omega arith);
}

-- Chip 5, channel 2 of the second half of a tray.
abbrev word : ℕ
word = 0x45400123

inl_of-some_example :
    let chan = next_chan true 0 93 1 word in
    (chan < 192)
    × ((corr : ℤ) × (inl_of fixed true flat 93 chan (time_in_bin word % 2 ^ 10) ≡ some corr))
inl_of-some_example =
    inl_of-some fixed true flat 93 1 0 word flat-IsCalibration (omega arith) (omega arith)
      (omega arith) (omega arith) (omega arith)

abbrev scan : Scan fixed
unfolding fixed
scan = record { triggertime = pos 0; geo = none; chan = 0; leading = []; trailing = [] }

abbrev tray_124 : Geo
tray_124 = record { half = 1; tray = 124 }

read_tdc-goes_on_example :
    goes_on fixed (read_tdc fixed false flat 1 scan (some tray_124) word)
    ≡ not (124 == 124 || 1 == 1 && field word 24 4 == 15)
read_tdc-goes_on_example =
    read_tdc-goes_on fixed flat 1 word scan tray_124 flat-IsCalibration refl (omega arith) refl
