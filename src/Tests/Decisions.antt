-- ===== src/Tests/Decisions.antt =====
-- The decisions evaluated on the small event: one track has a high pt, and the two tracks with a tower
-- make a pair of electrons.
use star_hlt_tofmtd.Prelude.{◌≡◌, refl, true, false, length}
use star_hlt_tofmtd.Decider.Muons.{
  reads_bad_track, passes_muon, muon_list, muon_track, global_track, is_quarkonium, muon_pair,
  muon_vector,
}
use star_hlt_tofmtd.Decider.Upc.{enough_hits, is_pion}
use star_hlt_tofmtd.Decider.Gathered.{keep, pairs_of}
use star_hlt_tofmtd.Decider.Gathered.HighPt.{positions}
use star_hlt_tofmtd.Decider.Gathered.Pairs.{
  di_electron_electrons, di_electron_pairs, muon_pairs, pick_muons,
}
use star_hlt_tofmtd.Decider.Gathered.Rhos.{pions_of, pick_pion, tof_pion}
use star_hlt_tofmtd.Prelude.Int.{◌*ℤ◌, ◌+ℤ◌, ◌-ℤ◌, abs, div_trunc}
use star_hlt_tofmtd.Decider.Types.{number}
use star_hlt_tofmtd.Decider.Cuts.{trigger_bit, default_cuts, default_bit, electron_defaults}
use star_hlt_tofmtd.Decider.State.{set_word, count_call, settle, update, push, write, restart}
use star_hlt_tofmtd.Decider.Loops.{scan, for_pairs, with_later, collect, numbered}
use star_hlt_tofmtd.Decider.Match.{
  momentum, n_sigma_dedx, with_tof, match_primary_tracks, best_tower, try_towers, try_tower,
}
use star_hlt_tofmtd.Decider.Simple.{when_on}
use star_hlt_tofmtd.Decider.Tracks.{
  found, decide_high_pt, high_pt_body, high_pt_node, passes_high_pt, match_emc,
}
use star_hlt_tofmtd.Decider.Electrons.{
  strong_towers, no_electrons, add_electron, candidate, tof_step, emc_step, hull, inside,
  beta_near_one, energy_fits, selection, pair_kinematics, energy_of,
}
use star_hlt_tofmtd.Decider.DiElectron.{
  decide_di_electron, di_electron_body, electron_node, track_of, electron_pair, ordered_pair,
  same_charge, try_pair,
}
use star_hlt_tofmtd.Tests.Fixed.{fixed}
use star_hlt_tofmtd.Tests.Detector.{
  toy, cuts, event, start, origin, track, node, tower, muon_hit, three_nodes, two_muons,
}

high_pt_found : (decide_high_pt fixed toy cuts event start).0 ≡ true
unfolding decide_high_pt high_pt_body high_pt_node passes_high_pt with_tof match_primary_tracks
    match_emc best_tower try_towers try_tower numbered when_on set_word count_call settle update
    number trigger_bit fixed cuts event toy origin track node tower muon_hit default_cuts
    default_bit scan found push write restart ◌*ℤ◌ ◌+ℤ◌ ◌-ℤ◌ abs div_trunc
high_pt_found = refl

di_electron_found : (decide_di_electron fixed toy cuts event start).0 ≡ true
unfolding decide_di_electron di_electron_body electron_node candidate momentum n_sigma_dedx tof_step
    emc_step hull inside beta_near_one energy_fits selection with_tof match_primary_tracks
    best_tower try_towers try_tower numbered strong_towers collect no_electrons add_electron
    track_of electron_pair ordered_pair same_charge pair_kinematics energy_of try_pair for_pairs
    with_later electron_defaults when_on set_word count_call settle update number trigger_bit fixed
    cuts event toy origin track node tower muon_hit default_cuts default_bit scan found push write
    restart ◌*ℤ◌ ◌+ℤ◌ ◌-ℤ◌ abs div_trunc
di_electron_found = refl

-- The sizes of the lists that go to the banks.
pub high_pt_count : length (positions (passes_high_pt fixed toy cuts event) 0 three_nodes) ≡ 1
unfolding positions decide_di_electron di_electron_body electron_node candidate momentum
    n_sigma_dedx tof_step emc_step hull inside beta_near_one energy_fits selection with_tof
    match_primary_tracks best_tower try_towers try_tower numbered strong_towers collect no_electrons
    add_electron track_of electron_pair ordered_pair same_charge pair_kinematics energy_of try_pair
    for_pairs with_later electron_defaults when_on set_word count_call settle update number
    trigger_bit fixed cuts event toy origin track node tower muon_hit default_cuts default_bit scan
    found push write restart ◌*ℤ◌ ◌+ℤ◌ ◌-ℤ◌ abs div_trunc passes_high_pt
high_pt_count = refl

pub di_electron_count : length (di_electron_pairs fixed toy cuts event three_nodes) ≡ 1
unfolding keep pairs_of di_electron_electrons decide_di_electron di_electron_body electron_node
    candidate momentum n_sigma_dedx tof_step emc_step hull inside beta_near_one energy_fits
    selection with_tof match_primary_tracks best_tower try_towers try_tower numbered strong_towers
    collect no_electrons add_electron track_of electron_pair ordered_pair same_charge
    pair_kinematics energy_of try_pair for_pairs with_later electron_defaults when_on set_word
    count_call settle update number trigger_bit fixed cuts event toy origin track node tower
    muon_hit default_cuts default_bit scan found push write restart ◌*ℤ◌ ◌+ℤ◌ ◌-ℤ◌ abs div_trunc
di_electron_count = refl

pub muon_count : length (muon_pairs fixed toy cuts event three_nodes two_muons) ≡ 1
unfolding keep pairs_of pick_muons muon_list passes_muon muon_track global_track is_quarkonium
    muon_pair muon_vector decide_di_electron di_electron_body electron_node candidate momentum
    n_sigma_dedx tof_step emc_step hull inside beta_near_one energy_fits selection with_tof
    match_primary_tracks best_tower try_towers try_tower numbered strong_towers collect no_electrons
    add_electron track_of electron_pair ordered_pair same_charge pair_kinematics energy_of try_pair
    for_pairs with_later electron_defaults when_on set_word count_call settle update number
    trigger_bit fixed cuts event toy origin track node tower muon_hit default_cuts default_bit scan
    found push write restart ◌*ℤ◌ ◌+ℤ◌ ◌-ℤ◌ abs div_trunc
muon_count = refl

pub muon_tracks : reads_bad_track fixed toy cuts event three_nodes two_muons ≡ false
unfolding reads_bad_track passes_muon muon_track global_track decide_di_electron di_electron_body
    electron_node candidate momentum n_sigma_dedx tof_step emc_step hull inside beta_near_one
    energy_fits selection with_tof match_primary_tracks best_tower try_towers try_tower numbered
    strong_towers collect no_electrons add_electron track_of electron_pair ordered_pair same_charge
    pair_kinematics energy_of try_pair for_pairs with_later electron_defaults when_on set_word
    count_call settle update number trigger_bit fixed cuts event toy origin track node tower
    muon_hit default_cuts default_bit scan found push write restart ◌*ℤ◌ ◌+ℤ◌ ◌-ℤ◌ abs div_trunc
muon_tracks = refl

pub pion_count : length (pions_of fixed toy cuts event three_nodes) ≡ 2
unfolding keep pick_pion tof_pion enough_hits is_pion decide_di_electron di_electron_body
    electron_node candidate momentum n_sigma_dedx tof_step emc_step hull inside beta_near_one
    energy_fits selection with_tof match_primary_tracks best_tower try_towers try_tower numbered
    strong_towers collect no_electrons add_electron track_of electron_pair ordered_pair same_charge
    pair_kinematics energy_of try_pair for_pairs with_later electron_defaults when_on set_word
    count_call settle update number trigger_bit fixed cuts event toy origin track node tower
    muon_hit default_cuts default_bit scan found push write restart ◌*ℤ◌ ◌+ℤ◌ ◌-ℤ◌ abs div_trunc
pion_count = refl
