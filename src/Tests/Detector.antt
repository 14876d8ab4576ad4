-- ===== src/Tests/Detector.antt =====
-- A small event for the trigger decisions, and a detector to decide it with.
use star_hlt_tofmtd.Prelude.{ℕ, true, false, List, [], ◌∷◌, Option, some, none}
use star_hlt_tofmtd.Prelude.Int.{ℤ, pos, ◌+ℤ◌, abs}
use star_hlt_tofmtd.Mtd.Hits.{MtdHit}
use star_hlt_tofmtd.Decider.Types.{Track, Tower, Node, Coordinate, Event, Parts}
use star_hlt_tofmtd.Decider.Cuts.{Cuts, default_cuts}
use star_hlt_tofmtd.Decider.State.{Decider, Bank, HighTower}
use star_hlt_tofmtd.Tests.Fixed.{fixed}

abbrev pub one : ℤ
one = pos 1000000

-- A detector in which every track meets every tower and one cell of the TOF, at the speed of light.
unfoldable pub toy : Parts fixed
unfolding fixed ◌+ℤ◌ abs
toy = record {
  sqrt = λ a. a;
  sqrt_float = λ a. a;
  pow = λ a n. a;
  cos = λ a. one;
  sin = λ a. pos 0;
  log = λ a. pos 0;
  atan2 = λ a b. a;
  fabs = abs;
  Lorentz = ℤ;
  xyzm = λ x y z m. x;
  plus = λ a b. a +ℤ b;
  m_of = λ a. a;
  pt_of = λ a. a;
  eta_of = λ a. a;
  phi_of = λ a. a;
  match_track = λ tw t phi z. some (pos 0, pos 0);
  dedx_mean = λ p particle. one;
  update_to_closest_approach = λ x y t. t;
  proj_tray_module_cell = λ t. some record {
    cell = 3;
    cell_tof = one;
    corr_z = pos 0;
    local_y = pos 0;
    local_z = pos 0;
    channel = pos 0;
    path_length = pos 29979245;
  };
  t0 = pos 0;
}

unfoldable pub track : ℕ → ℕ → Track fixed
unfolding fixed
track pt psi = record {
  n_hits = pos 30;
  n_dedx = pos 20;
  q = pos 1;
  dedx = one;
  pt = pos pt;
  phi0 = pos 0;
  psi = pos psi;
  r0 = pos 0;
  tanl = pos 0;
  z0 = pos 0;
  eta = pos 0;
  dca = pos 0;
}

unfoldable pub node : Track fixed → Option (Track fixed) → Node fixed
unfolding fixed
node global primary = record {
  global_track = global;
  primary_track = primary;
  emc_tower = none;
  emc_match_phi_diff = pos 0;
  emc_match_z_edge = pos 0;
  globaltof_cell = none;
  primarytof_cell = none;
  tof = pos 0;
  beta = pos 0;
  tof_local_y = pos 0;
  tof_local_z = pos 0;
  pathlength = pos 0;
  tof_project_channel = pos 0;
}

abbrev pub soft : Track fixed
soft = track 300000 0

abbrev pub hard : Track fixed
hard = track 6000000 3140000

abbrev pub three_nodes : List (Node fixed)
three_nodes = node soft none ∷ node hard (some hard) ∷ node soft (some (track 3000000 0)) ∷ []

unfoldable pub origin : Coordinate fixed
unfolding fixed
origin = record { getx = pos 0; gety = pos 0; getz = pos 0 }

unfoldable pub muon_hit : ℕ → MtdHit fixed
unfolding fixed
muon_hit k = record {
  fiber_id = 0;
  backleg = 1;
  tray = 1;
  channel = 0;
  leading_edge_time = (pos 0, pos 0);
  trailing_edge_time = (pos 0, pos 0);
  hlt_track_id = pos k;
  delta_z = pos 0;
  delta_y = pos 0;
  is_trigger = true;
}

abbrev pub two_muons : List (MtdHit fixed)
two_muons = muon_hit 1 ∷ muon_hit 1 ∷ []

unfoldable pub tower : ℕ → Tower fixed
unfolding fixed
tower e = record { adc = pos 320; energy = pos e; soft_id = pos 7 }

unfoldable pub event : Event fixed
unfolding fixed
event = record {
  n_primary_tracks = pos 2;
  vertex = origin;
  lm_vertex = origin;
  barrel_towers = tower 600000 ∷ tower 5000000 ∷ tower 900000 ∷ [];
  mtd = some (some two_muons);
  use_beamline_to_make_primarys = false;
  beamline_x = pos 0;
  beamline_y = pos 0;
  random = 994;
}

abbrev pub no_bank : {A : Type 0} → Bank A
no_bank = record { count = 0; writes = []; overrun = false }

unfoldable pub no_tower : HighTower fixed
unfolding fixed
no_tower = record {
  p0 = pos 0;
  e_over_p0 = pos 0;
  tower_adc = pos 0;
  tower_soft_id = pos 0;
  max_adc = pos 0;
  r = pos 0;
  phi = pos 0;
  z = pos 0;
  eta = pos 0;
  pt = pos 0;
  psi = pos 0;
  fired = false;
}

-- All words 0 and all banks empty, with the tracks of the event.
abbrev pub start : Decider fixed
start = record {
  nodes = three_nodes;
  triggered = λ t. 0;
  hlt_decision = 0;
  num_of_called = λ t. 0;
  num_of_succeed = λ t. 0;
  hlt_hi_pt = no_bank;
  hlt_di_ep = no_bank;
  hlt_upc_di_ep = no_bank;
  hlt_di_ep2_twr = no_bank;
  hlt_h_f = no_bank;
  hlt_upc_rho = no_bank;
  hlt_mtd_qkn = no_bank;
  hlt_h_t2 = no_tower;
  hlt_h_t2_pairs = no_bank;
  hlt_lm = pos 0;
  fault = false;
}

unfoldable pub cuts : Cuts fixed
unfolding default_cuts fixed
cuts = let c = default_cuts fixed in record c { sigma_dedx1 = one }
