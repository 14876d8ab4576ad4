-- ===== src/Decider/Cuts.antt =====
-- The parameters of the triggers, members of gl3TriggerDecider (L4_HLT/gl3TriggerDecider.h), with the
-- type, `double` or `float`, of each, and the values that setTriggers gives them.
-- setTriggers then reads the file HLTparameters over them, which may change any of them, the bits and the
-- switches included: the text of the file is not modelled, and every decision takes a `Cuts`.
use star_hlt_tofmtd.Prelude.{ℕ, Bool, true, false}
use star_hlt_tofmtd.Prelude.Int.{ℤ, pos, negsuc}
use star_hlt_tofmtd.Floats.{Floats}
use star_hlt_tofmtd.Decider.Types.{
  Trigger, high_pt, di_electron, heavy_fragment, all_events, random_events, bes_good_events,
  matched_ht2, low_mult, upc_di_electron, upc_pair, mtd_di_muon, mtd_quarkonium, fixed_target,
  fixed_target_monitor, bes_monitor, hlt_good2, di_electron2_twr,
}

-- The values that setTriggers gives the members triggerBitX; two triggers have no such member.
unfoldable pub default_bit : Trigger → ℕ
default_bit high_pt = 0x00010000
default_bit di_electron = 0x00020000
default_bit heavy_fragment = 0x00040000
default_bit all_events = 0x00080000
default_bit random_events = 0x00100000
default_bit bes_good_events = 0x00200000
default_bit matched_ht2 = 0x00800000
default_bit low_mult = 0x01000000
default_bit upc_di_electron = 0x02000000
default_bit upc_pair = 0x04000000
default_bit mtd_di_muon = 0x08000000
default_bit mtd_quarkonium = 0x00400000
default_bit fixed_target = 0x10000000
default_bit fixed_target_monitor = 0x20000000
default_bit bes_monitor = 0x40000000
default_bit hlt_good2 = 0x80000000
default_bit di_electron2_twr = 0x00000001
default_bit _ = 0

module _ (fl : Floats) where
  open fl use {Double, Float, double, float}

  -- The limits on nSigmaDedx and on the momentum of one way to identify an electron.
  pub record Window : Type 0 where
    pub n_sigma_low : Double
    pub n_sigma_high : Double
    pub p_low : Double
    pub p_high : Double

  -- The parameters of diElectron, and, in members of their own, of UPCdiElectron.
  pub record ElectronCuts : Type 0 where
    pub n_hits : ℤ
    pub n_dedx : ℤ
    pub tower_energy : Double
    pub for_tof : Window
    pub for_emc : Window
    pub for_tof_and_emc : Window
    pub p1 : Double
    pub p2 : Double
    pub p_over_e_low : Double
    pub p_over_e_high : Double
    pub mass_low : Double
    pub mass_high : Double
    pub vertex_z_diff : Double
    pub one_over_beta : Double
    pub only_opp_pairs : Bool

  pub record TwoTowerCuts : Type 0 where
    pub n_hits : Float
    pub n_dedx : Float
    pub tower_energy : Float
    pub n_sigma_low_for_tof : Float
    pub n_sigma_high_for_tof : Float
    pub p_low_for_tof : Float
    pub p_high_for_tof : Float
    pub n_sigma_low_for_emc : Float
    pub n_sigma_high_for_emc : Float
    pub p_low_for_emc : Float
    pub p_high_for_emc : Float
    pub p1 : Float
    pub p2 : Float
    pub mass_low : Float
    pub mass_high : Float
    pub p_over_e_low : Float
    pub p_over_e_high : Float
    pub one_over_beta : Float
    pub only_opp_pairs : Bool

  pub record FragmentCuts : Type 0 where
    pub n_hits : ℤ
    pub n_dedx : ℤ
    pub use_tof_matched : Bool
    pub n_sigma_he3 : Double
    pub n_sigma_triton : Double
    pub n_sigma_mass_triton : Double
    pub dca : Double

  pub record MuonCuts : Type 0 where
    pub n_hits : ℤ
    pub dz_trk_hit : Double
    pub dca : Double
    pub pt_lead : Double
    pub pt_sublead : Double

  pub record HighTowerCuts : Type 0 where
    pub n_hits : ℤ
    pub p : Float
    pub d_phi : Float
    pub d_z : Float

  -- The vertex and the number of tracks: besGoodEvents, HLTGood2 and UPC.
  pub record VertexCuts : Type 0 where
    pub n_tracks : ℤ
    pub r : Float
    pub z : Float

  pub record TargetCuts : Type 0 where
    pub z_low : Float
    pub z_high : Float
    pub r_low : Float
    pub r_high : Float

  -- sigmaDedx1, dPOverP2 and sigmaTof are the resolutions that the file gives.
  pub record Cuts : Type 0 where
    pub trigger_on : Trigger → Bool
    pub trigger_bits : Trigger → ℕ
    pub n_hits_high_pt : ℤ
    pub pt_high_pt : Double
    pub muon : MuonCuts
    pub pt_high_di_muon : Double
    pub dz_di_muon : Double
    pub electron : ElectronCuts
    pub fragment : FragmentCuts
    pub sample_scale : ℤ
    pub bes_good : VertexCuts
    pub good2 : VertexCuts
    pub high_tower : HighTowerCuts
    pub upc : VertexCuts
    pub n_tracks_upc_electron : ℤ
    pub upc_electron : ElectronCuts
    pub n_tracks_low : ℤ
    pub n_tracks_high : ℤ
    pub target : TargetCuts
    pub monitor_z_low : Float
    pub monitor_z_high : Float
    pub n_tracks_bes_monitor : ℤ
    pub z_bes_monitor : Float
    pub two_tower : TwoTowerCuts
    pub sigma_dedx1 : Double
    pub d_p_over_p2 : Double
    pub sigma_tof : Double

  -- triggerBitX; allEvents_no_HLT and diV0 have no member, and set no bit.
  unfoldable pub trigger_bit : Cuts → Trigger → ℕ
  trigger_bit c Trigger.all_events_no_hlt = 0
  trigger_bit c Trigger.di_v0 = 0
  trigger_bit c t = c.trigger_bits t

  -- A whole number and a literal.
  abbrev int_d : ℕ → Double
  int_d n = double.of_int (pos n)

  abbrev int_f : ℕ → Float
  int_f n = float.of_int (pos n)

  abbrev huge : Double
  huge = double.of_int (pos 10000000000)

  -- diElectron and UPCdiElectron start from the same values.
  unfoldable pub electron_defaults : ElectronCuts
  electron_defaults = record {
    n_hits = pos 15;
    n_dedx = pos 5;
    tower_energy = double.decimal (pos 5) 1;
    for_tof = record {
      n_sigma_low = int_d 0;
      n_sigma_high = int_d 3;
      p_low = int_d 0;
      p_high = int_d 0;
    };
    for_emc = record {
      n_sigma_low = double.of_int (negsuc 0);
      n_sigma_high = int_d 3;
      p_low = double.decimal (pos 5) 1;
      p_high = huge;
    };
    for_tof_and_emc = record {
      n_sigma_low = double.of_int (negsuc 2);
      n_sigma_high = int_d 3;
      p_low = int_d 0;
      p_high = huge;
    };
    p1 = int_d 2;
    p2 = double.decimal (pos 5) 1;
    p_over_e_low = double.decimal (pos 3) 1;
    p_over_e_high = double.decimal (pos 15) 1;
    mass_low = int_d 0;
    mass_high = int_d 1000000;
    vertex_z_diff = int_d 20;
    one_over_beta = double.decimal (pos 3) 2;
    only_opp_pairs = false;
  }

  unfoldable pub two_tower_defaults : TwoTowerCuts
  two_tower_defaults = record {
    n_hits = int_f 15;
    n_dedx = int_f 10;
    tower_energy = float.decimal (pos 5) 1;
    n_sigma_low_for_tof = float.decimal (negsuc 14) 1;
    n_sigma_high_for_tof = int_f 3;
    p_low_for_tof = float.decimal (pos 5) 1;
    p_high_for_tof = int_f 100;
    n_sigma_low_for_emc = float.of_int (negsuc 1);
    n_sigma_high_for_emc = int_f 3;
    p_low_for_emc = float.decimal (pos 15) 1;
    p_high_for_emc = int_f 100;
    p1 = float.decimal (pos 15) 1;
    p2 = float.decimal (pos 5) 1;
    mass_low = int_f 2;
    mass_high = int_f 1000;
    p_over_e_low = float.decimal (pos 1) 1;
    p_over_e_high = float.decimal (pos 25) 1;
    one_over_beta = float.decimal (pos 3) 2;
    only_opp_pairs = false;
  }

  -- What setTriggers assigns before it reads the file, as far as the decisions read it; every trigger is
  -- switched on.
  unfoldable pub default_cuts : Cuts
  default_cuts = record {
    trigger_on = λ t. true;
    trigger_bits = default_bit;
    n_hits_high_pt = pos 20;
    pt_high_pt = int_d 5;
    muon = record {
      n_hits = pos 15;
      dz_trk_hit = int_d 40;
      dca = int_d 10;
      pt_lead = double.decimal (pos 15) 1;
      pt_sublead = int_d 1;
    };
    pt_high_di_muon = double.decimal (pos 15) 1;
    dz_di_muon = int_d 50;
    electron = electron_defaults;
    fragment = record {
      n_hits = pos 0;
      n_dedx = pos 0;
      use_tof_matched = false;
      n_sigma_he3 = int_d 0;
      n_sigma_triton = int_d 0;
      n_sigma_mass_triton = int_d 0;
      dca = int_d 0;
    };
    sample_scale = pos 997;
    bes_good = record { n_tracks = pos 5; r = int_f 2; z = int_f 30 };
    good2 = record { n_tracks = pos 5; r = float.decimal (pos 15) 1; z = int_f 5 };
    high_tower = record {
      n_hits = pos 10;
      p = int_f 1;
      d_phi = float.decimal (pos 12) 2;
      d_z = int_f 10;
    };
    upc = record { n_tracks = pos 5; r = int_f 2; z = int_f 100 };
    n_tracks_upc_electron = pos 30;
    upc_electron = electron_defaults;
    n_tracks_low = pos 0;
    n_tracks_high = pos 10000;
    target = record { z_low = int_f 195; z_high = int_f 225; r_low = int_f 0; r_high = int_f 4 };
    monitor_z_low = int_f 195;
    monitor_z_high = int_f 225;
    n_tracks_bes_monitor = pos 5;
    z_bes_monitor = int_f 30;
    two_tower = two_tower_defaults;
    sigma_dedx1 = int_d 0;
    d_p_over_p2 = int_d 0;
    sigma_tof = int_d 0;
  }
