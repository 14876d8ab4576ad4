-- ===== src/Decider/RunControl.antt =====
-- setTriggersFromRunControl of L4_HLT/gl3TriggerDecider.cxx: the parameters of one trigger from the run
-- configuration. The configuration's values for the trigger are parameters: `user_int k` and
-- `user_float k` are what getParamI and getParamF return for l3.userInt[k] and l3.userFloat[k].
use star_hlt_tofmtd.Prelude.{ℕ}
use star_hlt_tofmtd.Prelude.Int.{ℤ}
use star_hlt_tofmtd.Floats.{Floats}
use star_hlt_tofmtd.Decider.Types.{
  Trigger, high_pt, di_electron, heavy_fragment, random_events, bes_good_events, matched_ht2,
  low_mult, upc_di_electron, mtd_di_muon, mtd_quarkonium, fixed_target, fixed_target_monitor,
  bes_monitor, hlt_good2, di_electron2_twr,
}
use star_hlt_tofmtd.Decider.Cuts.{Cuts, ElectronCuts}

module _ (fl : Floats) (user_int : ℕ → ℤ) (user_float : ℕ → fl.Float) where
  open fl use {Double, to_double}

  abbrev user : ℕ → Double
  user k = to_double (user_float k)

  -- The seven values of diElectron and of UPCdielectron.
  unfoldable pub set_electron : ElectronCuts fl → ElectronCuts fl
  set_electron c =
      let tof = c.for_tof in
      let emc = c.for_emc in
      let both = c.for_tof_and_emc in
      record c {
        n_hits = user_int 0;
        n_dedx = user_int 1;
        for_tof = record tof { n_sigma_low = user 0 };
        for_emc = record emc { n_sigma_low = user 1 };
        for_tof_and_emc = record both { n_sigma_low = user 2 };
        p2 = user 3;
        one_over_beta = user 4;
      }

  -- switch (id)
  unfoldable pub set_triggers_from_run_control : Trigger → Cuts fl → Cuts fl
  set_triggers_from_run_control high_pt c = record c {
    n_hits_high_pt = user_int 0;
    pt_high_pt = user 0;
  }
  set_triggers_from_run_control di_electron c = record c { electron = set_electron c.electron }
  set_triggers_from_run_control heavy_fragment c =
      let old = c.fragment in
      record c {
        fragment = record old {
          n_hits = user_int 0;
          n_dedx = user_int 1;
          n_sigma_he3 = user 0;
          n_sigma_triton = user 1;
          n_sigma_mass_triton = user 2;
          dca = user 3;
        };
      }
  set_triggers_from_run_control random_events c = record c { sample_scale = user_int 0 }
  set_triggers_from_run_control bes_good_events c = record c {
    bes_good = record { n_tracks = user_int 0; r = user_float 0; z = user_float 1 };
  }
  set_triggers_from_run_control matched_ht2 c = record c {
    high_tower = record {
      n_hits = user_int 0;
      p = user_float 0;
      d_phi = user_float 1;
      d_z = user_float 2;
    };
  }
  set_triggers_from_run_control low_mult c = record c {
    n_tracks_low = user_int 0;
    n_tracks_high = user_int 1;
  }
  set_triggers_from_run_control upc_di_electron c = record c {
    upc_electron = set_electron c.upc_electron;
  }
  set_triggers_from_run_control mtd_di_muon c = record c {
    pt_high_di_muon = user 0;
    dz_di_muon = user 1;
  }
  set_triggers_from_run_control fixed_target c =
      let old = c.target in
      record c { target = record old { z_low = user_float 0; z_high = user_float 1 } }
  set_triggers_from_run_control fixed_target_monitor c = record c {
    monitor_z_low = user_float 0;
    monitor_z_high = user_float 1;
  }
  set_triggers_from_run_control bes_monitor c = record c {
    n_tracks_bes_monitor = user_int 0;
    z_bes_monitor = user_float 0;
  }
  set_triggers_from_run_control hlt_good2 c = record c {
    good2 = record { n_tracks = user_int 0; r = user_float 0; z = user_float 1 };
  }
  set_triggers_from_run_control mtd_quarkonium c = record c {
    muon = record {
      n_hits = user_int 0;
      dz_trk_hit = user 0;
      dca = user 1;
      pt_lead = user 2;
      pt_sublead = user 3;
    };
  }
  set_triggers_from_run_control di_electron2_twr c =
      let old = c.two_tower in
      record c {
        two_tower = record old {
          mass_low = user_float 0;
          p_over_e_low = user_float 1;
          p_over_e_high = user_float 2;
        };
      }
  set_triggers_from_run_control _ c = c
