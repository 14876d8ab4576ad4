-- ===== src/Decider/Types.antt =====
-- What the trigger decisions read: tracks, nodes and towers (L4_HLT/FtfBaseTrack.h, gl3Track.h,
-- gl3Node.h, gl3EMC.h), the event (online_tracking_collector.h), and the operations of the other
-- parts that they call.
use star_hlt_tofmtd.Prelude.{ℕ, Bool, List, Option}
use star_hlt_tofmtd.Prelude.Int.{ℤ}
use star_hlt_tofmtd.Floats.{Floats}
use star_hlt_tofmtd.Mtd.Hits.{MtdHit}

-- HLTTriggerNames
pub data Trigger : Type 0 where
  all_events_no_hlt : Trigger
  high_pt : Trigger
  di_electron : Trigger
  heavy_fragment : Trigger
  all_events : Trigger
  random_events : Trigger
  bes_good_events : Trigger
  di_v0 : Trigger
  matched_ht2 : Trigger
  low_mult : Trigger
  upc_di_electron : Trigger
  upc_pair : Trigger
  mtd_di_muon : Trigger
  fixed_target : Trigger
  fixed_target_monitor : Trigger
  bes_monitor : Trigger
  hlt_good2 : Trigger
  mtd_quarkonium : Trigger
  di_electron2_twr : Trigger

-- The value of the enumerator.
unfoldable pub number : Trigger → ℕ
number all_events_no_hlt = 1
number high_pt = 2
number di_electron = 3
number heavy_fragment = 4
number all_events = 5
number random_events = 6
number bes_good_events = 7
number di_v0 = 8
number matched_ht2 = 9
number low_mult = 10
number upc_di_electron = 11
number upc_pair = 12
number mtd_di_muon = 13
number fixed_target = 14
number fixed_target_monitor = 15
number bes_monitor = 16
number hlt_good2 = 17
number mtd_quarkonium = 18
number di_electron2_twr = 19

-- The particle names that nSigmaDedx is called with.
pub data Particle : Type 0 where
  electron : Particle
  pion : Particle
  he3 : Particle
  triton : Particle

module _ (fl : Floats) where
  open fl use {Double, Float}

  -- gl3Track
  pub record Track : Type 0 where
    pub n_hits : ℤ
    pub n_dedx : ℤ
    pub q : ℤ
    pub dedx : Double
    pub pt : Double
    pub phi0 : Double
    pub psi : Double
    pub r0 : Double
    pub tanl : Double
    pub z0 : Double
    pub eta : Double
    pub dca : Float

  -- gl3EmcTower: energy and ADC of the tower, and the number of its calibration entry.
  pub record Tower : Type 0 where
    pub adc : ℤ
    pub energy : Float
    pub soft_id : ℤ

  -- gl3Node: the tower and the two TOF cells are numbers in their arrays, a null pointer is `none`.
  pub record Node : Type 0 where
    pub global_track : Track
    pub primary_track : Option Track
    pub emc_tower : Option ℕ
    pub emc_match_phi_diff : Double
    pub emc_match_z_edge : Double
    pub globaltof_cell : Option ℕ
    pub primarytof_cell : Option ℕ
    pub tof : Double
    pub beta : Double
    pub tof_local_y : Double
    pub tof_local_z : Double
    pub pathlength : Double
    pub tof_project_channel : ℤ

  -- l3xyzCoordinate
  pub record Coordinate : Type 0 where
    pub getx : Double
    pub gety : Double
    pub getz : Double

  -- What the decisions read of online_tracking_collector and do not write. `mtd` is `none` for a null
  -- pointer, as is the event in it; `random` is what rand() returns when it is called for the event.
  pub record Event : Type 0 where
    pub n_primary_tracks : ℤ
    pub vertex : Coordinate
    pub lm_vertex : Coordinate
    pub barrel_towers : List Tower
    pub mtd : Option (Option (List (MtdHit fl)))
    pub use_beamline_to_make_primarys : Bool
    pub beamline_x : Double
    pub beamline_y : Double
    pub random : ℕ

  -- What gl3TOF::projTrayModuleCell and the geometry after it give for a track that hits a cell.
  pub record CellMatch : Type 0 where
    pub cell : ℕ
    pub cell_tof : Float
    pub corr_z : Double
    pub local_y : Float
    pub local_z : Float
    pub channel : ℤ
    pub path_length : Double

  -- The C library and TLorentzVector, which the decisions call, and the operations of the
  -- calorimeter, of the track model and of the TOF geometry.
  pub record Parts : Type 1 where
    pub sqrt : Double → Double
    pub sqrt_float : Float → Float
    pub pow : Double → ℕ → Double
    pub cos : Double → Double
    pub sin : Double → Double
    pub log : Double → Double
    pub atan2 : Double → Double → Double
    pub fabs : Double → Double
    -- TLorentzVector: SetXYZM, the sum, M(), Pt(), Eta() and Phi().
    pub Lorentz : Type 0
    pub xyzm : Double → Double → Double → Double → Lorentz
    pub plus : Lorentz → Lorentz → Lorentz
    pub m_of : Lorentz → Double
    pub pt_of : Lorentz → Double
    pub eta_of : Lorentz → Double
    pub phi_of : Lorentz → Double
    -- gl3EmcTower::matchTrack with its two cuts: phiDiff and zEdge where the track matches.
    pub match_track : Tower → Track → Double → Double → Option (Double × Double)
    -- gl3Bischel::getDedxMean
    pub dedx_mean : Double → Particle → Double
    -- gl3Track::updateToClosestApproach
    pub update_to_closest_approach : Float → Float → Track → Track
    pub proj_tray_module_cell : Track → Option CellMatch
    -- gl3TOF::T0
    pub t0 : Float
