-- ===== src/Decider/Electrons.antt =====
-- The electrons of decide_DiElectron, decide_UPCDiElectron and decide_DiElectron2Twr of
-- L4_HLT/gl3TriggerDecider.cxx: which nodes each of them takes, and the kinematics of a pair.
use Prim.Native.Nat.{bit_or}
use star_hlt_tofmtd.Prelude.{
  ℕ, Bool, true, false, ◌&&◌, ◌||◌, ◌==◌, List, [], ◌∷◌, ◌++◌, Option, none, some, if◌then◌else◌,
  length, ltb,
}
use star_hlt_tofmtd.Prelude.Int.{pos, ltb_ℤ}
use star_hlt_tofmtd.Floats.{Floats}
use star_hlt_tofmtd.Decider.Types.{Track, Tower, Node, Event, Parts}
use star_hlt_tofmtd.Decider.Cuts.{Window, ElectronCuts}
use star_hlt_tofmtd.Decider.Loops.{collect, numbered}
use star_hlt_tofmtd.Decider.Match.{momentum, with_tof, best_tower}

-- maxNElectronTracks and maxNTowers
abbrev pub max_n_electron_tracks : ℕ
max_n_electron_tracks = 1000

abbrev pub max_n_towers : ℕ
max_n_towers = 4800

module _ (fl : Floats) where
  -- electronNode[k] and electronSelectionBits[k], with the node's number and its primary track, which
  -- the rest of the loop does not touch.
  pub record Electron : Type 0 where
    pub sn : ℕ
    pub track : Track fl
    pub selection_bits : ℕ

  -- The array as the loop fills it, and whether the loop has left off because it is full.
  pub record Electrons : Type 0 where
    pub electrons : List Electron
    pub full : Bool

  unfoldable pub no_electrons : Electrons
  no_electrons = record { electrons = []; full = false }

  -- if(isElectron) { if(full) break; … }
  unfoldable pub add_electron : ℕ → Track fl → ℕ → Electrons → Electrons
  add_electron i t bits es =
      if bits == 0
      then es
      else if ltb (length es.electrons) max_n_electron_tracks
      then record es {
        electrons = es.electrons ++ (record { sn = i; track = t; selection_bits = bits } ∷ []);
      }
      else record es { full = true }

module _ (fl : Floats) (parts : Parts fl) (ev : Event fl) where
  open fl use {Double, double, to_double}
  open parts use {sqrt, pow, cos, sin, atan2, fabs}

  -- emcTower: the towers with enough energy, with their numbers.
  unfoldable pub strong_towers : Double → List (ℕ × Tower fl)
  strong_towers cut =
      collect max_n_towers
        (λ (tw : ℕ × Tower fl). if double.lt (to_double tw.1.energy) cut then false else true)
        (numbered 0 ev.barrel_towers)

  unfoldable pub inside : Window fl → Double → Double → Bool
  inside w n_sigma p =
      double.lt w.n_sigma_low n_sigma
      && double.lt n_sigma w.n_sigma_high
      && double.lt w.p_low p
      && double.lt p w.p_high

  -- std::min and std::max
  abbrev min_d : Double → Double → Double
  min_d a b = if double.lt b a then b else a

  abbrev max_d : Double → Double → Double
  max_d a b = if double.lt a b then b else a

  -- The window around two windows, whose limits the first tests of a track use.
  unfoldable pub hull : Window fl → Window fl → Window fl
  hull v w = record {
    n_sigma_low = min_d v.n_sigma_low w.n_sigma_low;
    n_sigma_high = max_d v.n_sigma_high w.n_sigma_high;
    p_low = min_d v.p_low w.p_low;
    p_high = max_d v.p_high w.p_high;
  }

  -- fabs(1. / node->beta - 1.) < cut
  unfoldable pub beta_near_one : Double → Node fl → Bool
  beta_near_one cut n =
      let one = double.of_int (pos 1) in
      double.lt (fabs (double.sub (double.div one n.beta) one)) cut

  -- The energy cut and the two cuts on p / E.
  unfoldable pub energy_fits : Double → Double → Double → Double → Double → Bool
  energy_fits energy_cut low high p energy =
      double.lt energy_cut energy
      && double.lt low (double.div p energy)
      && double.lt (double.div p energy) high

  -- isElectron of diElectron and UPCdiElectron
  unfoldable pub selection : ElectronCuts fl → Double → Double → Bool → Bool → ℕ
  selection c n_sigma p tof emc =
      bit_or
        (bit_or (if inside c.for_tof n_sigma p && tof then 1 else 0)
          (if inside c.for_emc n_sigma p && emc then 2 else 0))
        (if inside c.for_tof_and_emc n_sigma p && tof && emc then 4 else 0)

  -- passTofCut of diElectron, and the node with the match to the TOF.
  unfoldable pub tof_step : ElectronCuts fl → Double → Double → Node fl → Bool × Node fl
  tof_step c n_sigma p n =
      if inside (hull c.for_tof c.for_tof_and_emc) n_sigma p
      then (let m = with_tof fl parts ev.lm_vertex n in (beta_near_one c.one_over_beta m, m))
      else (false, n)

  -- passEmcCut with the windows of `c` and the energy cuts of `e`, and the node with its tower.
  unfoldable pub emc_step :
      ElectronCuts fl
      → ElectronCuts fl
      → List (ℕ × Tower fl)
      → Double
      → Double
      → Track fl
      → Node fl
      → Bool × Node fl
  emc_step c e towers n_sigma p t n =
      if inside (hull c.for_emc c.for_tof_and_emc) n_sigma p
      then (let (energy, m) = best_tower fl parts t towers n in
          (energy_fits e.tower_energy e.p_over_e_low e.p_over_e_high p energy, m))
      else (false, n)

  -- The track of a node that passes the cuts on hits and on momentum.
  unfoldable pub candidate : ElectronCuts fl → Node fl → Option (Track fl)
  candidate c n = elim n.primary_track [
    | none ↦ none
    | some t ↦
        if ltb_ℤ t.n_hits c.n_hits
          || ltb_ℤ t.n_dedx c.n_dedx
          || double.lt (momentum fl parts t) c.p2
        then none
        else some t
  ]

  -- E and the momentum of one of the two, from its momentum p.
  unfoldable pub energy_of : Double → Double → Double
  energy_of mass p = sqrt (double.add (double.mul mass mass) (double.mul p p))

  pub record Kinematics : Type 0 where
    pub pt_sum : Double
    pub psi_sum : Double
    pub tanl_sum : Double
    pub mass : Double

  -- Two tracks with their momenta p1 and p2, as electrons.
  unfoldable pub pair_kinematics : Track fl → Track fl → Double → Double → Kinematics
  pair_kinematics a b p1 p2 =
      let electron_mass = double.decimal (pos 511) 6 in
      let e1 = energy_of electron_mass p1 in
      let e2 = energy_of electron_mass p2 in
      let px = double.add (double.mul a.pt (cos a.psi)) (double.mul b.pt (cos b.psi)) in
      let py = double.add (double.mul a.pt (sin a.psi)) (double.mul b.pt (sin b.psi)) in
      let pz = double.add (double.mul a.pt a.tanl) (double.mul b.pt b.tanl) in
      let pt = sqrt (double.add (pow px 2) (pow py 2)) in
      record {
        pt_sum = pt;
        psi_sum = atan2 py px;
        tanl_sum = atan2 pz pt;
        mass = sqrt (double.sub (double.sub (pow (double.add e1 e2) 2) (pow pt 2)) (pow pz 2));
      }
