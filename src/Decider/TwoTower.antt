-- ===== src/Decider/TwoTower.antt =====
-- decide_DiElectron2Twr of L4_HLT/gl3TriggerDecider.cxx. Its parameters are floats, the numbers of hits
-- too; an electron needs the TOF or the calorimeter alone, and a pair keeps the order of the nodes.
use star_hlt_tofmtd.Prelude.{
  ℕ, Bool, true, false, ◌&&◌, ◌||◌, Option, none, some, List, if◌then◌else◌,
}
use star_hlt_tofmtd.Floats.{Floats}
use star_hlt_tofmtd.Decider.Types.{Trigger, Particle, Track, Tower, Node, Event, Parts}
use star_hlt_tofmtd.Decider.Cuts.{Cuts, Window, trigger_bit}
use star_hlt_tofmtd.Decider.State.{Decider, DiElectronPair, restart, set_word}
use star_hlt_tofmtd.Decider.Loops.{scan, for_pairs}
use star_hlt_tofmtd.Decider.Match.{momentum, n_sigma_dedx, with_tof, best_tower}
use star_hlt_tofmtd.Decider.Simple.{when_on}
use star_hlt_tofmtd.Decider.Tracks.{Found, found}
use star_hlt_tofmtd.Decider.Electrons.{
  Electron, Electrons, no_electrons, add_electron, strong_towers, inside, beta_near_one,
  energy_fits, pair_kinematics,
}
use star_hlt_tofmtd.Decider.DiElectron.{same_charge, track_of}

module _ (fl : Floats) (parts : Parts fl) (cuts : Cuts fl) (ev : Event fl) where
  open fl use {Double, double, float, to_float, to_double}

  abbrev tof_window : Window fl
  tof_window = record {
    n_sigma_low = to_double cuts.two_tower.n_sigma_low_for_tof;
    n_sigma_high = to_double cuts.two_tower.n_sigma_high_for_tof;
    p_low = to_double cuts.two_tower.p_low_for_tof;
    p_high = to_double cuts.two_tower.p_high_for_tof;
  }

  abbrev emc_window : Window fl
  emc_window = record {
    n_sigma_low = to_double cuts.two_tower.n_sigma_low_for_emc;
    n_sigma_high = to_double cuts.two_tower.n_sigma_high_for_emc;
    p_low = to_double cuts.two_tower.p_low_for_emc;
    p_high = to_double cuts.two_tower.p_high_for_emc;
  }

  unfoldable pub two_tower_candidate : Node fl → Option (Track fl)
  two_tower_candidate n = elim n.primary_track [
    | none ↦ none
    | some t ↦
        let c = cuts.two_tower in
        if float.lt (float.of_int t.n_hits) c.n_hits
          || float.lt (float.of_int t.n_dedx) c.n_dedx
          || double.lt (momentum fl parts t) (to_double c.p2)
        then none
        else some t
  ]

  unfoldable pub two_tower_tof : Double → Double → Node fl → Bool × Node fl
  two_tower_tof n_sigma p n =
      if inside fl parts ev tof_window n_sigma p
      then (let m = with_tof fl parts ev.lm_vertex n in
          (beta_near_one fl parts ev (to_double cuts.two_tower.one_over_beta) m, m))
      else (false, n)

  unfoldable pub two_tower_emc :
      List (ℕ × Tower fl) → Double → Double → Track fl → Node fl → Bool × Node fl
  two_tower_emc towers n_sigma p t n =
      let c = cuts.two_tower in
      if inside fl parts ev emc_window n_sigma p
      then (let (energy, m) = best_tower fl parts t towers n in
          (
            energy_fits fl parts ev (to_double c.tower_energy) (to_double c.p_over_e_low)
                (to_double c.p_over_e_high) p energy,
            m,
          ))
      else (false, n)

  -- isElectron: 1 for the TOF, 2 for the calorimeter
  unfoldable pub two_tower_bits : Bool → Bool → ℕ
  two_tower_bits true true = 3
  two_tower_bits true false = 1
  two_tower_bits false true = 2
  two_tower_bits false false = 0

  unfoldable pub two_tower_node :
      List (ℕ × Tower fl) → ℕ → Node fl → Electrons fl → Node fl × Electrons fl
  two_tower_node towers i n es = if es.full then (n, es) else elim (two_tower_candidate n) [
    | none ↦ (n, es)
    | some t ↦
        let p = momentum fl parts t in
        let n_sigma = n_sigma_dedx fl parts t Particle.electron cuts.sigma_dedx1 in
        let (tof, m) = two_tower_tof n_sigma p n in
        let u = track_of fl m t in
        let (emc, last) = two_tower_emc towers n_sigma p u m in
        (last, add_electron fl i u (two_tower_bits tof emc) es)
  ]

  unfoldable pub two_tower_pair : Electron fl → Electron fl → Option (DiElectronPair fl)
  two_tower_pair a b =
      let c = cuts.two_tower in
      let p1 = momentum fl parts a.track in
      let p2 = momentum fl parts b.track in
      let p_high = if double.lt p1 p2 then p2 else p1 in
      let k = pair_kinematics fl parts ev a.track b.track p1 p2 in
      if double.lt p_high (to_double c.p1)
        || same_charge fl a.track b.track && c.only_opp_pairs
        || double.lt k.mass (to_double c.mass_low)
        || double.lt (to_double c.mass_high) k.mass
      then none
      else some record {
        dau1_node_sn = a.sn;
        dau2_node_sn = b.sn;
        invariant_mass = to_float k.mass;
        pt = to_float k.pt_sum;
        psi = to_float k.psi_sum;
        tanl = to_float k.tanl_sum;
        dau1_selection_bit = a.selection_bits;
        dau2_selection_bit = b.selection_bits;
      }

  unfoldable pub try_two_tower :
      Electron fl → Electron fl → Found (DiElectronPair fl) → Found (DiElectronPair fl)
  try_two_tower a b f = elim (two_tower_pair a b) [
    | none ↦ f
    | some pair ↦ found (trigger_bit fl cuts Trigger.di_electron2_twr) pair f
  ]

  unfoldable pub two_tower_body : Decider fl → Decider fl
  two_tower_body s =
      let towers = strong_towers fl parts ev (to_double cuts.two_tower.tower_energy) in
      let (nodes, es) = scan (two_tower_node towers) 0 s.nodes (no_electrons fl) in
      let start : Found (DiElectronPair fl) = record { word = 0; bank = s.hlt_di_ep2_twr } in
      let f = for_pairs try_two_tower es.electrons start in
      let fired = set_word fl Trigger.di_electron2_twr f.word s in
      record fired { nodes = nodes; hlt_di_ep2_twr = f.bank }

  unfoldable pub decide_di_electron2_twr : Decider fl → Bool × Decider fl
  decide_di_electron2_twr s =
      when_on fl (cuts.trigger_on Trigger.di_electron2_twr) Trigger.di_electron2_twr two_tower_body
        (record s { hlt_di_ep2_twr = restart s.hlt_di_ep2_twr })
