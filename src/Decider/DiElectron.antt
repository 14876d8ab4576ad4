-- ===== src/Decider/DiElectron.antt =====
-- decide_DiElectron and decide_UPCDiElectron of L4_HLT/gl3TriggerDecider.cxx.
-- UPCDiElectron takes the energy cuts and the cut on the leading momentum from diElectron's
-- parameters, passes every track in the TOF, and writes its pairs at diElectron's counter.
use star_hlt_tofmtd.Prelude.{
  ℕ, suc, Bool, true, false, ◌&&◌, ◌||◌, Option, none, some, List, if◌then◌else◌,
}
use star_hlt_tofmtd.Prelude.Int.{pos, ltb_ℤ, ◌*ℤ◌}
use star_hlt_tofmtd.Floats.{Floats}
use star_hlt_tofmtd.Decider.Types.{Trigger, Particle, Track, Tower, Node, Event, Parts}
use star_hlt_tofmtd.Decider.Cuts.{Cuts, ElectronCuts, trigger_bit}
use star_hlt_tofmtd.Decider.State.{Decider, DiElectronPair, restart, write, set_word}
use star_hlt_tofmtd.Decider.Loops.{scan, for_pairs}
use star_hlt_tofmtd.Decider.Match.{momentum, n_sigma_dedx}
use star_hlt_tofmtd.Decider.Simple.{when_on}
use star_hlt_tofmtd.Decider.Tracks.{Found, found}
use star_hlt_tofmtd.Decider.Electrons.{
  Electron, Electrons, no_electrons, add_electron, strong_towers, selection, tof_step, emc_step,
  candidate, pair_kinematics,
}

module _ (fl : Floats) where
  -- track1->q * track2->q > 0
  unfoldable pub same_charge : Track fl → Track fl → Bool
  same_charge a b = ltb_ℤ (pos 0) (a.q *ℤ b.q)

  -- The primary track that matchPrimaryTracks left in the node.
  unfoldable pub track_of : Node fl → Track fl → Track fl
  track_of n t = elim n.primary_track [ none ↦ t | some u ↦ u ]

module _ (fl : Floats) (parts : Parts fl) (cuts : Cuts fl) (ev : Event fl) where
  open fl use {Double, double, to_float}

  unfoldable pub electron_node :
      List (ℕ × Tower fl) → ℕ → Node fl → Electrons fl → Node fl × Electrons fl
  electron_node towers i n es =
      if es.full
      then (n, es)
      else (let c = cuts.electron in
          elim (candidate fl parts ev c n) [
            | none ↦ (n, es)
            | some t ↦
                let p = momentum fl parts t in
                let n_sigma = n_sigma_dedx fl parts t Particle.electron cuts.sigma_dedx1 in
                let (tof, m) = tof_step fl parts ev c n_sigma p n in
                let u = track_of fl m t in
                let (emc, last) = emc_step fl parts ev c c towers n_sigma p u m in
                (last, add_electron fl i u (selection fl parts ev c n_sigma p tof emc) es)
          ])

  unfoldable pub upc_electron_node :
      List (ℕ × Tower fl) → ℕ → Node fl → Electrons fl → Node fl × Electrons fl
  upc_electron_node towers i n es =
      if es.full
      then (n, es)
      else (let c = cuts.upc_electron in
          elim (candidate fl parts ev c n) [
            | none ↦ (n, es)
            | some t ↦
                let p = momentum fl parts t in
                let n_sigma = n_sigma_dedx fl parts t Particle.electron cuts.sigma_dedx1 in
                let (emc, last) = emc_step fl parts ev c cuts.electron towers n_sigma p t n in
                (last, add_electron fl i t (selection fl parts ev c n_sigma p true emc) es)
          ])

  -- The pair of a leading electron `a`, of momentum p1, and another one, if it passes the cuts.
  unfoldable pub ordered_pair :
      ElectronCuts fl
      → Double
      → Electron fl
      → Electron fl
      → Double
      → Double
      → Option (DiElectronPair fl)
  ordered_pair c p1_cut a b p1 p2 =
      let k = pair_kinematics fl parts ev a.track b.track p1 p2 in
      if double.lt p1 p1_cut
        || same_charge fl a.track b.track && c.only_opp_pairs
        || double.lt c.vertex_z_diff (parts.fabs (double.sub a.track.z0 b.track.z0))
        || double.lt k.mass c.mass_low
        || double.lt c.mass_high k.mass
      then none
      else some record {
        dau1_node_sn = a.sn;
        dau2_node_sn = b.sn;
        invariant_mass = to_float k.mass;
        pt = to_float k.pt_sum;
        psi = to_float k.psi_sum;
        tanl = to_float k.tanl_sum;
        dau1_selection_bit = a.selection_bits;
        dau2_selection_bit = b.selection_bits;
      }

  -- if(p1 < p2) swap
  unfoldable pub electron_pair :
      ElectronCuts fl → Double → Electron fl → Electron fl → Option (DiElectronPair fl)
  electron_pair c p1_cut a b =
      let p1 = momentum fl parts a.track in
      let p2 = momentum fl parts b.track in
      if double.lt p1 p2 then ordered_pair c p1_cut b a p2 p1 else ordered_pair c p1_cut a b p1 p2

  unfoldable pub try_pair :
      Electron fl → Electron fl → Found (DiElectronPair fl) → Found (DiElectronPair fl)
  try_pair a b f = elim (electron_pair cuts.electron cuts.electron.p1 a b) [
    | none ↦ f
    | some pair ↦ found (trigger_bit fl cuts Trigger.di_electron) pair f
  ]

  -- 0.5, whatever towerEnergyCut is
  abbrev seed_energy : Double
  seed_energy = double.decimal (pos 5) 1

  unfoldable pub di_electron_body : Decider fl → Decider fl
  di_electron_body s =
      let towers = strong_towers fl parts ev seed_energy in
      let (nodes, es) = scan (electron_node towers) 0 s.nodes (no_electrons fl) in
      let start : Found (DiElectronPair fl) = record { word = 0; bank = s.hlt_di_ep } in
      let f = for_pairs try_pair es.electrons start in
      let fired = set_word fl Trigger.di_electron f.word s in
      record fired { nodes = nodes; hlt_di_ep = f.bank }

  unfoldable pub decide_di_electron : Decider fl → Bool × Decider fl
  decide_di_electron s =
      when_on fl (cuts.trigger_on Trigger.di_electron) Trigger.di_electron di_electron_body
        (record s { hlt_di_ep = restart s.hlt_di_ep })

  -- hlt_UPCdiEP.ePair[hlt_diEP.nEPairs] = pair; hlt_UPCdiEP.nEPairs ++
  unfoldable pub upc_found :
      ℕ → DiElectronPair fl → Found (DiElectronPair fl) → Found (DiElectronPair fl)
  upc_found di_ep_count pair f =
      let b = write di_ep_count pair f.bank in
      record {
        word = trigger_bit fl cuts Trigger.upc_di_electron;
        bank = record b { count = suc b.count };
      }

  unfoldable pub try_upc_pair :
      ℕ → Electron fl → Electron fl → Found (DiElectronPair fl) → Found (DiElectronPair fl)
  try_upc_pair di_ep_count a b f = elim (electron_pair cuts.upc_electron cuts.electron.p1 a b) [
    | none ↦ f
    | some pair ↦ upc_found di_ep_count pair f
  ]

  unfoldable pub upc_di_electron_body : Decider fl → Decider fl
  upc_di_electron_body s =
      let towers = strong_towers fl parts ev seed_energy in
      let (nodes, es) = scan (upc_electron_node towers) 0 s.nodes (no_electrons fl) in
      let start : Found (DiElectronPair fl) = record { word = 0; bank = s.hlt_upc_di_ep } in
      let f = for_pairs (try_upc_pair s.hlt_di_ep.count) es.electrons start in
      let fired = set_word fl Trigger.upc_di_electron f.word s in
      record fired { nodes = nodes; hlt_upc_di_ep = f.bank }

  -- triggerOnUPCdiElectron && getNPrimaryTracks() <= nTracksCut
  unfoldable pub decide_upc_di_electron : Decider fl → Bool × Decider fl
  decide_upc_di_electron s =
      let few = if ltb_ℤ cuts.n_tracks_upc_electron ev.n_primary_tracks then false else true in
      when_on fl (cuts.trigger_on Trigger.upc_di_electron && few) Trigger.upc_di_electron
        upc_di_electron_body (record s { hlt_upc_di_ep = restart s.hlt_upc_di_ep })
