-- ===== src/Decider/Tracks.antt =====
-- decide_HighPt and decide_HeavyFragment of L4_HLT/gl3TriggerDecider.cxx.
use star_hlt_tofmtd.Prelude.{ℕ, Bool, true, false, ◌&&◌, ◌||◌, Option, none, some, if◌then◌else◌}
use star_hlt_tofmtd.Prelude.Int.{pos, ltb_ℤ}
use star_hlt_tofmtd.Floats.{Floats}
use star_hlt_tofmtd.Decider.Types.{Trigger, Particle, Track, Node, Event, Parts}
use star_hlt_tofmtd.Decider.Cuts.{Cuts, trigger_bit}
use star_hlt_tofmtd.Decider.State.{Bank, Decider, push, restart, set_word}
use star_hlt_tofmtd.Decider.Loops.{scan, numbered}
use star_hlt_tofmtd.Decider.Match.{momentum, n_sigma_dedx, with_tof, best_tower}
use star_hlt_tofmtd.Decider.Simple.{when_on}

-- What a loop over the nodes gathers: the trigger's word and its bank.
pub record Found (A : Type 0) : Type 0 where
  pub word : ℕ
  pub bank : Bank A

module _ {A : Type 0} where
  -- xTriggered = triggerBitX; array[n] = a; n++
  unfoldable pub found : ℕ → A → Found A → Found A
  found bit a f = record { word = bit; bank = push a f.bank }

module _ (fl : Floats) (parts : Parts fl) (cuts : Cuts fl) (ev : Event fl) where
  open fl use {Double, double}

  -- The cuts that a node passes: a primary track with enough hits and momentum.
  unfoldable pub passes_high_pt : Node fl → Bool
  passes_high_pt n = elim n.primary_track [
    | none ↦ false
    | some t ↦
        if ltb_ℤ t.n_hits cuts.n_hits_high_pt
        then false
        else if double.lt t.pt cuts.pt_high_pt
        then false
        else true
  ]

  -- The best of all barrel towers for a track.
  unfoldable pub match_emc : Option (Track fl) → Node fl → Node fl
  match_emc none n = n
  match_emc (some t) n = (best_tower fl parts t (numbered 0 ev.barrel_towers) n).1

  -- The match uses the primary track as matchPrimaryTracks leaves it.
  unfoldable pub high_pt_node : ℕ → Node fl → Found ℕ → Node fl × Found ℕ
  high_pt_node i n f =
      if passes_high_pt n
      then (let m = with_tof fl parts ev.lm_vertex n in
          (match_emc m.primary_track m, found (trigger_bit fl cuts Trigger.high_pt) i f))
      else (n, f)

  unfoldable pub high_pt_body : Decider fl → Decider fl
  high_pt_body s =
      let start : Found ℕ = record { word = 0; bank = s.hlt_hi_pt } in
      let (nodes, f) = scan high_pt_node 0 s.nodes start in
      let fired = set_word fl Trigger.high_pt f.word s in
      record fired { nodes = nodes; hlt_hi_pt = f.bank }

  unfoldable pub decide_high_pt : Decider fl → Bool × Decider fl
  decide_high_pt s =
      when_on fl (cuts.trigger_on Trigger.high_pt) Trigger.high_pt high_pt_body
        (record s { hlt_hi_pt = restart s.hlt_hi_pt })

  -- The distance of the track to the beam line, or its dca, which is a float.
  unfoldable pub dca_to_use : Track fl → Double
  dca_to_use t =
      let x0 = double.mul t.r0 (parts.cos t.phi0) in
      let y0 = double.mul t.r0 (parts.sin t.phi0) in
      let dca2 = parts.sqrt (
        double.add (parts.pow (double.sub x0 ev.beamline_x) 2)
          (parts.pow (double.sub y0 ev.beamline_y) 2)) in
      if ev.use_beamline_to_make_primarys then dca2 else fl.to_double t.dca

  -- The cuts before the particle is identified.
  unfoldable pub passes_fragment : Node fl → Bool
  passes_fragment n =
      let t = n.global_track in
      let c = cuts.fragment in
      let unmatched : Bool = elim n.globaltof_cell [ none ↦ true | some k ↦ false ] in
      let d = dca_to_use t in
      if ltb_ℤ t.n_hits c.n_hits
        || ltb_ℤ t.n_dedx c.n_dedx
        || c.use_tof_matched && unmatched
        || double.lt c.dca d
        || double.lt d (double.of_int (pos 0))
      then false
      else true

  unfoldable pub is_he3 : Track fl → Bool
  is_he3 t =
      double.lt cuts.fragment.n_sigma_he3 (n_sigma_dedx fl parts t Particle.he3 cuts.sigma_dedx1)

  unfoldable pub near_triton : Track fl → Bool
  near_triton t =
      double.lt (parts.fabs (n_sigma_dedx fl parts t Particle.triton cuts.sigma_dedx1))
        cuts.fragment.n_sigma_triton

  -- The mass of the node's primary track from its momentum and its velocity, near the triton's.
  unfoldable pub triton_mass : Node fl → Track fl → Bool
  triton_mass n t =
      let p = momentum fl parts t in
      let square : Double → Double = λ x. parts.pow x 2 in
      let two = double.of_int (pos 2) in
      let one = double.of_int (pos 1) in
      let mass = double.decimal (pos 280925) 5 in
      let l = double.mul n.beta n.tof in
      let sigma1 =
        double.mul
          (double.mul (double.div (double.mul (square p) two) l)
            (parts.sqrt (double.add one (square (double.div mass p)))))
          cuts.sigma_tof in
      let sigma2 = double.mul (double.mul (double.mul (square mass) two) p) cuts.d_p_over_p2 in
      let sigma = parts.sqrt (double.add (square sigma1) (square sigma2)) in
      let m2 = double.mul (square p) (double.sub (square (double.div one n.beta)) one) in
      double.lt (parts.fabs (double.sub m2 (square mass)))
        (double.mul cuts.fragment.n_sigma_mass_triton sigma)

  -- if(nSigmaDedx("He3") > …)
  unfoldable pub he3_step : Node fl → Bool × Node fl
  he3_step n =
      let t = n.global_track in
      if is_he3 t then (true, match_emc (some t) (with_tof fl parts ev.lm_vertex n)) else (false, n)

  -- if(fabs(nSigmaDedx("Triton")) < …); the code reads the primary track of a node with a cell without
  -- a test, which is a null pointer in the second `none`.
  unfoldable pub triton_step : Bool × Node fl → Bool × Node fl
  triton_step (triggered, n) =
      let t = n.global_track in
      if near_triton t
      then (let m = with_tof fl parts ev.lm_vertex n in
          elim m.primarytof_cell [
            | none ↦ (triggered, m)
            | some k ↦ elim m.primary_track [
              | none ↦ (triggered, m)
              | some pt ↦ if triton_mass m pt then (true, match_emc (some t) m) else (triggered, m)
            ]
          ])
      else (triggered, n)

  unfoldable pub heavy_fragment_node : ℕ → Node fl → Found ℕ → Node fl × Found ℕ
  heavy_fragment_node i n f =
      if passes_fragment n
      then (let (triggered, m) = triton_step (he3_step n) in
          (m, if triggered then found (trigger_bit fl cuts Trigger.heavy_fragment) i f else f))
      else (n, f)

  unfoldable pub heavy_fragment_body : Decider fl → Decider fl
  heavy_fragment_body s =
      let start : Found ℕ = record { word = 0; bank = s.hlt_h_f } in
      let (nodes, f) = scan heavy_fragment_node 0 s.nodes start in
      let fired = set_word fl Trigger.heavy_fragment f.word s in
      record fired { nodes = nodes; hlt_h_f = f.bank }

  unfoldable pub decide_heavy_fragment : Decider fl → Bool × Decider fl
  decide_heavy_fragment s =
      when_on fl (cuts.trigger_on Trigger.heavy_fragment) Trigger.heavy_fragment heavy_fragment_body
        (record s { hlt_h_f = restart s.hlt_h_f })
