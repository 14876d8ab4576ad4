-- ===== src/Decider/Upc.antt =====
-- decide_UPCPair of L4_HLT/gl3TriggerDecider.cxx. Its array of pions has room for 1000 and is not
-- checked: here it is a list.
use star_hlt_tofmtd.Prelude.{
  ℕ, suc, Bool, true, false, ◌&&◌, ◌||◌, Option, none, some, List, [], ◌∷◌, ◌++◌, if◌then◌else◌,
}
use star_hlt_tofmtd.Prelude.Int.{pos, negsuc, ltb_ℤ}
use star_hlt_tofmtd.Floats.{Floats}
use star_hlt_tofmtd.Decider.Types.{Trigger, Particle, Track, Node, Event, Parts}
use star_hlt_tofmtd.Decider.Cuts.{Cuts, trigger_bit}
use star_hlt_tofmtd.Decider.State.{Decider, DiPionPair, restart, set_word}
use star_hlt_tofmtd.Decider.Loops.{scan}
use star_hlt_tofmtd.Decider.Match.{n_sigma_dedx, with_tof}
use star_hlt_tofmtd.Decider.Simple.{when_on}
use star_hlt_tofmtd.Decider.Tracks.{Found, found}

module _ (fl : Floats) (parts : Parts fl) where
  open fl use {Double, double}
  open parts use {sqrt, pow, cos, sin}

  -- The components of a momentum, and its square with the mass's.
  abbrev pub px_of : Track fl → Double
  px_of t = double.mul t.pt (cos t.psi)

  abbrev pub py_of : Track fl → Double
  py_of t = double.mul t.pt (sin t.psi)

  abbrev pub pz_of : Track fl → Double
  pz_of t = double.mul t.pt t.tanl

  -- sqrt(mass * mass + px * px + py * py + pz * pz)
  unfoldable pub track_energy : Double → Track fl → Double
  track_energy mass t =
      let sq : Double → Double = λ x. double.mul x x in
      sqrt (
        double.add (double.add (double.add (sq mass) (sq (px_of t))) (sq (py_of t))) (sq (pz_of t)))

  abbrev pub sum_px : Track fl → Track fl → Double
  sum_px a b = double.add (px_of a) (px_of b)

  abbrev pub sum_py : Track fl → Track fl → Double
  sum_py a b = double.add (py_of a) (py_of b)

  abbrev pub sum_pz : Track fl → Track fl → Double
  sum_pz a b = double.add (pz_of a) (pz_of b)

  -- sqrt(pow(E0 + E2, 2) - px * px - py * py - pz * pz)
  unfoldable pub invariant_mass : Double → Track fl → Track fl → Double
  invariant_mass mass a b =
      let sq : Double → Double = λ x. double.mul x x in
      let energy = double.add (track_energy mass a) (track_energy mass b) in
      sqrt (
        double.sub (double.sub (double.sub (pow energy 2) (sq (sum_px a b))) (sq (sum_py a b)))
          (sq (sum_pz a b)))

module _ (fl : Floats) (parts : Parts fl) (cuts : Cuts fl) (ev : Event fl) where
  open fl use {Double, double, to_float, to_double}
  open parts use {sqrt, pow, atan2, fabs}

  -- The vertex and the number of tracks.
  unfoldable pub is_upc : Bool
  is_upc =
      double.lt (fabs ev.vertex.getz) (to_double cuts.upc.z)
      && double.lt (sqrt (double.add (pow ev.vertex.getx 2) (pow ev.vertex.gety 2)))
          (to_double cuts.upc.r)
      && ltb_ℤ ev.n_primary_tracks cuts.upc.n_tracks

  -- 14 hits, a cell of the TOF, and dE/dx within three sigma of a pion's.
  unfoldable pub is_pion : Track fl → Bool
  is_pion t =
      let n_sigma = n_sigma_dedx fl parts t Particle.pion cuts.sigma_dedx1 in
      if double.lt (double.of_int (pos 3)) n_sigma || double.lt n_sigma (double.of_int (negsuc 2))
      then false
      else true

  unfoldable pub enough_hits : Node fl → Option (Track fl)
  enough_hits n = elim n.primary_track [
    | none ↦ none
    | some t ↦ if ltb_ℤ t.n_hits (pos 14) then none else some t
  ]

  -- Adds the node to UPCpionNode.
  unfoldable pub add_pion : ℕ → Node fl → List (ℕ × Track fl) → List (ℕ × Track fl)
  add_pion i m pions = elim m.primarytof_cell [
    | none ↦ pions
    | some k ↦ elim m.primary_track [
      | none ↦ pions
      | some t ↦ if is_pion t then pions ++ ((i, t) ∷ []) else pions
    ]
  ]

  unfoldable pub pion_node : ℕ → Node fl → List (ℕ × Track fl) → Node fl × List (ℕ × Track fl)
  pion_node i n pions = elim (enough_hits n) [
    | none ↦ (n, pions)
    | some t ↦ let m = with_tof fl parts ev.lm_vertex n in (m, add_pion i m pions)
  ]

  -- phiFirstLoop - psi, where phiFirstLoop is a float
  unfoldable pub delta_phi : Track fl → Track fl → Double
  delta_phi a b = double.sub (to_double (to_float a.psi)) b.psi

  unfoldable pub back_to_back : Track fl → Track fl → Bool
  back_to_back a b =
      double.lt (fabs (double.sub (delta_phi a b) (double.decimal (pos 314) 2)))
        (double.decimal (pos 785) 3)

  abbrev pion_mass : Double
  pion_mass = double.decimal (pos 139) 3

  unfoldable pub is_rho : Track fl → Track fl → Bool
  is_rho a b =
      let mass = invariant_mass fl parts pion_mass a b in
      back_to_back a b
      && double.lt (double.decimal (pos 5) 1) mass
      && double.lt mass (double.of_int (pos 1))

  unfoldable pub rho : ℕ × Track fl → ℕ → Track fl → DiPionPair fl
  rho (i, a) j b =
      let px = sum_px fl parts a b in
      let py = sum_py fl parts a b in
      let pz = sum_pz fl parts a b in
      let pt = sqrt (double.add (pow px 2) (pow py 2)) in
      record {
        dau1_node_sn = i;
        dau2_node_sn = j;
        invariant_mass = to_float (invariant_mass fl parts pion_mass a b);
        pt = to_float pt;
        psi = to_float (atan2 py px);
        tanl = to_float (atan2 pz pt);
        deltphi = to_float (delta_phi a b);
      }

  unfoldable pub rho_with : ℕ × Track fl → ℕ → Node fl → Option (DiPionPair fl)
  rho_with a j n = elim (enough_hits n) [
    | none ↦ none
    | some b ↦ if is_rho a.1 b then some (rho a j b) else none
  ]

  -- The loop over the nodes ends with the first pair.
  unfoldable pub first_rho : ℕ × Track fl → ℕ → List (Node fl) → Option (DiPionPair fl)
  first_rho a j [] = none
  first_rho a j (n ∷ ns) = elim (rho_with a j n) [
    | none ↦ first_rho a (suc j) ns
    | some pair ↦ some pair
  ]

  unfoldable pub rhos :
      List (Node fl) → List (ℕ × Track fl) → Found (DiPionPair fl) → Found (DiPionPair fl)
  rhos nodes [] f = f
  rhos nodes (a ∷ pions) f = elim (first_rho a 0 nodes) [
    | none ↦ rhos nodes pions f
    | some pair ↦ rhos nodes pions (found (trigger_bit fl cuts Trigger.upc_pair) pair f)
  ]

  unfoldable pub upc_pair_body : Decider fl → Decider fl
  upc_pair_body s =
      if is_upc
      then (let (nodes, pions) = scan pion_node 0 s.nodes [] in
          let start : Found (DiPionPair fl) = record { word = 0; bank = s.hlt_upc_rho } in
          let f = rhos nodes pions start in
          let fired = set_word fl Trigger.upc_pair f.word s in
          record fired { nodes = nodes; hlt_upc_rho = f.bank })
      else s

  unfoldable pub decide_upc_pair : Decider fl → Bool × Decider fl
  decide_upc_pair s =
      when_on fl (cuts.trigger_on Trigger.upc_pair) Trigger.upc_pair upc_pair_body
        (record s { hlt_upc_rho = restart s.hlt_upc_rho })
