-- ===== src/Decider/Gathered/Bounds.antt =====
-- The array of electrons.
use star_hlt_tofmtd.Prelude.{
  ℕ, ◌≤◌, ◌≢◌, inl, inr, List, [], ◌∷◌, ◌==◌, ltb, length, length-append, All, All-append,
  Bool-cases, Option-cases, arith, tests,
}
use star_hlt_tofmtd.Floats.{Floats}
use star_hlt_tofmtd.Decider.Types.{Event, Parts, Node, Tower, Track}
use star_hlt_tofmtd.Decider.Cuts.{Cuts}
use star_hlt_tofmtd.Decider.Loops.Kept.{scan-keeps}
use star_hlt_tofmtd.Decider.Electrons.{Electron, Electrons, no_electrons, add_electron, candidate}
use star_hlt_tofmtd.Decider.DiElectron.{electron_node}
use star_hlt_tofmtd.Decider.TwoTower.{two_tower_node, two_tower_candidate}
use star_hlt_tofmtd.Decider.Gathered.Pairs.{di_electron_electrons, two_tower_electrons}

module _ (fl : Floats) where
  -- An electron that passed one of its selections.
  pub IsSelected : Electron fl → Type 0
  IsSelected e = e.selection_bits ≢ 0

  -- The array has room for its electrons, and each of them was selected.
  abbrev pub Fits : Electrons fl → Type 0
  Fits es = (length es.electrons ≤ 1000) × All IsSelected es.electrons

  add_electron-Fits :
      (i : ℕ) (t : Track fl) (bits : ℕ) (es : Electrons fl)
      → Fits es
      → Fits (add_electron fl i t bits es)
  unfolding add_electron IsSelected
  add_electron-Fits i t bits es (le, all) = elim (Bool-cases (bits == 0)) [
    | inl e ↦ rw e (le, all)
    | inr e ↦ elim (Bool-cases (ltb (length es.electrons) 1000)) [
      | inr full ↦ rw (e, full) (le, all)
      | inl room ↦
          let new : Electron fl = record { sn = i; track = t; selection_bits = bits } in
          rw (e, room)
            (
              omega (tests, length-append es.electrons (new ∷ []), room),
              All-append IsSelected es.electrons (new ∷ []) all ((λ z. ground (arith, e, z)), tt),
            )
    ]
  ]

module _ (fl : Floats) (parts : Parts fl) (cuts : Cuts fl) (ev : Event fl) where
  electron_node-Fits :
      (towers : List (ℕ × Tower fl)) (i : ℕ) (n : Node fl) (es : Electrons fl)
      → Fits fl es
      → Fits fl (electron_node fl parts cuts ev towers i n es).1
  unfolding electron_node
  electron_node-Fits towers i n es ok = elim (Bool-cases es.full) [
    | inl e ↦ rw (e, electron_node) ok
    | inr e ↦ elim (Option-cases (candidate fl parts ev cuts.electron n)) [
      | inl c ↦ rw (e, electron_node, c) ok
      | inr (t, c) ↦ rw (e, electron_node, c) (add_electron-Fits fl i _ _ es ok)
    ]
  ]

  two_tower_node-Fits :
      (towers : List (ℕ × Tower fl)) (i : ℕ) (n : Node fl) (es : Electrons fl)
      → Fits fl es
      → Fits fl (two_tower_node fl parts cuts ev towers i n es).1
  unfolding two_tower_node
  two_tower_node-Fits towers i n es ok = elim (Bool-cases es.full) [
    | inl e ↦ rw (e, two_tower_node) ok
    | inr e ↦ elim (Option-cases (two_tower_candidate fl parts cuts ev n)) [
      | inl c ↦ rw (e, two_tower_node, c) ok
      | inr (t, c) ↦ rw (e, two_tower_node, c) (add_electron-Fits fl i _ _ es ok)
    ]
  ]

  -- However many tracks the event has, the arrays of electrons of decide_DiElectron and of
  -- decide_DiElectron2Twr stay within their 1000 entries, and each entry was selected by at least one
  -- of the detectors.
  pub electrons_fit :
      (nodes : List (Node fl))
      → ((length (di_electron_electrons fl parts cuts ev nodes) ≤ 1000)
          × All (IsSelected fl) (di_electron_electrons fl parts cuts ev nodes))
        × ((length (two_tower_electrons fl parts cuts ev nodes) ≤ 1000)
            × All (IsSelected fl) (two_tower_electrons fl parts cuts ev nodes))
  unfolding di_electron_electrons two_tower_electrons no_electrons
  electrons_fit nodes =
      let none_yet : Fits fl (no_electrons fl) = (omega arith, tt) in
      (
        scan-keeps {P = Fits fl} (electron_node fl parts cuts ev _) 0 nodes (no_electrons fl)
            (electron_node-Fits _) none_yet,
        scan-keeps {P = Fits fl} (two_tower_node fl parts cuts ev _) 0 nodes (no_electrons fl)
            (two_tower_node-Fits _) none_yet,
      )
