-- ===== src/Decider/Settled/Pairs.antt =====
-- The same for the decisions by a pair of tracks.
use star_hlt_tofmtd.Prelude.{ℕ, ◌≡◌, refl, inl, inr, List, [], ◌∷◌, Bool-cases, Option-cases}
use star_hlt_tofmtd.Prelude.Int.{pos}
use star_hlt_tofmtd.Floats.{Floats}
use star_hlt_tofmtd.Decider.Types.{Trigger, Event, Parts, Node, Track}
use star_hlt_tofmtd.Decider.Cuts.{Cuts, trigger_bit}
use star_hlt_tofmtd.Decider.State.{Decider, DiElectronPair, DiPionPair, set_word}
use star_hlt_tofmtd.Decider.Tracks.{Found, found}
use star_hlt_tofmtd.Decider.Loops.{scan, for_pairs}
use star_hlt_tofmtd.Decider.Electrons.{Electron, no_electrons, strong_towers}
use star_hlt_tofmtd.Decider.DiElectron.{
  electron_node, upc_electron_node, electron_pair, try_pair, di_electron_body, try_upc_pair,
  upc_found, upc_di_electron_body,
}
use star_hlt_tofmtd.Decider.TwoTower.{two_tower_node, two_tower_pair, try_two_tower, two_tower_body}
use star_hlt_tofmtd.Decider.Upc.{pion_node, rhos, first_rho, is_upc, upc_pair_body}
use star_hlt_tofmtd.Decider.HighTowers.{match_high_tracks, matched_ht2_body}
use star_hlt_tofmtd.Decider.Settled.{Quiet, update_self}
use star_hlt_tofmtd.Decider.Settled.Words.{IsWord, stored_word, for_pairs-IsWord}

module _ (fl : Floats) (parts : Parts fl) (cuts : Cuts fl) (ev : Event fl) where
  try_pair-IsWord :
      (a b : Electron fl) (f : Found (DiElectronPair fl))
      → IsWord (trigger_bit fl cuts Trigger.di_electron) f
      → IsWord (trigger_bit fl cuts Trigger.di_electron) (try_pair fl parts cuts ev a b f)
  unfolding try_pair found
  try_pair-IsWord a b f w =
      elim (Option-cases (electron_pair fl parts cuts ev cuts.electron cuts.electron.p1 a b)) [
        | inl e ↦ rw (e, try_pair) w
        | inr (pair, e) ↦ rw (e, try_pair) (inr refl)
      ]

  pub di_electron_body-Quiet :
      (s : Decider fl) → Quiet fl cuts Trigger.di_electron s (di_electron_body fl parts cuts ev s)
  unfolding di_electron_body set_word
  di_electron_body-Quiet s =
      let start : Found (DiElectronPair fl) = record { word = 0; bank = s.hlt_di_ep } in
      let towers = strong_towers fl parts ev (fl.double.decimal (pos 5) 1) in
      let node = electron_node fl parts cuts ev towers in
      let es = (scan node 0 s.nodes (no_electrons fl)).1 in
      let body = try_pair fl parts cuts ev in
      let f = for_pairs body es.electrons start in
      record {
        same_decision = refl;
        same_called = refl;
        same_succeed = refl;
        word =
            stored_word Trigger.di_electron (trigger_bit fl cuts Trigger.di_electron) s.triggered
              f.word
              (for_pairs-IsWord (trigger_bit fl cuts Trigger.di_electron) body es.electrons start
                try_pair-IsWord refl);
      }

  try_upc_pair-IsWord :
      (k : ℕ) (a b : Electron fl) (f : Found (DiElectronPair fl))
      → IsWord (trigger_bit fl cuts Trigger.upc_di_electron) f
      → IsWord (trigger_bit fl cuts Trigger.upc_di_electron) (try_upc_pair fl parts cuts ev k a b f)
  unfolding try_upc_pair upc_found
  try_upc_pair-IsWord k a b f w =
      elim (Option-cases (electron_pair fl parts cuts ev cuts.upc_electron cuts.electron.p1 a b)) [
        | inl e ↦ rw (e, try_upc_pair) w
        | inr (pair, e) ↦ rw (e, try_upc_pair) (inr refl)
      ]

  pub upc_di_electron_body-Quiet :
      (s : Decider fl)
      → Quiet fl cuts Trigger.upc_di_electron s (upc_di_electron_body fl parts cuts ev s)
  unfolding upc_di_electron_body set_word
  upc_di_electron_body-Quiet s =
      let start : Found (DiElectronPair fl) = record { word = 0; bank = s.hlt_upc_di_ep } in
      let towers = strong_towers fl parts ev (fl.double.decimal (pos 5) 1) in
      let node = upc_electron_node fl parts cuts ev towers in
      let es = (scan node 0 s.nodes (no_electrons fl)).1 in
      let body = try_upc_pair fl parts cuts ev s.hlt_di_ep.count in
      let f = for_pairs body es.electrons start in
      record {
        same_decision = refl;
        same_called = refl;
        same_succeed = refl;
        word =
            stored_word Trigger.upc_di_electron (trigger_bit fl cuts Trigger.upc_di_electron)
              s.triggered f.word
              (for_pairs-IsWord (trigger_bit fl cuts Trigger.upc_di_electron) body es.electrons
                start (try_upc_pair-IsWord s.hlt_di_ep.count) refl);
      }

  try_two_tower-IsWord :
      (a b : Electron fl) (f : Found (DiElectronPair fl))
      → IsWord (trigger_bit fl cuts Trigger.di_electron2_twr) f
      → IsWord (trigger_bit fl cuts Trigger.di_electron2_twr) (try_two_tower fl parts cuts ev a b f)
  unfolding try_two_tower found
  try_two_tower-IsWord a b f w = elim (Option-cases (two_tower_pair fl parts cuts ev a b)) [
    | inl e ↦ rw (e, try_two_tower) w
    | inr (pair, e) ↦ rw (e, try_two_tower) (inr refl)
  ]

  pub two_tower_body-Quiet :
      (s : Decider fl)
      → Quiet fl cuts Trigger.di_electron2_twr s (two_tower_body fl parts cuts ev s)
  unfolding two_tower_body set_word
  two_tower_body-Quiet s =
      let start : Found (DiElectronPair fl) = record { word = 0; bank = s.hlt_di_ep2_twr } in
      let towers = strong_towers fl parts ev (fl.to_double cuts.two_tower.tower_energy) in
      let node = two_tower_node fl parts cuts ev towers in
      let es = (scan node 0 s.nodes (no_electrons fl)).1 in
      let body = try_two_tower fl parts cuts ev in
      let f = for_pairs body es.electrons start in
      record {
        same_decision = refl;
        same_called = refl;
        same_succeed = refl;
        word =
            stored_word Trigger.di_electron2_twr (trigger_bit fl cuts Trigger.di_electron2_twr)
              s.triggered f.word
              (for_pairs-IsWord (trigger_bit fl cuts Trigger.di_electron2_twr) body es.electrons
                start try_two_tower-IsWord refl);
      }

  rhos-IsWord :
      (nodes : List (Node fl)) (pions : List (ℕ × Track fl)) (f : Found (DiPionPair fl))
      → IsWord (trigger_bit fl cuts Trigger.upc_pair) f
      → IsWord (trigger_bit fl cuts Trigger.upc_pair) (rhos fl parts cuts ev nodes pions f)
  unfolding rhos found
  rhos-IsWord nodes [] f w = w
  rhos-IsWord nodes (a ∷ pions) f w = elim (Option-cases (first_rho fl parts cuts ev a 0 nodes)) [
    | inl e ↦ rw (e, rhos) (rhos-IsWord nodes pions f w)
    | inr (pair, e) ↦
        let more = found (trigger_bit fl cuts Trigger.upc_pair) pair f in
        rw (e, rhos) (rhos-IsWord nodes pions more (inr refl))
  ]

  pub upc_pair_body-Quiet :
      (s : Decider fl)
      → s.triggered Trigger.upc_pair ≡ 0
      → Quiet fl cuts Trigger.upc_pair s (upc_pair_body fl parts cuts ev s)
  unfolding upc_pair_body set_word
  upc_pair_body-Quiet s none_set =
      let r = scan (pion_node fl parts cuts ev) 0 s.nodes [] in
      let start : Found (DiPionPair fl) = record { word = 0; bank = s.hlt_upc_rho } in
      let f = rhos fl parts cuts ev r.0 r.1 start in
      elim (Bool-cases (is_upc fl parts cuts ev)) [
        | inl e ↦ rw e record {
          same_decision = refl;
          same_called = refl;
          same_succeed = refl;
          word =
              stored_word Trigger.upc_pair (trigger_bit fl cuts Trigger.upc_pair) s.triggered f.word
                (rhos-IsWord r.0 r.1 start (inl refl));
        }
        | inr e ↦ rw e record {
          same_decision = refl;
          same_called = refl;
          same_succeed = refl;
          word = inl none_set;
        }
      ]

  pub matched_ht2_body-Quiet :
      (s : Decider fl)
      → s.triggered Trigger.matched_ht2 ≡ 0
      → Quiet fl cuts Trigger.matched_ht2 s (matched_ht2_body fl parts cuts ev s)
  unfolding matched_ht2_body set_word
  matched_ht2_body-Quiet s none_set =
      elim (Option-cases (match_high_tracks fl parts cuts ev s).trigger_track) [
        | inl e ↦
            rw (e, matched_ht2_body)
              record {
                same_decision = refl;
                same_called = refl;
                same_succeed = refl;
                word = inl none_set;
              }
        | inr (t, e) ↦
            rw (e, matched_ht2_body)
              record {
                same_decision = refl;
                same_called = refl;
                same_succeed = refl;
                word = inr (
                    update_self Trigger.matched_ht2 s.triggered
                      (trigger_bit fl cuts Trigger.matched_ht2));
              }
      ]
