-- ===== src/Decider/Gathered/Rhos.antt =====
-- The pairs that decide_UPCPair records.
use star_hlt_tofmtd.Prelude.{
  ℕ, suc, ◌≤◌, ◌≡◌, ◌≢◌, refl, sym, ap, ◌∙◌, true, inl, inr, List, [], ◌∷◌, ◌++◌, map, Option, none,
  some, if◌then◌else◌, Option-cases, Bool-cases, length, arith,
}
use star_hlt_tofmtd.Floats.{Floats}
use star_hlt_tofmtd.Decider.Types.{Trigger, Event, Parts, Node, Track}
use star_hlt_tofmtd.Decider.Cuts.{Cuts, trigger_bit}
use star_hlt_tofmtd.Decider.State.{
  Bank, Decider, DiPionPair, entries, restart, set_word, count_call,
}
use star_hlt_tofmtd.Decider.State.Entries.{
  append_assoc, append-nil, push_all, entries-push_all-restart,
}
use star_hlt_tofmtd.Decider.Loops.{scan, numbered}
use star_hlt_tofmtd.Decider.Match.{with_tof}
use star_hlt_tofmtd.Decider.Simple.{when_on}
use star_hlt_tofmtd.Decider.Tracks.{Found, found}
use star_hlt_tofmtd.Decider.Upc.{
  pion_node, add_pion, enough_hits, is_pion, is_rho, rho, rho_with, rhos, first_rho, is_upc,
  upc_pair_body, decide_upc_pair,
}
use star_hlt_tofmtd.Decider.Settled.{settle-same, settle_answer, update_self}
use star_hlt_tofmtd.Decider.Gathered.{any, keep, find_all, find_all-bank, find_all-word}

-- The first item of a list, and the list of an item that may be there.
unfoldable pub first_item : {A : Type 0} → List A → Option A
first_item [] = none
first_item (x ∷ xs) = some x

abbrev as_list : {A : Type 0} → Option A → List A
as_list none = []
as_list (some x) = x ∷ []

module _ {A B : Type 0} where
  keep-cons :
      (pick : A → Option B) (x : A) (xs : List A)
      → keep pick (x ∷ xs) ≡ as_list (pick x) ++ keep pick xs
  unfolding keep
  keep-cons pick x xs = elim (Option-cases (pick x)) [
    | inl e ↦ rw (e, keep) refl
    | inr (y, e) ↦ rw (e, keep) refl
  ]

  length-keep_le : (pick : A → Option B) (xs : List A) → length (keep pick xs) ≤ length xs
  unfolding keep
  length-keep_le pick [] = omega arith
  length-keep_le pick (x ∷ xs) =
      let rest = length-keep_le pick xs in
      elim (Option-cases (pick x)) [
        | inl e ↦ rw (e, keep) (omega arith)
        | inr (y, e) ↦ rw (e, keep) (omega arith)
      ]

module _ (fl : Floats) (parts : Parts fl) (cuts : Cuts fl) (ev : Event fl) where
  rhos-find_all :
      (nodes : List (Node fl)) (pions : List (ℕ × Track fl)) (f : Found (DiPionPair fl))
      → rhos fl parts cuts ev nodes pions f
        ≡ find_all
            (trigger_bit fl cuts Trigger.upc_pair)
            (keep (λ a. first_rho fl parts cuts ev a 0 nodes) pions)
            f
  unfolding rhos keep find_all
  rhos-find_all nodes [] f = refl
  rhos-find_all nodes (a ∷ pions) f = elim (Option-cases (first_rho fl parts cuts ev a 0 nodes)) [
    | inl e ↦ rw (e, rhos, keep) (rhos-find_all nodes pions f)
    | inr (pair, e) ↦
        rw (e, rhos, keep)
          (rhos-find_all nodes pions (found (trigger_bit fl cuts Trigger.upc_pair) pair f))
  ]

  -- A node after the first loop: its track is matched to the TOF if it has the hits.
  unfoldable pub matched : Node fl → Node fl
  matched n = elim (enough_hits fl parts cuts ev n) [
    | none ↦ n
    | some t ↦ with_tof fl parts ev.lm_vertex n
  ]

  -- The pion of a matched node: a track with a cell of the TOF and the dE/dx of a pion.
  unfoldable pub tof_pion : ℕ → Node fl → Option (ℕ × Track fl)
  tof_pion i m = elim m.primarytof_cell [
    | none ↦ none
    | some k ↦ elim m.primary_track [
      | none ↦ none
      | some u ↦ if is_pion fl parts cuts ev u then some (i, u) else none
    ]
  ]

  -- A node is a pion if its track has the hits and, once matched, is one.
  unfoldable pub pick_pion : ℕ × Node fl → Option (ℕ × Track fl)
  pick_pion (i, n) = elim (enough_hits fl parts cuts ev n) [
    | none ↦ none
    | some t ↦ tof_pion i (with_tof fl parts ev.lm_vertex n)
  ]

  -- The pions of the event with their numbers.
  abbrev pub pions_of : List (Node fl) → List (ℕ × Track fl)
  pions_of nodes = keep pick_pion (numbered 0 nodes)

  -- The pair of a pion with node j, if the track there has the hits and the two make a rho.
  unfoldable pub pick_rho : ℕ × Track fl → ℕ × Node fl → Option (DiPionPair fl)
  pick_rho (i, a) (j, n) = elim (enough_hits fl parts cuts ev n) [
    | none ↦ none
    | some b ↦ if is_rho fl parts cuts ev a b then some (rho fl parts cuts ev (i, a) j b) else none
  ]

  -- All rhos of a pion, in the order of the nodes.
  abbrev pub rhos_of : List (Node fl) → ℕ × Track fl → List (DiPionPair fl)
  rhos_of nodes a = keep (pick_rho a) (numbered 0 nodes)

  -- For each pion that has rhos the first of them.
  abbrev pub rho_list : List (Node fl) → List (DiPionPair fl)
  rho_list nodes = keep (λ a. first_item (rhos_of (map matched nodes) a)) (pions_of nodes)

  add_pion-picked :
      (i : ℕ) (m : Node fl) (pions : List (ℕ × Track fl))
      → add_pion fl parts cuts ev i m pions ≡ pions ++ as_list (tof_pion i m)
  unfolding add_pion tof_pion
  add_pion-picked i m pions =
      let left : pions ≡ pions ++ [] = sym (append-nil pions) in
      elim (Option-cases m.primarytof_cell) [
        | inl c ↦ rw (c, add_pion, tof_pion) left
        | inr (k, c) ↦ elim (Option-cases m.primary_track) [
          | inl p ↦ rw (c, add_pion, tof_pion, p) left
          | inr (u, p) ↦ elim (Bool-cases (is_pion fl parts cuts ev u)) [
            | inl y ↦ rw (c, add_pion, tof_pion, p, y) refl
            | inr y ↦ rw (c, add_pion, tof_pion, p, y) left
          ]
        ]
      ]

  pion_node-picked :
      (i : ℕ) (n : Node fl) (pions : List (ℕ × Track fl))
      → pion_node fl parts cuts ev i n pions ≡ (matched n, pions ++ as_list (pick_pion (i, n)))
  unfolding pion_node matched pick_pion
  pion_node-picked i n pions = elim (Option-cases (enough_hits fl parts cuts ev n)) [
    | inl e ↦
        rw (e, pion_node, matched, pick_pion)
          (ap (λ (ps : List (ℕ × Track fl)). (n, ps)) (sym (append-nil pions)))
    | inr (t, e) ↦
        let m = with_tof fl parts ev.lm_vertex n in
        rw (e, pion_node, matched, pick_pion)
          (ap (λ (ps : List (ℕ × Track fl)). (m, ps)) (add_pion-picked i m pions))
  ]

  scan-pions :
      (i : ℕ) (ns : List (Node fl)) (pions : List (ℕ × Track fl))
      → scan (pion_node fl parts cuts ev) i ns pions
        ≡ (map matched ns, pions ++ keep pick_pion (numbered i ns))
  unfolding scan numbered
  scan-pions i [] pions =
      unfold keep in ap (λ (ps : List (ℕ × Track fl)). ([], ps)) (sym (append-nil pions))
  scan-pions i (n ∷ ns) pions =
      let here = as_list (pick_pion (i, n)) in
      let there = keep pick_pion (numbered (suc i) ns) in
      let all : pions ++ keep pick_pion ((i, n) ∷ numbered (suc i) ns) ≡ (pions ++ here) ++ there =
        ap (λ (ps : List (ℕ × Track fl)). pions ++ ps)
          (keep-cons pick_pion (i, n) (numbered (suc i) ns))
        ∙ sym (append_assoc pions here there) in
      rw (pion_node-picked i n pions, scan)
        (rw (scan-pions (suc i) ns (pions ++ here)) (rw all refl))

  first_rho-first :
      (a : ℕ × Track fl) (j : ℕ) (ns : List (Node fl))
      → first_rho fl parts cuts ev a j ns ≡ first_item (keep (pick_rho a) (numbered j ns))
  unfolding first_rho rho_with pick_rho keep numbered first_item
  first_rho-first a j [] = refl
  first_rho-first a j (n ∷ ns) = elim (Option-cases (enough_hits fl parts cuts ev n)) [
    | inl e ↦ rw (e, first_rho, keep) (first_rho-first a (suc j) ns)
    | inr (b, e) ↦ elim (Bool-cases (is_rho fl parts cuts ev a.1 b)) [
      | inl y ↦ rw (e, first_rho, keep, y) refl
      | inr y ↦ rw (e, first_rho, keep, y) (first_rho-first a (suc j) ns)
    ]
  ]

  keep-rhos :
      (nodes : List (Node fl)) (pions : List (ℕ × Track fl))
      → keep (λ a. first_rho fl parts cuts ev a 0 nodes) pions
        ≡ keep (λ a. first_item (rhos_of nodes a)) pions
  unfolding keep
  keep-rhos nodes [] = refl
  keep-rhos nodes (a ∷ pions) =
      keep-cons (λ b. first_rho fl parts cuts ev b 0 nodes) a pions
      ∙ rw (first_rho-first a 0 nodes) (
          ap (λ (ps : List (DiPionPair fl)). as_list (first_item (rhos_of nodes a)) ++ ps)
            (keep-rhos nodes pions))
      ∙ sym (keep-cons (λ b. first_item (rhos_of nodes b)) a pions)

  -- With the trigger on, a bit for it, a vertex and a number of tracks that pass, and at most 1000 pions, the
  -- entries of the bank are, for each pion that makes a rho with any node, the first one in the order of
  -- the nodes; no write goes past an array; the nodes are left matched to the TOF where they have the
  -- hits; and the answer is `true` exactly when there is an entry.
  pub decide_upc_pair-entries :
      (s : Decider fl)
      → cuts.trigger_on Trigger.upc_pair ≡ true
      → trigger_bit fl cuts Trigger.upc_pair ≢ 0
      → is_upc fl parts cuts ev ≡ true
      → length (pions_of s.nodes) ≤ 1000
      → let r = decide_upc_pair fl parts cuts ev s in
        (entries r.1.hlt_upc_rho ≡ map (λ p. some p) (rho_list s.nodes))
        × (r.1.hlt_upc_rho.overrun ≡ s.hlt_upc_rho.overrun)
        × (r.1.nodes ≡ map matched s.nodes)
        × (r.0 ≡ any (rho_list s.nodes))
  unfolding decide_upc_pair when_on set_word count_call upc_pair_body
  decide_upc_pair-entries s on has_bit upc room =
      let t = Trigger.upc_pair in
      let blank : Decider fl = record s { hlt_upc_rho = restart s.hlt_upc_rho } in
      let start : Found (DiPionPair fl) = record { word = 0; bank = restart s.hlt_upc_rho } in
      let nodes = map matched s.nodes in
      let pions = pions_of s.nodes in
      let picked = rho_list s.nodes in
      let all =
        rhos-find_all nodes pions start
        ∙ ap (λ (ps : List (DiPionPair fl)). find_all (trigger_bit fl cuts t) ps start)
            (keep-rhos nodes pions) in
      let f = rhos fl parts cuts ev nodes pions start in
      let called = count_call fl t (set_word fl t 0 blank) in
      let fired = set_word fl t f.word called in
      let last : Decider fl = record fired { nodes = nodes; hlt_upc_rho = f.bank } in
      let word : last.triggered t ≡ (if any picked then trigger_bit fl cuts t else 0) =
        update_self t _ _
        ∙ ap (λ (g : Found (DiPionPair fl)). g.word) all
        ∙ find_all-word _ picked start refl in
      let bank : last.hlt_upc_rho ≡ push_all picked (restart s.hlt_upc_rho) =
        ap (λ (g : Found (DiPionPair fl)). g.bank) all ∙ find_all-bank _ picked start in
      let fits = length-keep_le (λ a. first_item (rhos_of nodes a)) pions in
      let (listed, inside) = entries-push_all-restart picked s.hlt_upc_rho (omega arith) in
      let kept = settle-same fl (λ d. d.hlt_upc_rho) t last (λ d n. refl) ∙ bank in
      rw (on, upc, scan-pions 0 s.nodes [])
        (
          ap entries kept ∙ listed,
          ap (λ (b : Bank (DiPionPair fl)). b.overrun) kept ∙ inside,
          settle-same fl (λ d. d.nodes) t last (λ d n. refl),
          settle_answer fl cuts t last _ word has_bit,
        )
