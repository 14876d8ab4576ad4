-- ===== src/Decider/Gathered/HighPt.antt =====
-- What decide_HighPt records.
use star_hlt_tofmtd.Prelude.{
  ◌≤◌, length, ℕ, suc, ◌≡◌, ◌≢◌, refl, ap, ◌∙◌, Bool, true, inl, inr, List, [], ◌∷◌, map, some,
  if◌then◌else◌, Bool-cases,
}
use star_hlt_tofmtd.Floats.{Floats}
use star_hlt_tofmtd.Decider.Types.{Trigger, Event, Parts, Node}
use star_hlt_tofmtd.Decider.Cuts.{Cuts, trigger_bit}
use star_hlt_tofmtd.Decider.State.{Bank, Decider, entries, restart, set_word, count_call}
use star_hlt_tofmtd.Decider.State.Entries.{push_all, entries-push_all-restart}
use star_hlt_tofmtd.Decider.Loops.{scan}
use star_hlt_tofmtd.Decider.Simple.{when_on}
use star_hlt_tofmtd.Decider.Tracks.{
  Found, found, passes_high_pt, high_pt_node, high_pt_body, decide_high_pt,
}
use star_hlt_tofmtd.Decider.Settled.{settle-same, settle_answer, update_self}
use star_hlt_tofmtd.Decider.Gathered.{any, find_all, find_all-bank, find_all-word}

-- The numbers of the items that pass a test, counted from i.
unfoldable pub positions : {A : Type 0} → (A → Bool) → ℕ → List A → List ℕ
positions test i [] = []
positions test i (x ∷ xs) =
    let rest = positions test (suc i) xs in if test x then i ∷ rest else rest

module _ (fl : Floats) (parts : Parts fl) (cuts : Cuts fl) (ev : Event fl) where
  abbrev passing : List (Node fl) → List ℕ
  passing nodes = positions (passes_high_pt fl parts cuts ev) 0 nodes

  scan-positions :
      (i : ℕ) (ns : List (Node fl)) (f : Found ℕ)
      → (scan (high_pt_node fl parts cuts ev) i ns f).1
        ≡ find_all
            (trigger_bit fl cuts Trigger.high_pt)
            (positions (passes_high_pt fl parts cuts ev) i ns)
            f
  unfolding scan high_pt_node positions find_all
  scan-positions i [] f = refl
  scan-positions i (n ∷ ns) f = elim (Bool-cases (passes_high_pt fl parts cuts ev n)) [
    | inl e ↦
        rw (e, scan, high_pt_node)
          (scan-positions (suc i) ns (found (trigger_bit fl cuts Trigger.high_pt) i f))
    | inr e ↦ rw (e, scan, high_pt_node) (scan-positions (suc i) ns f)
  ]

  -- With the trigger on, a bit for it, and at most 1000 nodes that pass the cuts, the entries of the bank are
  -- the numbers of these nodes, in order and each once, no write goes past its array, and the answer is
  -- `true` exactly when there is one; in any state.
  pub decide_high_pt-entries :
      (s : Decider fl)
      → cuts.trigger_on Trigger.high_pt ≡ true
      → trigger_bit fl cuts Trigger.high_pt ≢ 0
      → length (passing s.nodes) ≤ 1000
      → let r = decide_high_pt fl parts cuts ev s in
        (entries r.1.hlt_hi_pt ≡ map (λ i. some i) (passing s.nodes))
        × (r.1.hlt_hi_pt.overrun ≡ s.hlt_hi_pt.overrun)
        × (r.0 ≡ any (passing s.nodes))
  unfolding decide_high_pt when_on set_word count_call high_pt_body
  decide_high_pt-entries s on has_bit room =
      let t = Trigger.high_pt in
      let start : Found ℕ = record { word = 0; bank = restart s.hlt_hi_pt } in
      let all = scan-positions 0 s.nodes start in
      let blank : Decider fl = record s { hlt_hi_pt = restart s.hlt_hi_pt } in
      let last = high_pt_body fl parts cuts ev (count_call fl t (set_word fl t 0 blank)) in
      let word : last.triggered t ≡ (if any (passing s.nodes) then trigger_bit fl cuts t else 0) =
        update_self t _ _ ∙ ap (λ (f : Found ℕ). f.word) all ∙ find_all-word _ _ start refl in
      let bank : last.hlt_hi_pt ≡ push_all (passing s.nodes) (restart s.hlt_hi_pt) =
        ap (λ (f : Found ℕ). f.bank) all ∙ find_all-bank _ _ start in
      let kept = settle-same fl (λ d. d.hlt_hi_pt) t last (λ d n. refl) ∙ bank in
      let (listed, inside) = entries-push_all-restart (passing s.nodes) s.hlt_hi_pt room in
      rw on (
        ap entries kept ∙ listed,
        ap (λ (b : Bank ℕ). b.overrun) kept ∙ inside,
        settle_answer fl cuts t last _ word has_bit,
      )
