-- ===== src/Decider/Gathered/Pairs.antt =====
-- The pairs that decide_DiElectron, decide_DiElectron2Twr and decide_MTDQuarkonium record.
use star_hlt_tofmtd.Prelude.{
  ◌≤◌, length, Bool, ◌||◌, false, ℕ, ◌≡◌, ◌≢◌, refl, ap, ◌∙◌, true, inl, inr, List, map, Option,
  none, some, if◌then◌else◌, Bool-cases,
}
use star_hlt_tofmtd.Prelude.Int.{pos}
use star_hlt_tofmtd.Floats.{Floats}
use star_hlt_tofmtd.Mtd.Hits.{MtdHit}
use star_hlt_tofmtd.Decider.Types.{Trigger, Event, Parts, Node, Track}
use star_hlt_tofmtd.Decider.Cuts.{Cuts, trigger_bit}
use star_hlt_tofmtd.Decider.State.{
  Bank, bank_size, Decider, DiElectronPair, MuonPair, entries, restart, set_word, count_call,
}
use star_hlt_tofmtd.Decider.State.Entries.{entries-push_all-restart}
use star_hlt_tofmtd.Decider.Loops.{scan, for_pairs}
use star_hlt_tofmtd.Decider.Simple.{when_on}
use star_hlt_tofmtd.Decider.Tracks.{Found}
use star_hlt_tofmtd.Decider.Muons.{
  muon_list, reads_bad_track, is_quarkonium, muon_pair, try_muons, quarkonium_body, muon_event,
  decide_mtd_quarkonium,
}
use star_hlt_tofmtd.Decider.Electrons.{Electron, no_electrons, strong_towers}
use star_hlt_tofmtd.Decider.DiElectron.{
  electron_node, electron_pair, try_pair, di_electron_body, decide_di_electron,
}
use star_hlt_tofmtd.Decider.TwoTower.{
  two_tower_node, two_tower_pair, try_two_tower, two_tower_body, decide_di_electron2_twr,
}
use star_hlt_tofmtd.Decider.Settled.{settle-same, settle_answer, update_self}
use star_hlt_tofmtd.Decider.Gathered.{
  any, keep, pairs_of, find_all-bank, find_all-word, take_in, for_pairs-find_all,
}

or_false : (b : Bool) → (b || false) ≡ b
or_false true = refl
or_false false = refl

module _ {A S : Type 0} where
  -- From an empty bank the loops leave the picked pairs as the entries, and the bit if there is one.
  pairs_entries :
      (bit : ℕ) (pick : A × A → Option S) (body : A → A → Found S → Found S)
      → ((a b : A) (f : Found S) → body a b f ≡ take_in bit (pick (a, b)) f)
      → (xs : List A) (b : Bank S) → length (keep pick (pairs_of xs)) ≤ bank_size
      → let f = for_pairs body xs (record { word = 0; bank = restart b }) in
        let picked = keep pick (pairs_of xs) in
        (entries f.bank ≡ map (λ p. some p) picked)
        × (f.bank.overrun ≡ b.overrun)
        × (f.word ≡ (if any picked then bit else 0))
  pairs_entries bit pick body same xs b room =
      let start : Found S = record { word = 0; bank = restart b } in
      let picked = keep pick (pairs_of xs) in
      let all = for_pairs-find_all bit pick body same xs start in
      let bank = ap (λ (f : Found S). f.bank) all ∙ find_all-bank bit picked start in
      let (listed, inside) = entries-push_all-restart picked b room in
      (
        ap entries bank ∙ listed,
        ap (λ (c : Bank S). c.overrun) bank ∙ inside,
        ap (λ (f : Found S). f.word) all ∙ find_all-word bit picked start refl,
      )

module _ (fl : Floats) (parts : Parts fl) (cuts : Cuts fl) (ev : Event fl) where
  -- The electrons of the first loop.
  unfoldable pub di_electron_electrons : List (Node fl) → List (Electron fl)
  di_electron_electrons nodes =
      let towers = strong_towers fl parts ev (fl.double.decimal (pos 5) 1) in
      (scan (electron_node fl parts cuts ev towers) 0 nodes (no_electrons fl)).1.electrons

  abbrev pub di_electron_pairs : List (Node fl) → List (DiElectronPair fl)
  di_electron_pairs nodes =
      keep
        (λ (e : Electron fl × Electron fl).
          electron_pair fl parts cuts ev cuts.electron cuts.electron.p1 e.0 e.1)
        (pairs_of (di_electron_electrons nodes))

  -- With the trigger on, a bit for it, and at most 1000 pairs that pass the cuts, the entries of the bank are
  -- these pairs, each two electrons once, in the order of the two loops, no write goes past its array, and
  -- the answer is `true` exactly when there is one.
  pub decide_di_electron-entries :
      (s : Decider fl)
      → cuts.trigger_on Trigger.di_electron ≡ true
      → trigger_bit fl cuts Trigger.di_electron ≢ 0
      → length (di_electron_pairs s.nodes) ≤ 1000
      → let r = decide_di_electron fl parts cuts ev s in
        (entries r.1.hlt_di_ep ≡ map (λ p. some p) (di_electron_pairs s.nodes))
        × (r.1.hlt_di_ep.overrun ≡ s.hlt_di_ep.overrun)
        × (r.0 ≡ any (di_electron_pairs s.nodes))
  unfolding decide_di_electron when_on set_word count_call di_electron_body di_electron_electrons
      try_pair take_in
  decide_di_electron-entries s on has_bit room =
      let t = Trigger.di_electron in
      let blank : Decider fl = record s { hlt_di_ep = restart s.hlt_di_ep } in
      let last = di_electron_body fl parts cuts ev (count_call fl t (set_word fl t 0 blank)) in
      let (banked, inside, word) =
        pairs_entries (trigger_bit fl cuts t)
          (λ (e : Electron fl × Electron fl).
            electron_pair fl parts cuts ev cuts.electron cuts.electron.p1 e.0 e.1)
          (try_pair fl parts cuts ev) (λ a b f. refl) (di_electron_electrons s.nodes) s.hlt_di_ep
          room in
      let stored : last.triggered t
          ≡ (if any (di_electron_pairs s.nodes) then trigger_bit fl cuts t else 0) =
        update_self t _ _ ∙ word in
      rw on (
        ap entries (settle-same fl (λ d. d.hlt_di_ep) t last (λ d n. refl)) ∙ banked,
        ap (λ (b : Bank (DiElectronPair fl)). b.overrun)
              (settle-same fl (λ d. d.hlt_di_ep) t last (λ d n. refl))
            ∙ inside,
        settle_answer fl cuts t last _ stored has_bit,
      )

  -- The electrons of the first loop.
  unfoldable pub two_tower_electrons : List (Node fl) → List (Electron fl)
  two_tower_electrons nodes =
      let towers = strong_towers fl parts ev (fl.to_double cuts.two_tower.tower_energy) in
      (scan (two_tower_node fl parts cuts ev towers) 0 nodes (no_electrons fl)).1.electrons

  abbrev pub two_tower_pairs : List (Node fl) → List (DiElectronPair fl)
  two_tower_pairs nodes =
      keep (λ (e : Electron fl × Electron fl). two_tower_pair fl parts cuts ev e.0 e.1)
        (pairs_of (two_tower_electrons nodes))

  -- With the trigger on, a bit for it, and at most 1000 pairs that pass the cuts of DiElectron2Twr, the entries
  -- of the bank are these pairs, each two electrons once, in the order of the loops, no write goes past its
  -- array, and the answer is `true` exactly when there is one.
  pub decide_two_tower-entries :
      (s : Decider fl)
      → cuts.trigger_on Trigger.di_electron2_twr ≡ true
      → trigger_bit fl cuts Trigger.di_electron2_twr ≢ 0
      → length (two_tower_pairs s.nodes) ≤ 1000
      → let r = decide_di_electron2_twr fl parts cuts ev s in
        (entries r.1.hlt_di_ep2_twr ≡ map (λ p. some p) (two_tower_pairs s.nodes))
        × (r.1.hlt_di_ep2_twr.overrun ≡ s.hlt_di_ep2_twr.overrun)
        × (r.0 ≡ any (two_tower_pairs s.nodes))
  unfolding decide_di_electron2_twr when_on set_word count_call two_tower_body two_tower_electrons
      try_two_tower take_in
  decide_two_tower-entries s on has_bit room =
      let t = Trigger.di_electron2_twr in
      let blank : Decider fl = record s { hlt_di_ep2_twr = restart s.hlt_di_ep2_twr } in
      let last = two_tower_body fl parts cuts ev (count_call fl t (set_word fl t 0 blank)) in
      let (banked, inside, word) =
        pairs_entries (trigger_bit fl cuts t)
          (λ (e : Electron fl × Electron fl). two_tower_pair fl parts cuts ev e.0 e.1)
          (try_two_tower fl parts cuts ev) (λ a b f. refl) (two_tower_electrons s.nodes)
          s.hlt_di_ep2_twr room in
      let stored : last.triggered t
          ≡ (if any (two_tower_pairs s.nodes) then trigger_bit fl cuts t else 0) =
        update_self t _ _ ∙ word in
      rw on (
        ap entries (settle-same fl (λ d. d.hlt_di_ep2_twr) t last (λ d n. refl)) ∙ banked,
        ap (λ (b : Bank (DiElectronPair fl)). b.overrun)
              (settle-same fl (λ d. d.hlt_di_ep2_twr) t last (λ d n. refl))
            ∙ inside,
        settle_answer fl cuts t last _ stored has_bit,
      )

  unfoldable pub pick_muons : (ℕ × Track fl) × (ℕ × Track fl) → Option (MuonPair fl)
  pick_muons (a, b) =
      if is_quarkonium fl parts cuts ev a.1 b.1 then some (muon_pair fl parts cuts ev a b) else none

  abbrev pub muon_pairs : List (Node fl) → List (MtdHit fl) → List (MuonPair fl)
  muon_pairs nodes hits = keep pick_muons (pairs_of (muon_list fl parts cuts ev nodes hits))

  try_muons-take_in :
      (a b : ℕ × Track fl) (f : Found (MuonPair fl))
      → try_muons fl parts cuts ev a b f
        ≡ take_in (trigger_bit fl cuts Trigger.mtd_quarkonium) (pick_muons (a, b)) f
  unfolding try_muons take_in pick_muons
  try_muons-take_in a b f = elim (Bool-cases (is_quarkonium fl parts cuts ev a.1 b.1)) [
    | inl e ↦ rw e refl
    | inr e ↦ rw e refl
  ]

  -- With the trigger on, a bit for it, the hits of the event there, the track of each of its muon hits
  -- there, and at most 1000 pairs of muons that pass the cuts, the entries of the bank are these pairs, each
  -- two hits once, in the order of the loops, no read or write goes past an array, and the answer is `true`
  -- exactly when there is one.
  pub decide_mtd_quarkonium-entries :
      (s : Decider fl) (hits : List (MtdHit fl))
      → cuts.trigger_on Trigger.mtd_quarkonium ≡ true
      → trigger_bit fl cuts Trigger.mtd_quarkonium ≢ 0
      → length (muon_pairs s.nodes hits) ≤ 1000
      → muon_event fl parts cuts ev ≡ some hits
      → reads_bad_track fl parts cuts ev s.nodes hits ≡ false
      → let r = decide_mtd_quarkonium fl parts cuts ev s in
        (entries r.1.hlt_mtd_qkn ≡ map (λ p. some p) (muon_pairs s.nodes hits))
        × (r.1.hlt_mtd_qkn.overrun ≡ s.hlt_mtd_qkn.overrun)
        × (r.1.fault ≡ s.fault)
        × (r.0 ≡ any (muon_pairs s.nodes hits))
  unfolding decide_mtd_quarkonium when_on set_word count_call quarkonium_body
  decide_mtd_quarkonium-entries s hits on has_bit room there good =
      let t = Trigger.mtd_quarkonium in
      let blank : Decider fl = record s { hlt_mtd_qkn = restart s.hlt_mtd_qkn } in
      let last = quarkonium_body fl parts cuts ev hits (count_call fl t (set_word fl t 0 blank)) in
      let (banked, inside, word) =
        pairs_entries (trigger_bit fl cuts t) pick_muons (try_muons fl parts cuts ev)
          try_muons-take_in (muon_list fl parts cuts ev s.nodes hits) s.hlt_mtd_qkn room in
      let stored : last.triggered t
          ≡ (if any (muon_pairs s.nodes hits) then trigger_bit fl cuts t else 0) =
        update_self t _ _ ∙ word in
      rw (there, decide_mtd_quarkonium, on)
        (
          ap entries (settle-same fl (λ d. d.hlt_mtd_qkn) t last (λ d n. refl)) ∙ banked,
          ap (λ (b : Bank (MuonPair fl)). b.overrun)
                (settle-same fl (λ d. d.hlt_mtd_qkn) t last (λ d n. refl))
              ∙ inside,
          settle-same fl (λ d. d.fault) t last (λ d n. refl) ∙ rw good (or_false s.fault),
          settle_answer fl cuts t last _ stored has_bit,
        )
