-- ===== src/Decider/Gathered/Slots.antt =====
-- Where decide_UPCDiElectron writes its pairs.
use star_hlt_tofmtd.Prelude.{
  ltb, ℕ, ◌≡◌, ◌≢◌, refl, ◌∙◌, true, false, ◌&&◌, inl, inr, Option, ◌==◌, if◌then◌else◌, Bool-cases,
  Option-cases, arith,
}
use star_hlt_tofmtd.Prelude.Int.{pos, ltb_ℤ}
use star_hlt_tofmtd.Floats.{Floats}
use star_hlt_tofmtd.Decider.Types.{Trigger, Event, Parts}
use star_hlt_tofmtd.Decider.Cuts.{Cuts}
use star_hlt_tofmtd.Decider.State.{
  Bank, bank_size, Decider, DiElectronPair, write, restart, last_write, set_word, count_call,
}
use star_hlt_tofmtd.Decider.Loops.{scan}
use star_hlt_tofmtd.Decider.Loops.Kept.{for_pairs-keeps}
use star_hlt_tofmtd.Decider.Simple.{when_on}
use star_hlt_tofmtd.Decider.Tracks.{Found}
use star_hlt_tofmtd.Decider.Electrons.{Electron, no_electrons, strong_towers}
use star_hlt_tofmtd.Decider.DiElectron.{
  upc_electron_node, electron_pair, upc_found, try_upc_pair, upc_di_electron_body,
  decide_upc_di_electron,
}
use star_hlt_tofmtd.Decider.Settled.{settle-same}

module _ (fl : Floats) (parts : Parts fl) (cuts : Cuts fl) (ev : Event fl) where
  abbrev slot : ℕ → Bank (DiElectronPair fl) → Option (DiElectronPair fl)
  slot i b = last_write i b.writes

  try_upc_pair-slot :
      (count i : ℕ) (old : Option (DiElectronPair fl)) (a b : Electron fl)
      (f : Found (DiElectronPair fl))
      → i ≢ count
      → slot i f.bank ≡ old
      → slot i (try_upc_pair fl parts cuts ev count a b f).bank ≡ old
  unfolding try_upc_pair upc_found write last_write
  try_upc_pair-slot count i old a b f ne kept =
      elim (Option-cases (electron_pair fl parts cuts ev cuts.upc_electron cuts.electron.p1 a b)) [
        | inl e ↦ rw (e, try_upc_pair) kept
        | inr (pair, e) ↦
            let apart : (i == count) ≡ false = ground arith in
            elim (Bool-cases (ltb count bank_size)) [
              | inl room ↦ rw (e, try_upc_pair, room, apart) kept
              | inr past ↦ rw (e, try_upc_pair, past) kept
            ]
      ]

  body-slot :
      (s : Decider fl) (i : ℕ)
      → i ≢ s.hlt_di_ep.count
      → slot i (upc_di_electron_body fl parts cuts ev s).hlt_upc_di_ep ≡ slot i s.hlt_upc_di_ep
  unfolding upc_di_electron_body set_word
  body-slot s i ne =
      let towers = strong_towers fl parts ev (fl.double.decimal (pos 5) 1) in
      let node = upc_electron_node fl parts cuts ev towers in
      let es = (scan node 0 s.nodes (no_electrons fl)).1 in
      let start : Found (DiElectronPair fl) = record { word = 0; bank = s.hlt_upc_di_ep } in
      let old = slot i s.hlt_upc_di_ep in
      for_pairs-keeps {P = λ (f : Found (DiElectronPair fl)). slot i f.bank ≡ old}
        (try_upc_pair fl parts cuts ev s.hlt_di_ep.count) es.electrons start
        (λ a b f kept. try_upc_pair-slot s.hlt_di_ep.count i old a b f ne kept) refl

  -- Whatever pairs decide_UPCDiElectron finds, in any state, it changes no entry of the array of its
  -- bank but the one whose number is the count of the pairs of decide_DiElectron.
  pub decide_upc_di_electron-slot :
      (s : Decider fl) (i : ℕ)
      → i ≢ s.hlt_di_ep.count
      → slot i (decide_upc_di_electron fl parts cuts ev s).1.hlt_upc_di_ep ≡ slot i s.hlt_upc_di_ep
  unfolding decide_upc_di_electron when_on set_word count_call restart
  decide_upc_di_electron-slot s i ne =
      let t = Trigger.upc_di_electron in
      let few = if ltb_ℤ cuts.n_tracks_upc_electron ev.n_primary_tracks then false else true in
      let blank : Decider fl = record s { hlt_upc_di_ep = restart s.hlt_upc_di_ep } in
      let called = count_call fl t (set_word fl t 0 blank) in
      let last = upc_di_electron_body fl parts cuts ev called in
      elim (Bool-cases (cuts.trigger_on t && few)) [
        | inl on ↦ rw on (
            settle-same fl (λ d. slot i d.hlt_upc_di_ep) t last (λ d n. refl)
            ∙ body-slot called i ne)
        | inr off ↦ rw off refl
      ]
