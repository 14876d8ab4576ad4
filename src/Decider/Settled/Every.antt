-- ===== src/Decider/Settled/Every.antt =====
-- Every decision accounts for what it answers.
use star_hlt_tofmtd.Prelude.{
  ◌≡◌, refl, sym, inl, inr, Bool, true, false, ◌&&◌, arith, if◌then◌else◌, leb, Option-cases,
}
use star_hlt_tofmtd.Prelude.Int.{ltb_ℤ, negsuc}
use star_hlt_tofmtd.Prelude.Bits.{bit_or-zero}
use star_hlt_tofmtd.Floats.{Floats}
use star_hlt_tofmtd.Decider.Types.{Trigger, Event, Parts}
use star_hlt_tofmtd.Decider.Cuts.{Cuts, trigger_bit}
use star_hlt_tofmtd.Decider.State.{Decider, restart, set_word, count_call}
use star_hlt_tofmtd.Decider.Simple.{
  when_on, fire_if, decide_by, decide_all_events, decide_random_events, decide_bes_good_events,
  decide_hlt_good2, decide_di_v0, decide_low_mult, low_mult_body, decide_fixed_target,
  decide_fixed_target_monitor, decide_bes_monitor,
}
use star_hlt_tofmtd.Decider.Tracks.{
  decide_high_pt, high_pt_body, decide_heavy_fragment, heavy_fragment_body,
}
use star_hlt_tofmtd.Decider.Muons.{
  decide_mtd_di_muon, decide_mtd_quarkonium, n_muon, muon_event, quarkonium_body,
}
use star_hlt_tofmtd.Decider.DiElectron.{
  decide_di_electron, di_electron_body, decide_upc_di_electron, upc_di_electron_body,
}
use star_hlt_tofmtd.Decider.TwoTower.{decide_di_electron2_twr, two_tower_body}
use star_hlt_tofmtd.Decider.Upc.{decide_upc_pair, upc_pair_body}
use star_hlt_tofmtd.Decider.HighTowers.{decide_matched_ht2, matched_ht2_body}
use star_hlt_tofmtd.Decider.Run.{decide}
use star_hlt_tofmtd.Decider.Settled.{Accounted, zero_Rises, one_Rises, when_on-Accounted, declined}
use star_hlt_tofmtd.Decider.Settled.Words.{
  fire_if-Quiet, high_pt_body-Quiet, heavy_fragment_body-Quiet, low_mult_body-Quiet,
  quarkonium_body-Quiet,
}
use star_hlt_tofmtd.Decider.Settled.Pairs.{
  di_electron_body-Quiet, upc_di_electron_body-Quiet, two_tower_body-Quiet, upc_pair_body-Quiet,
  matched_ht2_body-Quiet,
}

module _ (fl : Floats) (parts : Parts fl) (cuts : Cuts fl) (ev : Event fl) where
  -- A call that is counted, if the trigger is on, and then given up.
  counted_only :
      (t : Trigger) (on : Bool) (s m : Decider fl)
      → m.hlt_decision ≡ s.hlt_decision
      → m.num_of_called ≡ s.num_of_called
      → m.num_of_succeed ≡ s.num_of_succeed
      → Accounted fl cuts t s (false, if on then count_call fl t m else m)
  unfolding count_call
  counted_only t true s m d c n =
      declined fl cuts t s (count_call fl t m) 1 (omega arith) d
        (rw c (one_Rises t s.num_of_called)) n
  counted_only t false s m d c n =
      declined fl cuts t s m 0 (omega arith) d (rw c (zero_Rises t s.num_of_called)) n

  -- The same where the call then follows a null pointer.
  faulted :
      (t : Trigger) (on : Bool) (s m : Decider fl)
      → m.hlt_decision ≡ s.hlt_decision
      → m.num_of_called ≡ s.num_of_called
      → m.num_of_succeed ≡ s.num_of_succeed
      → let called = count_call fl t m in
        Accounted fl cuts t s (false, if on then record called { fault = true } else m)
  unfolding count_call
  faulted t true s m d c n =
      let called = count_call fl t m in
      declined fl cuts t s (record called { fault = true }) 1 (omega arith) d
        (rw c (one_Rises t s.num_of_called)) n
  faulted t false s m d c n =
      declined fl cuts t s m 0 (omega arith) d (rw c (zero_Rises t s.num_of_called)) n

  decide_by-Accounted :
      (t : Trigger) (condition : Bool) (s : Decider fl)
      → Accounted fl cuts t s (decide_by fl parts cuts ev t condition s)
  unfolding decide_by
  decide_by-Accounted t condition s =
      when_on-Accounted fl cuts (cuts.trigger_on t) t (fire_if fl cuts t condition) s
        (fire_if-Quiet fl cuts t condition)

  -- From a state that differs in a bank or a node only.
  rebased :
      (t : Trigger) (s m : Decider fl) (r : Bool × Decider fl)
      → m.hlt_decision ≡ s.hlt_decision
      → m.num_of_called ≡ s.num_of_called
      → m.num_of_succeed ≡ s.num_of_succeed
      → Accounted fl cuts t m r
      → Accounted fl cuts t s r
  rebased t s m r d c n acc = record {
    decision = rw (sym d) acc.decision;
    calls = acc.calls;
    successes = acc.successes;
    called = rw (sym c) acc.called;
    succeed = rw (sym n) acc.succeed;
    no_more = acc.no_more;
    at_most_one = acc.at_most_one;
  }

  decide_low_mult-Accounted :
      (s : Decider fl) → Accounted fl cuts Trigger.low_mult s (decide_low_mult fl parts cuts ev s)
  unfolding decide_low_mult
  decide_low_mult-Accounted s =
      let blank : Decider fl = record s { hlt_lm = negsuc 998 } in
      let on = if cuts.trigger_on Trigger.low_mult then false else true in
      let body = low_mult_body fl parts cuts ev in
      rebased Trigger.low_mult s blank (when_on fl on Trigger.low_mult body blank) refl refl refl (
        when_on-Accounted fl cuts on Trigger.low_mult body blank
          (low_mult_body-Quiet fl parts cuts ev))

  decide_high_pt-Accounted :
      (s : Decider fl) → Accounted fl cuts Trigger.high_pt s (decide_high_pt fl parts cuts ev s)
  unfolding decide_high_pt
  decide_high_pt-Accounted s =
      let blank : Decider fl = record s { hlt_hi_pt = restart s.hlt_hi_pt } in
      let on = cuts.trigger_on Trigger.high_pt in
      let body = high_pt_body fl parts cuts ev in
      rebased Trigger.high_pt s blank (when_on fl on Trigger.high_pt body blank) refl refl refl (
        when_on-Accounted fl cuts on Trigger.high_pt body blank
          (λ r z. high_pt_body-Quiet fl parts cuts ev r))

  decide_heavy_fragment-Accounted :
      (s : Decider fl)
      → Accounted fl cuts Trigger.heavy_fragment s (decide_heavy_fragment fl parts cuts ev s)
  unfolding decide_heavy_fragment
  decide_heavy_fragment-Accounted s =
      let blank : Decider fl = record s { hlt_h_f = restart s.hlt_h_f } in
      let on = cuts.trigger_on Trigger.heavy_fragment in
      let body = heavy_fragment_body fl parts cuts ev in
      rebased Trigger.heavy_fragment s blank (when_on fl on Trigger.heavy_fragment body blank) refl
        refl refl
        (when_on-Accounted fl cuts on Trigger.heavy_fragment body blank
          (λ r z. heavy_fragment_body-Quiet fl parts cuts ev r))

  decide_di_electron-Accounted :
      (s : Decider fl)
      → Accounted fl cuts Trigger.di_electron s (decide_di_electron fl parts cuts ev s)
  unfolding decide_di_electron
  decide_di_electron-Accounted s =
      let blank : Decider fl = record s { hlt_di_ep = restart s.hlt_di_ep } in
      let on = cuts.trigger_on Trigger.di_electron in
      let body = di_electron_body fl parts cuts ev in
      rebased Trigger.di_electron s blank (when_on fl on Trigger.di_electron body blank) refl refl
        refl
        (when_on-Accounted fl cuts on Trigger.di_electron body blank
          (λ r z. di_electron_body-Quiet fl parts cuts ev r))

  decide_upc_di_electron-Accounted :
      (s : Decider fl)
      → Accounted fl cuts Trigger.upc_di_electron s (decide_upc_di_electron fl parts cuts ev s)
  unfolding decide_upc_di_electron
  decide_upc_di_electron-Accounted s =
      let blank : Decider fl = record s { hlt_upc_di_ep = restart s.hlt_upc_di_ep } in
      let on =
        cuts.trigger_on Trigger.upc_di_electron
        && (if ltb_ℤ cuts.n_tracks_upc_electron ev.n_primary_tracks then false else true) in
      let body = upc_di_electron_body fl parts cuts ev in
      rebased Trigger.upc_di_electron s blank (when_on fl on Trigger.upc_di_electron body blank)
        refl refl refl
        (when_on-Accounted fl cuts on Trigger.upc_di_electron body blank
          (λ r z. upc_di_electron_body-Quiet fl parts cuts ev r))

  decide_di_electron2_twr-Accounted :
      (s : Decider fl)
      → Accounted fl cuts Trigger.di_electron2_twr s (decide_di_electron2_twr fl parts cuts ev s)
  unfolding decide_di_electron2_twr
  decide_di_electron2_twr-Accounted s =
      let blank : Decider fl = record s { hlt_di_ep2_twr = restart s.hlt_di_ep2_twr } in
      let on = cuts.trigger_on Trigger.di_electron2_twr in
      let body = two_tower_body fl parts cuts ev in
      rebased Trigger.di_electron2_twr s blank (when_on fl on Trigger.di_electron2_twr body blank)
        refl refl refl
        (when_on-Accounted fl cuts on Trigger.di_electron2_twr body blank
          (λ r z. two_tower_body-Quiet fl parts cuts ev r))

  decide_upc_pair-Accounted :
      (s : Decider fl) → Accounted fl cuts Trigger.upc_pair s (decide_upc_pair fl parts cuts ev s)
  unfolding decide_upc_pair
  decide_upc_pair-Accounted s =
      let blank : Decider fl = record s { hlt_upc_rho = restart s.hlt_upc_rho } in
      let on = cuts.trigger_on Trigger.upc_pair in
      let body = upc_pair_body fl parts cuts ev in
      rebased Trigger.upc_pair s blank (when_on fl on Trigger.upc_pair body blank) refl refl refl (
        when_on-Accounted fl cuts on Trigger.upc_pair body blank
          (upc_pair_body-Quiet fl parts cuts ev))

  decide_matched_ht2-Accounted :
      (s : Decider fl)
      → Accounted fl cuts Trigger.matched_ht2 s (decide_matched_ht2 fl parts cuts ev s)
  unfolding decide_matched_ht2
  decide_matched_ht2-Accounted s =
      let old = s.hlt_h_t2 in
      let blank : Decider fl = record s {
        hlt_h_t2 = record old { fired = false };
        hlt_h_t2_pairs = restart s.hlt_h_t2_pairs;
      } in
      let on = cuts.trigger_on Trigger.matched_ht2 in
      let body = matched_ht2_body fl parts cuts ev in
      rebased Trigger.matched_ht2 s blank (when_on fl on Trigger.matched_ht2 body blank) refl refl
        refl
        (when_on-Accounted fl cuts on Trigger.matched_ht2 body blank
          (matched_ht2_body-Quiet fl parts cuts ev))

  decide_mtd_di_muon-Accounted :
      (s : Decider fl)
      → Accounted fl cuts Trigger.mtd_di_muon s (decide_mtd_di_muon fl parts cuts ev s)
  unfolding decide_mtd_di_muon set_word
  decide_mtd_di_muon-Accounted s =
      let t = Trigger.mtd_di_muon in
      elim (Option-cases ev.mtd) [
        | inl e ↦
            rw (e, decide_mtd_di_muon)
              (counted_only t (cuts.trigger_on t) s (set_word fl t 0 s) refl refl refl)
        | inr (event, e) ↦ elim (Option-cases event) [
          | inl none_there ↦
              rw (e, decide_mtd_di_muon, none_there)
                (faulted t (cuts.trigger_on t) s (set_word fl t 0 s) refl refl refl)
          | inr (hits, there) ↦
              let fires = leb 2 (n_muon fl hits) in
              rw (e, decide_mtd_di_muon, there)
                (when_on-Accounted fl cuts (cuts.trigger_on t) t (fire_if fl cuts t fires) s
                  (fire_if-Quiet fl cuts t fires))
        ]
      ]

  decide_mtd_quarkonium-Accounted :
      (s : Decider fl)
      → Accounted fl cuts Trigger.mtd_quarkonium s (decide_mtd_quarkonium fl parts cuts ev s)
  unfolding decide_mtd_quarkonium set_word
  decide_mtd_quarkonium-Accounted s =
      let t = Trigger.mtd_quarkonium in
      let blank : Decider fl = record s { hlt_mtd_qkn = restart s.hlt_mtd_qkn } in
      let on = cuts.trigger_on t in
      elim (Option-cases (muon_event fl parts cuts ev)) [
        | inl e ↦
            rw (e, decide_mtd_quarkonium)
              (counted_only t on s (set_word fl t 0 blank) refl refl refl)
        | inr (hits, e) ↦
            let body = quarkonium_body fl parts cuts ev hits in
            rw (e, decide_mtd_quarkonium)
              (rebased t s blank (when_on fl on t body blank) refl refl refl (
                when_on-Accounted fl cuts on t body blank
                  (λ r z. quarkonium_body-Quiet fl parts cuts ev hits r)))
      ]

  -- Whatever trigger is decided in whatever state, hltDecision gains the trigger's bit if the answer is
  -- `true` and is the same otherwise (allEvents_no_HLT has no bit); the trigger's counters of calls and
  -- of successes go up by at most one, a success only with a call, and all other counters stay.
  pub decide-Accounted :
      (t : Trigger) (s : Decider fl) → Accounted fl cuts t s (decide fl parts cuts ev t s)
  unfolding decide trigger_bit decide_all_events decide_random_events decide_bes_good_events
      decide_hlt_good2 decide_di_v0 decide_fixed_target decide_fixed_target_monitor
      decide_bes_monitor count_call
  decide-Accounted Trigger.all_events_no_hlt s = record {
    decision = sym (bit_or-zero s.hlt_decision);
    calls = 0;
    successes = 0;
    called = zero_Rises Trigger.all_events_no_hlt s.num_of_called;
    succeed = zero_Rises Trigger.all_events_no_hlt s.num_of_succeed;
    no_more = omega arith;
    at_most_one = omega arith;
  }
  decide-Accounted Trigger.high_pt s = decide_high_pt-Accounted s
  decide-Accounted Trigger.di_electron s = decide_di_electron-Accounted s
  decide-Accounted Trigger.heavy_fragment s = decide_heavy_fragment-Accounted s
  decide-Accounted Trigger.all_events s = decide_by-Accounted Trigger.all_events true s
  decide-Accounted Trigger.random_events s = decide_by-Accounted Trigger.random_events _ s
  decide-Accounted Trigger.bes_good_events s = decide_by-Accounted Trigger.bes_good_events _ s
  decide-Accounted Trigger.di_v0 s =
      declined fl cuts Trigger.di_v0 s (count_call fl Trigger.di_v0 s) 1 (omega arith) refl
        (one_Rises Trigger.di_v0 s.num_of_called) refl
  decide-Accounted Trigger.matched_ht2 s = decide_matched_ht2-Accounted s
  decide-Accounted Trigger.low_mult s = decide_low_mult-Accounted s
  decide-Accounted Trigger.upc_di_electron s = decide_upc_di_electron-Accounted s
  decide-Accounted Trigger.upc_pair s = decide_upc_pair-Accounted s
  decide-Accounted Trigger.mtd_di_muon s = decide_mtd_di_muon-Accounted s
  decide-Accounted Trigger.fixed_target s = decide_by-Accounted Trigger.fixed_target _ s
  decide-Accounted Trigger.fixed_target_monitor s =
      decide_by-Accounted Trigger.fixed_target_monitor _ s
  decide-Accounted Trigger.bes_monitor s = decide_by-Accounted Trigger.bes_monitor _ s
  decide-Accounted Trigger.hlt_good2 s = decide_by-Accounted Trigger.hlt_good2 _ s
  decide-Accounted Trigger.mtd_quarkonium s = decide_mtd_quarkonium-Accounted s
  decide-Accounted Trigger.di_electron2_twr s = decide_di_electron2_twr-Accounted s
