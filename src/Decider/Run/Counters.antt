-- ===== src/Decider/Run/Counters.antt =====
-- NumOfCalled and NumOfSucceed over the life of a gl3TriggerDecider.
use star_hlt_tofmtd.Prelude.{
  ℕ, suc, ◌+◌, ◌%◌, ◌^◌, ◌<◌, ◌==◌, if◌then◌else◌, ◌≤◌, ◌≡◌, subst, List, arith, ℕ_discrete,
}
use star_hlt_tofmtd.Floats.{Floats}
use star_hlt_tofmtd.Decider.Types.{Trigger, number, Event, Parts, Node}
use star_hlt_tofmtd.Decider.Cuts.{Cuts}
use star_hlt_tofmtd.Decider.State.{Decider, reset_event}
use star_hlt_tofmtd.Decider.Run.{decide}
use star_hlt_tofmtd.Decider.Run.Bits.{number_injective}
use star_hlt_tofmtd.Decider.Settled.Every.{decide-Accounted}

module _ (fl : Floats) (parts : Parts fl) (cuts : Cuts fl) where
  -- The states that setTriggers, which zeroes the counters, new tracks, resetEvent and decisions of any
  -- triggers on any events lead to, in any order, with the number of decisions.
  pub data Reached : ℕ → Decider fl → Type 0 where
    set_up :
        (s : Decider fl)
        → ((u : Trigger) → s.num_of_called u ≡ 0)
        → ((u : Trigger) → s.num_of_succeed u ≡ 0)
        → Reached 0 s
    tracked :
        {n : ℕ} {s : Decider fl} (nodes : List (Node fl))
        → Reached n s
        → Reached n (record s { nodes = nodes })
    reset : {n : ℕ} {s : Decider fl} → Reached n s → Reached n (reset_event fl s)
    decided :
        {n : ℕ} {s : Decider fl} (ev : Event fl) (t : Trigger)
        → Reached n s
        → Reached (suc n) (decide fl parts cuts ev t s).1

  -- The counters of a trigger after n decisions.
  abbrev Counted : ℕ → Decider fl → Trigger → Type 0
  Counted n s u = (s.num_of_succeed u ≤ s.num_of_called u) × (s.num_of_called u ≤ n)

  -- One step of a counter that does not wrap around.
  counted_up :
      (c d n k l : ℕ)
      → suc n < 2 ^ 31
      → (d ≤ c) × (c ≤ n)
      → l ≤ k
      → k ≤ 1
      → let up : ℕ → ℕ → ℕ = λ m f. if m == 0 then f else (f + m) % 2 ^ 32 in
        (up l d ≤ up k c) × (up k c ≤ suc n)
  counted_up c d n k l small (le, all) lk one = (ground arith, ground arith)

  decide-Counted :
      (ev : Event fl) (t u : Trigger) (s : Decider fl) (n : ℕ)
      → suc n < 2 ^ 31
      → ((v : Trigger) → Counted n s v)
      → Counted (suc n) (decide fl parts cuts ev t s).1 u
  decide-Counted ev t u s n small before =
      let acc = decide-Accounted fl parts cuts ev t s in
      let r = (decide fl parts cuts ev t s).1 in
      let own : Counted (suc n) r t =
        rw (acc.called.at_self, acc.succeed.at_self)
          (counted_up (s.num_of_called t) (s.num_of_succeed t) n acc.calls acc.successes small
            (before t) acc.no_more acc.at_most_one) in
      elim (ℕ_discrete (number t) (number u)) [
        | yes e ↦ subst (λ (v : Trigger). Counted (suc n) r v) (number_injective t u e) own
        | no e ↦
            let (le, all) = before u in
            rw (acc.called.at_others u e, acc.succeed.at_others u e) (le, omega arith)
      ]

  -- In every state that fewer than 2^31 decisions lead to, each trigger has succeeded at most as often as
  -- it was called, and the 32-bit counter of its calls is not above the number of decisions.
  pub Reached-succeed_le :
      {n : ℕ} {s : Decider fl}
      → Reached n s
      → n < 2 ^ 31
      → (u : Trigger) → (s.num_of_succeed u ≤ s.num_of_called u) × (s.num_of_called u ≤ n)
  unfolding reset_event
  Reached-succeed_le (set_up s none_called none_succeeded) small u =
      (omega (arith, none_called u, none_succeeded u), omega (arith, none_called u))
  Reached-succeed_le (tracked nodes r) small u = Reached-succeed_le r small u
  Reached-succeed_le (reset r) small u = Reached-succeed_le r small u
  Reached-succeed_le (decided {n} {s} ev t r) small u =
      decide-Counted ev t u s n small (Reached-succeed_le r (omega arith))
