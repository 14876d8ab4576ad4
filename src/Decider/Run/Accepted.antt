-- ===== src/Decider/Run/Accepted.antt =====
-- What the loop over the trigger algorithms builds, from the list of the accepted ones.
use Prim.Native.Nat.{bit_or, bit_and}
use star_hlt_tofmtd.Prelude.{
  ℕ, ◌≡◌, refl, ap, ◌∙◌, Bool, true, false, inl, inr, List, [], ◌∷◌, ◌==◌, if◌then◌else◌,
  Bool-cases,
}
use star_hlt_tofmtd.Prelude.Bits.{bit_or-zero}
use star_hlt_tofmtd.Floats.{Floats}
use star_hlt_tofmtd.Decider.Types.{Trigger, Event, Parts}
use star_hlt_tofmtd.Decider.Cuts.{Cuts, trigger_bit}
use star_hlt_tofmtd.Decider.State.{Decider}
use star_hlt_tofmtd.Decider.Run.{decide, run_algorithm, run_algorithms}
use star_hlt_tofmtd.Decider.Settled.Every.{decide-Accounted}

-- The words of the triggers of a list, one after the other, into a word.
unfoldable pub or_all : (Trigger → ℕ) → List Trigger → ℕ → ℕ
or_all f [] w = w
or_all f (t ∷ ts) w = or_all f ts (bit_or w (f t))

module _ (fl : Floats) (parts : Parts fl) (cuts : Cuts fl) (ev : Event fl) (l2_mask : ℕ)
    (needed : Trigger → ℕ) where
  -- The triggers of a list that some level-2 trigger of the event needs and whose decision, in the
  -- state that those before it leave, is `true`.
  unfoldable pub accepted : List Trigger → Decider fl → List Trigger
  accepted [] s = []
  accepted (t ∷ ts) s = elim (bit_and l2_mask (needed t) == 0) [
    | true ↦ accepted ts s
    | false ↦
        let (satisfied, next) = decide fl parts cuts ev t s in
        let rest = accepted ts next in if satisfied then t ∷ rest else rest
  ]

  abbrev run_one : Trigger → ℕ × Decider fl → ℕ × Decider fl
  run_one t r = run_algorithm fl parts cuts ev l2_mask needed t r

  -- The three ways through the loop body.
  run_skipped :
      (t : Trigger) (l3_mask : ℕ) (s : Decider fl)
      → (bit_and l2_mask (needed t) == 0) ≡ true
      → run_one t (l3_mask, s) ≡ (l3_mask, s)
  unfolding run_algorithm
  run_skipped t l3_mask s e = rw (e, run_algorithm) refl

  run_decided :
      (t : Trigger) (l3_mask : ℕ) (s : Decider fl) (satisfied : Bool)
      → (bit_and l2_mask (needed t) == 0) ≡ false
      → (decide fl parts cuts ev t s).0 ≡ satisfied
      → run_one t (l3_mask, s) ≡ (
        if satisfied then bit_or l3_mask (bit_and l2_mask (needed t)) else l3_mask,
        (decide fl parts cuts ev t s).1,
      )
  unfolding run_algorithm
  run_decided t l3_mask s satisfied e answer = rw (e, answer, run_algorithm) refl

  -- The loop leaves in l3TrgMask, next to what it starts with, the level-2 triggers that need an
  -- accepted algorithm, and in hltDecision the bits of the accepted algorithms, in any state.
  pub run_algorithms-accepted :
      (ts : List Trigger) (l3_mask : ℕ) (s : Decider fl)
      → let r = run_algorithms fl parts cuts ev l2_mask needed ts (l3_mask, s) in
        let found = accepted ts s in
        (r.0 ≡ or_all (λ t. bit_and l2_mask (needed t)) found l3_mask)
        × (r.1.hlt_decision ≡ or_all (trigger_bit fl cuts) found s.hlt_decision)
  unfolding run_algorithms accepted or_all
  run_algorithms-accepted [] l3_mask s = (refl, refl)
  run_algorithms-accepted (t ∷ ts) l3_mask s =
      let m = bit_and l2_mask (needed t) in
      let r = decide fl parts cuts ev t s in
      let step = (decide-Accounted fl parts cuts ev t s).decision in
      elim (Bool-cases (m == 0)) [
        | inl e ↦
            rw (run_skipped t l3_mask s e, run_algorithms, e, accepted)
              (run_algorithms-accepted ts l3_mask s)
        | inr e ↦ elim (Bool-cases r.0) [
          | inl took ↦
              let (mask, decision) = run_algorithms-accepted ts (bit_or l3_mask m) r.1 in
              let start : r.1.hlt_decision ≡ bit_or s.hlt_decision (trigger_bit fl cuts t) =
                step ∙ rw took refl in
              rw (run_decided t l3_mask s true e took, run_algorithms, e, accepted, took)
                (
                  mask,
                  decision ∙ ap (λ (w : ℕ). or_all (trigger_bit fl cuts) (accepted ts r.1) w) start,
                )
          | inr left ↦
              let (mask, decision) = run_algorithms-accepted ts l3_mask r.1 in
              let start : r.1.hlt_decision ≡ s.hlt_decision =
                step ∙ rw left (bit_or-zero s.hlt_decision) in
              rw (run_decided t l3_mask s false e left, run_algorithms, e, accepted, left)
                (
                  mask,
                  decision ∙ ap (λ (w : ℕ). or_all (trigger_bit fl cuts) (accepted ts r.1) w) start,
                )
        ]
      ]
