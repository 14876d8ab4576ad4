-- ===== src/Decider/Settled.antt =====
-- What every decision does to hltDecision and to the counters, from what its body leaves alone.
use Prim.Native.Nat.{bit_or}
use star_hlt_tofmtd.Prelude.{
  ℕ, ◌+◌, ◌%◌, ◌^◌, ◌≤◌, ◌≡◌, ◌≢◌, refl, sym, ap, ◌∙◌, ◌⊎◌, inl, inr, Bool, true, false, arith,
  ◌==◌, if◌then◌else◌, Bool-cases,
}
use star_hlt_tofmtd.Prelude.Bits.{bit_or-zero}
use star_hlt_tofmtd.Floats.{Floats}
use star_hlt_tofmtd.Decider.Types.{Trigger, number}
use star_hlt_tofmtd.Decider.Cuts.{Cuts, trigger_bit}
use star_hlt_tofmtd.Decider.State.{Decider, update, set_word, count_call, settle}
use star_hlt_tofmtd.Decider.Simple.{when_on, fire_if}
pub mod Words
pub mod Pairs
pub mod Every

-- One trigger's 32-bit counter goes up by k and the others stay.
pub record Rises (t : Trigger) (k : ℕ) (f g : Trigger → ℕ) : Type 0 where
  pub at_self : g t ≡ (if k == 0 then f t else (f t + k) % 2 ^ 32)
  pub at_others : (u : Trigger) → number t ≢ number u → g u ≡ f u

pub zero_Rises : (t : Trigger) (f : Trigger → ℕ) → Rises t 0 f f
zero_Rises t f = record { at_self = refl; at_others = λ u h. refl }

pub update_self : (t : Trigger) (f : Trigger → ℕ) (v : ℕ) → update f t v t ≡ v
unfolding update
update_self t f v = ground arith

update_ne : (t u : Trigger) (f : Trigger → ℕ) (v : ℕ) → number t ≢ number u → update f t v u ≡ f u
unfolding update
update_ne t u f v h = ground arith

pub one_Rises : (t : Trigger) (f : Trigger → ℕ) → Rises t 1 f (update f t ((f t + 1) % 2 ^ 32))
one_Rises t f = record {
  at_self = update_self t f ((f t + 1) % 2 ^ 32);
  at_others = λ u h. update_ne t u f ((f t + 1) % 2 ^ 32) h;
}

module _ (fl : Floats) (cuts : Cuts fl) where
  -- A body leaves the decision and the counters alone, and its trigger's word is 0 or the bit.
  pub record Quiet (t : Trigger) (s r : Decider fl) : Type 0 where
    pub same_decision : r.hlt_decision ≡ s.hlt_decision
    pub same_called : r.num_of_called ≡ s.num_of_called
    pub same_succeed : r.num_of_succeed ≡ s.num_of_succeed
    pub word : (r.triggered t ≡ 0) ⊎ (r.triggered t ≡ trigger_bit fl cuts t)

  -- The decision gains the trigger's bit where the answer is `true` and nothing else; the calls and
  -- the successes of the trigger go up by at most one, the successes by no more than the calls, and
  -- those of the other triggers stay.
  pub record Accounted (t : Trigger) (s : Decider fl) (r : Bool × Decider fl) : Type 0 where
    pub decision :
        r.1.hlt_decision ≡ bit_or s.hlt_decision (if r.0 then trigger_bit fl cuts t else 0)
    pub calls : ℕ
    pub successes : ℕ
    pub called : Rises t calls s.num_of_called r.1.num_of_called
    pub succeed : Rises t successes s.num_of_succeed r.1.num_of_succeed
    pub no_more : successes ≤ calls
    pub at_most_one : calls ≤ 1

  settle-Accounted :
      (t : Trigger) (s m : Decider fl)
      → Quiet t (count_call fl t (set_word fl t 0 s)) m
      → Accounted t s (settle fl t m)
  unfolding settle count_call set_word
  settle-Accounted t s m quiet = elim (Bool-cases (m.triggered t == 0)) [
    | inl e ↦
        let none_set : m.triggered t ≡ 0 = ground arith in
        rw e record {
          decision = rw (quiet.same_decision, none_set) refl;
          calls = 1;
          successes = 0;
          called = rw quiet.same_called (one_Rises t s.num_of_called);
          succeed = rw quiet.same_succeed (zero_Rises t s.num_of_succeed);
          no_more = omega arith;
          at_most_one = omega arith;
        }
    | inr e ↦
        let bit_set : m.triggered t ≡ trigger_bit fl cuts t = elim quiet.word [
          | inl w ↦ absurd (ground arith)
          | inr w ↦ w
        ] in
        rw e record {
          decision = rw (quiet.same_decision, bit_set) refl;
          calls = 1;
          successes = 1;
          called = rw quiet.same_called (one_Rises t s.num_of_called);
          succeed = rw quiet.same_succeed (one_Rises t s.num_of_succeed);
          no_more = omega arith;
          at_most_one = omega arith;
        }
  ]

  -- Nothing but the trigger's own word and banks may have changed, and the answer is `false`.
  pub declined :
      (t : Trigger) (s m : Decider fl) (k : ℕ)
      → k ≤ 1
      → m.hlt_decision ≡ s.hlt_decision
      → Rises t k s.num_of_called m.num_of_called
      → m.num_of_succeed ≡ s.num_of_succeed
      → Accounted t s (false, m)
  declined t s m k le same_decision called same_succeed = record {
    decision = same_decision ∙ sym (bit_or-zero s.hlt_decision);
    calls = k;
    successes = 0;
    called = called;
    succeed = rw same_succeed (zero_Rises t s.num_of_succeed);
    no_more = omega arith;
    at_most_one = le;
  }

  pub when_on-Accounted :
      (on : Bool) (t : Trigger) (body : Decider fl → Decider fl) (s : Decider fl)
      → ((r : Decider fl) → r.triggered t ≡ 0 → Quiet t r (body r))
      → Accounted t s (when_on fl on t body s)
  unfolding when_on set_word count_call
  when_on-Accounted true t body s quiet =
      let called : Decider fl = count_call fl t (set_word fl t 0 s) in
      settle-Accounted t s (body called) (quiet called (update_self t s.triggered 0))
  when_on-Accounted false t body s quiet =
      declined t s (set_word fl t 0 s) 0 (omega arith) refl (zero_Rises t s.num_of_called) refl

module _ (fl : Floats) where
  -- What the end of a decision leaves alone.
  pub settle-same :
      {X : Type 0} (g : Decider fl → X) (t : Trigger) (s : Decider fl)
      → ((d : ℕ) (n : Trigger → ℕ) → g (record s { hlt_decision = d; num_of_succeed = n }) ≡ g s)
      → g (settle fl t s).1 ≡ g s
  unfolding settle
  settle-same g t s same = elim (Bool-cases (s.triggered t == 0)) [
    | inl e ↦ rw e (same (bit_or s.hlt_decision (s.triggered t)) s.num_of_succeed)
    | inr e ↦
        let more = update s.num_of_succeed t ((s.num_of_succeed t + 1) % 2 ^ 32) in
        rw e (same (bit_or s.hlt_decision (s.triggered t)) more)
  ]

module _ (fl : Floats) (cuts : Cuts fl) where
  -- The answer of a decision.
  pub settle_answer :
      (t : Trigger) (s : Decider fl) (b : Bool)
      → s.triggered t ≡ (if b then trigger_bit fl cuts t else 0)
      → trigger_bit fl cuts t ≢ 0
      → (settle fl t s).0 ≡ b
  unfolding settle
  settle_answer t s true word has_bit =
      let fires : (s.triggered t == 0) ≡ false = rw word (ground arith) in rw fires refl
  settle_answer t s false word has_bit =
      let quiet : (s.triggered t == 0) ≡ true = rw word (ground arith) in rw quiet refl
