-- ===== src/Decider/Loops.antt =====
-- The loops that the decisions of L4_HLT/gl3TriggerDecider.cxx share: over the nodes of the event,
-- which the body changes, over the pairs i < j of an array, and the filling of an array of fixed size.
use star_hlt_tofmtd.Prelude.{ℕ, zero, suc, Bool, true, false, List, [], ◌∷◌}
pub mod Kept

module _ {A S : Type 0} where
  -- for(int i = 0; i < nTracks; i++): the body gets the index, the node and what it accumulates.
  unfoldable pub scan : (ℕ → A → S → A × S) → ℕ → List A → S → List A × S
  scan body i [] s = ([], s)
  scan body i (n ∷ ns) s =
      let (m, next) = body i n s in let (ms, last) = scan body (suc i) ns next in (m ∷ ms, last)

  -- for(int j = i + 1; j < n; j++)
  unfoldable pub with_later : (A → A → S → S) → A → List A → S → S
  with_later body x [] s = s
  with_later body x (y ∷ ys) s = with_later body x ys (body x y s)

  -- for(int i = 0; i < n; i++) for(int j = i + 1; j < n; j++)
  unfoldable pub for_pairs : (A → A → S → S) → List A → S → S
  for_pairs body [] s = s
  for_pairs body (x ∷ xs) s = for_pairs body xs (with_later body x xs s)

module _ {A : Type 0} where
  -- The items that pass, into an array with room for `free` more; the first one without room ends it.
  unfoldable pub collect : ℕ → (A → Bool) → List A → List A
  collect free test [] = []
  collect free test (x ∷ xs) = elim (test x) [
    | false ↦ collect free test xs
    | true ↦ elim free [ zero ↦ [] | suc left ↦ x ∷ collect left test xs ]
  ]

  unfoldable pub numbered : ℕ → List A → List (ℕ × A)
  numbered i [] = []
  numbered i (x ∷ xs) = (i, x) ∷ numbered (suc i) xs
