-- ===== src/Decider/Gathered.antt =====
-- What the loops of the decisions gather into a bank: the items that a test picks, in the loop's order.
use star_hlt_tofmtd.Prelude.{
  ℕ, zero, suc, ◌≡◌, ◌≢◌, refl, sym, ap, ◌∙◌, Bool, true, false, inl, inr, List, [], ◌∷◌, ◌++◌, map,
  Option, none, some, ◌==◌, if◌then◌else◌, Bool-cases, Option-cases, arith,
}
use star_hlt_tofmtd.Decider.State.{Bank, push}
use star_hlt_tofmtd.Decider.State.Entries.{push_all}
use star_hlt_tofmtd.Decider.Loops.{scan, with_later, for_pairs}
use star_hlt_tofmtd.Decider.Tracks.{Found, found}
pub mod HighPt
pub mod Pairs
pub mod Slots
pub mod Bounds
pub mod Rhos

-- Whether a list has an item.
unfoldable pub any : {A : Type 0} → List A → Bool
any [] = false
any (x ∷ xs) = true

module _ {A : Type 0} where
  unfoldable pub keep : {B : Type 0} → (A → Option B) → List A → List B
  keep pick [] = []
  keep pick (x ∷ xs) = elim (pick x) [ none ↦ keep pick xs | some y ↦ y ∷ keep pick xs ]

  -- The pairs of an item and a later one, in the order of two nested loops.
  unfoldable pub pairs_of : List A → List (A × A)
  pairs_of [] = []
  pairs_of (x ∷ xs) = map (λ y. (x, y)) xs ++ pairs_of xs

module _ {S : Type 0} where
  -- One step: an item that is picked is recorded.
  unfoldable pub take_in : ℕ → Option S → Found S → Found S
  take_in bit o f = elim o [ none ↦ f | some x ↦ found bit x f ]

  -- The word and the bank after the items of a list were found.
  unfoldable pub find_all : ℕ → List S → Found S → Found S
  find_all bit [] f = f
  find_all bit (x ∷ xs) f = find_all bit xs (found bit x f)

  pub find_all-bank :
      (bit : ℕ) (xs : List S) (f : Found S) → (find_all bit xs f).bank ≡ push_all xs f.bank
  unfolding find_all found push_all
  find_all-bank bit [] f = refl
  find_all-bank bit (x ∷ xs) f = find_all-bank bit xs (found bit x f)

  find_all-bit :
      (bit : ℕ) (xs : List S) (f : Found S) → f.word ≡ bit → (find_all bit xs f).word ≡ bit
  unfolding find_all found
  find_all-bit bit [] f e = e
  find_all-bit bit (x ∷ xs) f e = find_all-bit bit xs (found bit x f) refl

  -- From the word 0 the loop ends with the bit if it found something and with 0 if not.
  pub find_all-word :
      (bit : ℕ) (xs : List S) (f : Found S)
      → f.word ≡ 0
      → (find_all bit xs f).word ≡ (if any xs then bit else 0)
  unfolding find_all any found
  find_all-word bit [] f e = e
  find_all-word bit (x ∷ xs) f e = find_all-bit bit xs (found bit x f) refl

module _ {S : Type 0} where
  find_all-append :
      (bit : ℕ) (xs ys : List S) (f : Found S)
      → find_all bit (xs ++ ys) f ≡ find_all bit ys (find_all bit xs f)
  unfolding find_all
  find_all-append bit [] ys f = refl
  find_all-append bit (x ∷ xs) ys f = find_all-append bit xs ys (found bit x f)

module _ {A S : Type 0} where
  keep-append :
      (pick : A → Option S) (xs ys : List A) → keep pick (xs ++ ys) ≡ keep pick xs ++ keep pick ys
  unfolding keep
  keep-append pick [] ys = refl
  keep-append pick (x ∷ xs) ys = elim (Option-cases (pick x)) [
    | inl e ↦ rw (e, keep) (keep-append pick xs ys)
    | inr (y, e) ↦ rw (e, keep) (ap (λ (zs : List S). y ∷ zs) (keep-append pick xs ys))
  ]

module _ {A S : Type 0} where
  with_later-find_all :
      (bit : ℕ) (pick : A × A → Option S) (body : A → A → Found S → Found S)
      → ((a b : A) (f : Found S) → body a b f ≡ take_in bit (pick (a, b)) f)
      → (x : A) (ys : List A) (f : Found S)
      → with_later body x ys f ≡ find_all bit (keep pick (map (λ y. (x, y)) ys)) f
  unfolding with_later keep find_all take_in
  with_later-find_all bit pick body same x [] f = refl
  with_later-find_all bit pick body same x (y ∷ ys) f = elim (Option-cases (pick (x, y))) [
    | inl e ↦
        let step : body x y f ≡ f = same x y f ∙ rw e refl in
        rw (step, with_later, e, keep) (with_later-find_all bit pick body same x ys f)
    | inr (p, e) ↦
        let step : body x y f ≡ found bit p f = same x y f ∙ rw e refl in
        rw (step, with_later, e, keep) (with_later-find_all bit pick body same x ys (found bit p f))
  ]

  -- Two nested loops whose body records what a test of the pair gives find the pairs that it picks.
  pub for_pairs-find_all :
      (bit : ℕ) (pick : A × A → Option S) (body : A → A → Found S → Found S)
      → ((a b : A) (f : Found S) → body a b f ≡ take_in bit (pick (a, b)) f)
      → (xs : List A) (f : Found S) → for_pairs body xs f ≡ find_all bit (keep pick (pairs_of xs)) f
  unfolding for_pairs pairs_of keep find_all
  for_pairs-find_all bit pick body same [] f = refl
  for_pairs-find_all bit pick body same (x ∷ xs) f =
      let first = map (λ y. (x, y)) xs in
      let g = with_later body x xs f in
      for_pairs-find_all bit pick body same xs g
      ∙ ap (find_all bit (keep pick (pairs_of xs))) (with_later-find_all bit pick body same x xs f)
      ∙ sym (find_all-append bit (keep pick first) (keep pick (pairs_of xs)) f)
      ∙ ap (λ (l : List S). find_all bit l f) (sym (keep-append pick first (pairs_of xs)))
