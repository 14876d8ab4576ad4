-- ===== src/Prelude/Finite.antt =====
-- Checking every value below a bound by evaluation.
use star_hlt_tofmtd.Prelude.{
  if◌then◌else◌, ◌+◌, sym, ap, ◌∙◌, List, [], ◌∷◌, map, get_or, ℕ, zero, suc, ◌<◌, ◌≡◌, Bool, true,
  false, arith,
}

unfoldable pub all_below : ℕ → (ℕ → Bool) → Bool
all_below zero test = true
all_below (suc last) test = if test last then all_below last test else false

-- A test that passes everywhere passes at each number below the bound.
pub all_below_sound :
    (bound : ℕ) (test : ℕ → Bool) (k : ℕ) → all_below bound test ≡ true → k < bound → test k ≡ true
unfolding all_below
all_below_sound zero test k passed below = absurd (omega arith)
all_below_sound (suc last) test k passed below =
    let earlier = all_below_sound last test k in ground (arith, earlier)

-- `a` implies `b`, as a test.
abbrev pub implies : Bool → Bool → Bool
implies true b = b
implies false b = true

pub implies_elim : (a b : Bool) → implies a b ≡ true → a ≡ true → b ≡ true
implies_elim true b h e = h
implies_elim false b h e = cc

-- k, k + 1, …, k + n - 1.
unfoldable pub iota : ℕ → ℕ → List ℕ
iota k zero = []
iota k (suc n) = k ∷ iota (suc k) n

module _ {ℓ} {A : Type ℓ} where
  get_or-iota : (f : ℕ → A) (d : A) (k n m : ℕ) → m < n → get_or (map f (iota k n)) m d ≡ f (k + m)
  unfolding iota
  get_or-iota f d k zero m lt = absurd (omega arith)
  get_or-iota f d k (suc n) zero lt = ap f (omega arith)
  get_or-iota f d k (suc n) (suc m) lt =
      get_or-iota f d (suc k) n m (omega arith) ∙ ap f (omega arith)

  -- Two functions with the same list of values at 0, …, n - 1.
  pub agree_below :
      (n : ℕ) (f g : ℕ → A) → map f (iota 0 n) ≡ map g (iota 0 n) → (m : ℕ) → m < n → f m ≡ g m
  agree_below n f g e m lt =
      let zero_add : 0 + m ≡ m = omega arith in
      ap f (sym zero_add)
      ∙ sym (get_or-iota f (f 0) 0 n m lt)
      ∙ ap (λ (xs : List A). get_or xs m (f 0)) e
      ∙ get_or-iota g (f 0) 0 n m lt
      ∙ ap g zero_add
