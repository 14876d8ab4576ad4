-- ===== src/Prelude/Pigeonhole.antt =====
-- Lists of distinct numbers below a bound are no longer than the bound.
use star_hlt_tofmtd.Prelude.{
  ℕ, zero, suc, ◌+◌, ◌≤◌, ◌<◌, ◌≡◌, ◌≢◌, refl, subst, List, [], ◌∷◌, arith, ◌==◌, if◌then◌else◌,
  length, All, Bool-cases, inl, inr,
}

abbrev pub Distinct : List ℕ → Type 0
Distinct [] = Unit
Distinct (x ∷ xs) = All (λ y. y ≢ x) xs × Distinct xs

without : ℕ → List ℕ → List ℕ
without n [] = []
without n (x ∷ xs) = if x == n then without n xs else x ∷ without n xs

All-without : (P : ℕ → Type 0) (n : ℕ) (xs : List ℕ) → All P xs → All P (without n xs)
unfolding without
All-without P n [] p = tt
All-without P n (x ∷ xs) (p, ps) = elim (Bool-cases (x == n)) [
  | inl e ↦ rw e (All-without P n xs ps)
  | inr e ↦ rw e (p, All-without P n xs ps)
]

Distinct-without : (n : ℕ) (xs : List ℕ) → Distinct xs → Distinct (without n xs)
unfolding without
Distinct-without n [] d = tt
Distinct-without n (x ∷ xs) (f, d) = elim (Bool-cases (x == n)) [
  | inl e ↦ rw e (Distinct-without n xs d)
  | inr e ↦ rw e (All-without _ n xs f, Distinct-without n xs d)
]

without_fresh : (n : ℕ) (xs : List ℕ) → All (λ y. y ≢ n) xs → without n xs ≡ xs
unfolding without
without_fresh n [] f = refl
without_fresh n (x ∷ xs) (p, ps) = ground (arith, without_fresh n xs ps)

length-without : (n : ℕ) (xs : List ℕ) → Distinct xs → length xs ≤ length (without n xs) + 1
unfolding without
length-without n [] d = omega arith
length-without n (x ∷ xs) (f, d) = elim (Bool-cases (x == n)) [
  | inl e ↦
      let same : x ≡ n = ground arith in
      let alone : without n xs ≡ xs =
        without_fresh n xs (subst (λ (k : ℕ). All (λ y. y ≢ k) xs) same f) in
      rw (e, alone) (omega arith)
  | inr e ↦ rw e (omega (arith, length-without n xs d))
]

All-without_lt : (n : ℕ) (xs : List ℕ) → All (λ x. x < suc n) xs → All (λ x. x < n) (without n xs)
unfolding without
All-without_lt n [] p = tt
All-without_lt n (x ∷ xs) (p, ps) = elim (Bool-cases (x == n)) [
  | inl e ↦ rw e (All-without_lt n xs ps)
  | inr e ↦ rw e (ground arith, All-without_lt n xs ps)
]

pub length-Distinct-le : (n : ℕ) (xs : List ℕ) → All (λ x. x < n) xs → Distinct xs → length xs ≤ n
length-Distinct-le zero [] p d = omega arith
length-Distinct-le zero (x ∷ xs) p d = absurd (omega arith)
length-Distinct-le (suc n) xs p d = omega (
  arith,
  length-without n xs d,
  length-Distinct-le n (without n xs) (All-without_lt n xs p) (Distinct-without n xs d),
)
