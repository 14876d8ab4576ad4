-- ===== src/Decider/State/Entries.antt =====
-- The entries of a bank that is filled from its counter on.
use star_hlt_tofmtd.Prelude.{
  ◌≤◌, length, ltb, ℕ, zero, suc, ◌+◌, ◌<◌, ◌≡◌, refl, sym, ap, ◌∙◌, true, false, List, [], ◌∷◌,
  ◌++◌, map, Option, some, ◌==◌, arith,
}
use star_hlt_tofmtd.Prelude.Finite.{iota}
use star_hlt_tofmtd.Decider.State.{Bank, bank_size, push, write, restart, last_write, entries}

iota-suc : (k n : ℕ) → iota k (suc n) ≡ iota k n ++ ((k + n) ∷ [])
unfolding iota
iota-suc k zero = ap (λ (m : ℕ). m ∷ []) (omega arith)
iota-suc k (suc n) =
    let shift : suc k + n ≡ k + suc n = omega arith in
    ap (λ (xs : List ℕ). k ∷ xs)
      (iota-suc (suc k) n ∙ ap (λ (m : ℕ). iota (suc k) n ++ (m ∷ [])) shift)

module _ {A B : Type 0} where
  map-append : (f : A → B) (xs ys : List A) → map f (xs ++ ys) ≡ map f xs ++ map f ys
  map-append f [] ys = refl
  map-append f (x ∷ xs) ys = ap (λ (zs : List B). f x ∷ zs) (map-append f xs ys)

module _ {B : Type 0} where
  map-iota_cong :
      (f g : ℕ → B) (k n : ℕ)
      → ((i : ℕ) → i < k + n → f i ≡ g i)
      → map f (iota k n) ≡ map g (iota k n)
  unfolding iota
  map-iota_cong f g k zero same = refl
  map-iota_cong f g k (suc n) same =
      let rest = map-iota_cong f g (suc k) n (λ i h. same i (omega arith)) in
      ap (λ (y : B). y ∷ map f (iota (suc k) n)) (same k (omega arith))
      ∙ ap (λ (ys : List B). g k ∷ ys) rest

module _ {A : Type 0} where
  pub append_assoc : (xs ys zs : List A) → (xs ++ ys) ++ zs ≡ xs ++ (ys ++ zs)
  append_assoc [] ys zs = refl
  append_assoc (x ∷ xs) ys zs = ap (λ (ws : List A). x ∷ ws) (append_assoc xs ys zs)

  pub append-nil : (xs : List A) → xs ++ [] ≡ xs
  append-nil [] = refl
  append-nil (x ∷ xs) = ap (λ (ws : List A). x ∷ ws) (append-nil xs)

module _ {A : Type 0} where
  pub entries-push :
      (x : A) (b : Bank A)
      → b.count < bank_size
      → (entries (push x b) ≡ entries b ++ (some x ∷ [])) × ((push x b).overrun ≡ b.overrun)
  unfolding entries push write last_write
  entries-push x b room =
      let n = b.count in
      let read : ℕ → Option A = λ i. last_write i ((n, x) ∷ b.writes) in
      let old : ℕ → Option A = λ i. last_write i b.writes in
      let fits : ltb n bank_size ≡ true = ground arith in
      let below : map read (iota 0 n) ≡ map old (iota 0 n) =
        map-iota_cong read old 0 n
          (λ i h. let apart : (i == n) ≡ false = ground arith in rw apart refl) in
      let at_end : read (0 + n) ≡ some x =
        (let same : (0 + n == n) ≡ true = ground arith in rw same refl) in
      rw fits (
        ap (map read) (iota-suc 0 n)
            ∙ map-append read (iota 0 n) ((0 + n) ∷ [])
            ∙ ap (λ (ys : List (Option A)). ys ++ (read (0 + n) ∷ [])) below
            ∙ ap (λ (y : Option A). map old (iota 0 n) ++ (y ∷ [])) at_end,
        refl,
      )

  push-count : (x : A) (b : Bank A) → (push x b).count ≡ suc b.count
  unfolding push
  push-count x b = refl

  -- Pushing a list of items, the first one first.
  unfoldable pub push_all : List A → Bank A → Bank A
  push_all [] b = b
  push_all (x ∷ xs) b = push_all xs (push x b)

  pub entries-push_all :
      (xs : List A) (b : Bank A)
      → b.count + length xs ≤ bank_size
      → (entries (push_all xs b) ≡ entries b ++ map (λ x. some x) xs)
        × ((push_all xs b).overrun ≡ b.overrun)
  unfolding push_all
  entries-push_all [] b room = (sym (append-nil (entries b)), refl)
  entries-push_all (x ∷ xs) b room =
      let (pushed, same) = entries-push x b (omega arith) in
      let (all, still) = entries-push_all xs (push x b) (omega (arith, push-count x b)) in
      (
        all
            ∙ ap (λ (es : List (Option A)). es ++ map (λ y. some y) xs) pushed
            ∙ append_assoc (entries b) (some x ∷ []) (map (λ y. some y) xs),
        still ∙ same,
      )

  -- Items that the array has room for, pushed into an emptied bank, are its entries.
  pub entries-push_all-restart :
      (xs : List A) (b : Bank A)
      → length xs ≤ bank_size
      → (entries (push_all xs (restart b)) ≡ map (λ x. some x) xs)
        × ((push_all xs (restart b)).overrun ≡ b.overrun)
  unfolding restart entries iota
  entries-push_all-restart xs b room = entries-push_all xs (restart b) (omega arith)
