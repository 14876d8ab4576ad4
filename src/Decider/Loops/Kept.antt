-- ===== src/Decider/Loops/Kept.antt =====
-- What a loop keeps when its body keeps it.
use star_hlt_tofmtd.Prelude.{ℕ, suc, ◌≡◌, refl, ap, List, [], ◌∷◌, length}
use star_hlt_tofmtd.Decider.Loops.{scan, with_later, for_pairs}

module _ {A S : Type 0} where
  pub scan-keeps :
      {P : S → Type 0} (body : ℕ → A → S → A × S) (i : ℕ) (xs : List A) (s : S)
      → ((k : ℕ) (x : A) (r : S) → P r → P (body k x r).1)
      → P s
      → P (scan body i xs s).1
  unfolding scan
  scan-keeps body i [] s keeps p = p
  scan-keeps {P = P} body i (x ∷ xs) s keeps p =
      scan-keeps {P = P} body (suc i) xs (body i x s).1 keeps (keeps i x s p)

  pub length-scan :
      (body : ℕ → A → S → A × S) (i : ℕ) (xs : List A) (s : S)
      → length (scan body i xs s).0 ≡ length xs
  unfolding scan
  length-scan body i [] s = refl
  length-scan body i (x ∷ xs) s = ap suc (length-scan body (suc i) xs (body i x s).1)

  with_later-keeps :
      {P : S → Type 0} (body : A → A → S → S) (x : A) (ys : List A) (s : S)
      → ((a b : A) (r : S) → P r → P (body a b r))
      → P s
      → P (with_later body x ys s)
  unfolding with_later
  with_later-keeps body x [] s keeps p = p
  with_later-keeps {P = P} body x (y ∷ ys) s keeps p =
      with_later-keeps {P = P} body x ys (body x y s) keeps (keeps x y s p)

  pub for_pairs-keeps :
      {P : S → Type 0} (body : A → A → S → S) (xs : List A) (s : S)
      → ((a b : A) (r : S) → P r → P (body a b r))
      → P s
      → P (for_pairs body xs s)
  unfolding for_pairs
  for_pairs-keeps body [] s keeps p = p
  for_pairs-keeps {P = P} body (x ∷ xs) s keeps p =
      for_pairs-keeps {P = P} body xs (with_later body x xs s) keeps
        (with_later-keeps {P = P} body x xs s keeps p)
