-- ===== src/Mtd/Trigger/TopTwo.antt =====
-- That the loop over the pairs of channels of a QT board finds the two largest sums.
use star_hlt_tofmtd.Prelude.{
  ℕ, zero, suc, ◌+◌, ◌<◌, ◌≡◌, ◌≢◌, refl, sym, ap, subst, ◌∙◌, ◌⊎◌, inl, inr, true, false, Option,
  none, some, arith, ltb, Bool-cases, Option-cases,
}
use star_hlt_tofmtd.Prelude.Int.{ℤ, pos, negsuc, ◌≤ℤ◌, ◌==ℤ◌, ltb_ℤ, pos_part}
use star_hlt_tofmtd.Mtd.Trigger.{TacSum, no_sum, rank, rank_pairs}

-- v is the sum of the pair before n that p - 1 names, or both are still as at the start.
abbrev pub Found : (ℕ → Option ℤ) → ℕ → ℤ → ℤ → Type 0
Found sums n v p =
    ((v ≡ pos 0) × (p ≡ negsuc 0)) ⊎ (k : ℕ) × (k < n) × (sums k ≡ some v) × (p ≡ pos (k + 1))

-- Of the sums of the pairs before n, sum0 is a largest one and sum1 a largest one of the others, a
-- missing one being 0, and pos0 and pos1 say which pairs they are.
record IsTopTwo (sums : ℕ → Option ℤ) (n : ℕ) (s : TacSum) : Type 0 where
  first : Found sums n s.sum0 s.pos0
  second : Found sums n s.sum1 s.pos1
  order : s.sum1 ≤ℤ s.sum0
  nonneg : pos 0 ≤ℤ s.sum1
  apart : s.pos0 ≡ s.pos1 → s.pos0 ≡ negsuc 0
  others : (k : ℕ) (v : ℤ) → k < n → sums k ≡ some v → s.pos0 ≢ pos (k + 1) → v ≤ℤ s.sum1
  largest : (k : ℕ) (v : ℤ) → k < n → sums k ≡ some v → v ≤ℤ s.sum0

some_inj : (a b : ℤ) → some a ≡ some b → a ≡ b
some_inj a b e = cc

module _ (sums : ℕ → Option ℤ) where
  Found-suc : (n : ℕ) (v p : ℤ) → Found sums n v p → Found sums (suc n) v p
  Found-suc n v p (inl z) = inl z
  Found-suc n v p (inr (k, lt, e, q)) = inr (k, omega arith, e, q)

  -- A position found before n is not that of pair n.
  Found-before : (n : ℕ) (v p : ℤ) → Found sums n v p → p ≢ pos (n + 1)
  Found-before n v p (inl (z, q)) e = cc
  Found-before n v p (inr (k, lt, e', q)) e = omega (arith, ap pos_part (sym q ∙ e))

  -- What holds of the pairs before n, and of pair n, holds of the pairs before n + 1.
  upto :
      (P : ℕ → ℤ → Type 0) (n : ℕ)
      → ((k : ℕ) (v : ℤ) → k < n → sums k ≡ some v → P k v)
      → ((v : ℤ) → sums n ≡ some v → P n v)
      → (k : ℕ) (v : ℤ) → k < suc n
      → sums k ≡ some v
      → P k v
  upto P n below last k v lt h = elim (Bool-cases (ltb k n)) [
    | inl e ↦ below k v (ground arith) h
    | inr e ↦
        let same : k ≡ n = ground arith in
        subst (λ (m : ℕ). P m v) (sym same) (last v (subst (λ (m : ℕ). sums m ≡ some v) same h))
  ]

  step_none : (n : ℕ) (s : TacSum) → sums n ≡ none → IsTopTwo sums n s → IsTopTwo sums (suc n) s
  step_none n s e t = record {
    first = Found-suc n s.sum0 s.pos0 t.first;
    second = Found-suc n s.sum1 s.pos1 t.second;
    order = t.order;
    nonneg = t.nonneg;
    apart = t.apart;
    others = upto (λ k v. s.pos0 ≢ pos (k + 1) → v ≤ℤ s.sum1) n t.others (λ v h. absurd cc);
    largest = upto (λ k v. v ≤ℤ s.sum0) n t.largest (λ v h. absurd cc);
  }

  -- The new sum is larger than both.
  step_first :
      (n : ℕ) (w : ℤ) (s : TacSum)
      → sums n ≡ some w
      → ltb_ℤ s.sum0 w ≡ true
      → IsTopTwo sums n s
      → IsTopTwo sums
          (suc n)
          (record { sum0 = w; sum1 = s.sum0; pos0 = pos (n + 1); pos1 = s.pos0 })
  step_first n w s e lt t =
      let above : s.sum0 ≤ℤ w = ground arith in
      record {
        first = inr (n, omega arith, e, refl);
        second = Found-suc n s.sum0 s.pos0 t.first;
        order = above;
        nonneg = omega (arith, t.order, t.nonneg);
        apart = λ q. absurd (Found-before n s.sum0 s.pos0 t.first (sym q));
        others =
            upto (λ k v. pos (n + 1) ≢ pos (k + 1) → v ≤ℤ s.sum0) n
              (λ k v l h ne. t.largest k v l h) (λ v h ne. absurd (ne refl));
        largest =
            upto (λ k v. v ≤ℤ w) n (λ k v l h. omega (arith, t.largest k v l h))
              (λ v h. subst (λ (x : ℤ). x ≤ℤ w) (some_inj w v (sym e ∙ h)) (omega arith));
      }

  -- It is larger than the second only.
  step_second :
      (n : ℕ) (w : ℤ) (s : TacSum)
      → sums n ≡ some w
      → ltb_ℤ s.sum0 w ≡ false
      → ltb_ℤ s.sum1 w ≡ true
      → IsTopTwo sums n s
      → IsTopTwo sums (suc n) (record s { sum1 = w; pos1 = pos (n + 1) })
  step_second n w s e ge lt t =
      let below : w ≤ℤ s.sum0 = ground arith in
      let above : s.sum1 ≤ℤ w = ground arith in
      record {
        first = Found-suc n s.sum0 s.pos0 t.first;
        second = inr (n, omega arith, e, refl);
        order = below;
        nonneg = omega (arith, t.nonneg);
        apart = λ q. absurd (Found-before n s.sum0 s.pos0 t.first q);
        others =
            upto (λ k v. s.pos0 ≢ pos (k + 1) → v ≤ℤ w) n
              (λ k v l h ne. omega (arith, t.others k v l h ne))
              (λ v h ne. subst (λ (x : ℤ). x ≤ℤ w) (some_inj w v (sym e ∙ h)) (omega arith));
        largest =
            upto (λ k v. v ≤ℤ s.sum0) n t.largest
              (λ v h. subst (λ (x : ℤ). x ≤ℤ s.sum0) (some_inj w v (sym e ∙ h)) below);
      }

  -- It is no larger than the second.
  step_neither :
      (n : ℕ) (w : ℤ) (s : TacSum)
      → sums n ≡ some w
      → ltb_ℤ s.sum1 w ≡ false
      → IsTopTwo sums n s
      → IsTopTwo sums (suc n) s
  step_neither n w s e ge t =
      let below : w ≤ℤ s.sum1 = ground arith in
      record {
        first = Found-suc n s.sum0 s.pos0 t.first;
        second = Found-suc n s.sum1 s.pos1 t.second;
        order = t.order;
        nonneg = t.nonneg;
        apart = t.apart;
        others =
            upto (λ k v. s.pos0 ≢ pos (k + 1) → v ≤ℤ s.sum1) n t.others
              (λ v h ne. subst (λ (x : ℤ). x ≤ℤ s.sum1) (some_inj w v (sym e ∙ h)) below);
        largest =
            upto (λ k v. v ≤ℤ s.sum0) n t.largest
              (λ v h.
                subst (λ (x : ℤ). x ≤ℤ s.sum0) (some_inj w v (sym e ∙ h)) (omega (arith, t.order)));
      }

  step :
      (n : ℕ) (s : TacSum)
      → IsTopTwo sums n s
      → IsTopTwo sums (suc n) (rank (pos (n + 1)) (sums n) s)
  unfolding rank
  step n s t = elim (Option-cases (sums n)) [
    | inl e ↦ rw e (step_none n s e t)
    | inr (w, e) ↦ elim (Bool-cases (ltb_ℤ s.sum0 w)) [
      | inl a ↦ rw (e, a) (step_first n w s e a t)
      | inr a ↦ elim (Bool-cases (ltb_ℤ s.sum1 w)) [
        | inl b ↦ rw (e, a, b) (step_second n w s e a b t)
        | inr b ↦ rw (e, a, b) (step_neither n w s e b t)
      ]
    ]
  ]

  rank_pairs-from :
      (left i : ℕ) (s : TacSum)
      → IsTopTwo sums i s
      → IsTopTwo sums (left + i) (rank_pairs left i sums s)
  unfolding rank_pairs
  rank_pairs-from zero i s t = let e : zero + i ≡ i = omega arith in rw e t
  rank_pairs-from (suc left) i s t =
      let e : left + (i + 1) ≡ suc left + i = omega arith in
      let one : suc i ≡ i + 1 = omega arith in
      subst
        (λ (n : ℕ). IsTopTwo sums n (rank_pairs left (i + 1) sums (rank (pos (i + 1)) (sums i) s)))
        e
        (rank_pairs-from left (i + 1) (rank (pos (i + 1)) (sums i) s)
          (subst (λ (n : ℕ). IsTopTwo sums n (rank (pos (i + 1)) (sums i) s)) one (step i s t)))

  start : IsTopTwo sums 0 no_sum
  unfolding no_sum
  start = record {
    first = inl (refl, refl);
    second = inl (refl, refl);
    order = omega arith;
    nonneg = omega arith;
    apart = λ q. refl;
    others = λ k v lt. absurd (omega arith);
    largest = λ k v lt. absurd (omega arith);
  }

-- The sum of a pair, if there is one, is at most w.
abbrev pub AtMost : Option ℤ → ℤ → Type 0
AtMost none w = Unit
AtMost (some v) w = v ≤ℤ w

IsTopTwo-at :
    (sums : ℕ → Option ℤ) (n k : ℕ) (s : TacSum)
    → k < n
    → IsTopTwo sums n s
    → AtMost (sums k) s.sum0 × ((s.pos0 ≡ pos (k + 1)) ⊎ AtMost (sums k) s.sum1)
IsTopTwo-at sums n k s lt t = elim (Option-cases (sums k)) [
  | inl e ↦ rw e (tt, inr tt)
  | inr (v, e) ↦ elim (Bool-cases (s.pos0 ==ℤ pos (k + 1))) [
    | inl b ↦ rw e (t.largest k v lt e, inl (ground arith))
    | inr b ↦ rw e (t.largest k v lt e, inr (t.others k v lt e (ground arith)))
  ]
]

different :
    (s : TacSum) → (s.pos0 ≡ s.pos1 → s.pos0 ≡ negsuc 0) → (s.pos0 ≢ s.pos1) ⊎ (s.pos0 ≡ negsuc 0)
different s f = elim (Bool-cases (s.pos0 ==ℤ s.pos1)) [
  | inl b ↦ inr (f (ground arith))
  | inr b ↦ inl (ground arith)
]

-- However many pairs there are and whichever are passed over, the loop over them ends with the largest
-- sum and the largest of the others, and with the positions of two different pairs that have these
-- sums; 0 and -1 stand where there is no positive sum left.
pub rank_pairs-AtMost :
    (sums : ℕ → Option ℤ) (n k : ℕ)
    → k < n
    → let s = rank_pairs n 0 sums no_sum in
      Found sums n s.sum0 s.pos0
      × Found sums n s.sum1 s.pos1
      × (s.sum1 ≤ℤ s.sum0)
      × ((s.pos0 ≢ s.pos1) ⊎ (s.pos0 ≡ negsuc 0))
      × AtMost (sums k) s.sum0
      × ((s.pos0 ≡ pos (k + 1)) ⊎ AtMost (sums k) s.sum1)
rank_pairs-AtMost sums n k lt =
    let s = rank_pairs n 0 sums no_sum in
    let e : n + 0 ≡ n = omega arith in
    let t : IsTopTwo sums n s =
      subst (λ (m : ℕ). IsTopTwo sums m s) e (rank_pairs-from sums n 0 no_sum (start sums)) in
    let (one, other) = IsTopTwo-at sums n k s lt t in
    (t.first, t.second, t.order, different s t.apart, one, other)
