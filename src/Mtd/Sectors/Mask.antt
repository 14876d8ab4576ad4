-- ===== src/Mtd/Sectors/Mask.antt =====
-- The bits of the mask of determineTpcTrackingMask.
use star_hlt_tofmtd.Prelude.Finite.{all_below, all_below_sound}
use star_hlt_tofmtd.Prelude.{
  ◌==◌, ℕ, suc, ◌+◌, ◌-◌, ◌^◌, ◌≤◌, ◌<◌, ◌≡◌, ◌≢◌, refl, ap, ◌∙◌, Bool, true, false, ◌||◌, List, [],
  ◌∷◌, arith, if◌then◌else◌, All, Bool-cases, inl, inr,
}
use Prim.Native.Nat.{bit_or, max}
use native.Mathlib.Nat.{pow-le-pow_right, two-pow-succ}
use star_hlt_tofmtd.Prelude.Bits.{
  bit, bit-zero, bit-bit_or, bit-shift_self, bit-shift_ne, bit_le, bit_or-lt,
}
use star_hlt_tofmtd.Prelude.Int.{ℤ, pos, negsuc, pos_part, neg_part, ◌-ℤ◌, ltb_ℤ, ◌==ℤ◌}
use star_hlt_tofmtd.Mtd.Sectors.{
  insert_sorted, sort, drop_repeats, unique, set_bits, mask_from, tracking_mask,
}

abbrev pub contains : ℤ → List ℤ → Bool
contains s [] = false
contains s (x ∷ xs) = s ==ℤ x || contains s xs

abbrev pub IsSector : ℤ → Type 0
IsSector s = (1 ≤ pos_part s) × (pos_part s ≤ 24) × (neg_part s ≡ 0)

contains-insert_sorted :
    (s x : ℤ) (xs : List ℤ) → contains s (insert_sorted x xs) ≡ contains s (x ∷ xs)
unfolding insert_sorted
contains-insert_sorted s x [] = refl
contains-insert_sorted s x (y ∷ ys) = ground (arith, contains-insert_sorted s x ys)

contains-sort : (s : ℤ) (xs : List ℤ) → contains s (sort xs) ≡ contains s xs
unfolding sort
contains-sort s [] = refl
contains-sort s (x ∷ xs) =
    contains-insert_sorted s x (sort xs) ∙ ap (λ (b : Bool). s ==ℤ x || b) (contains-sort s xs)

contains-drop_repeats :
    (s x : ℤ) (xs : List ℤ) → contains s (drop_repeats x xs) ≡ contains s (x ∷ xs)
unfolding drop_repeats
contains-drop_repeats s x [] = refl
contains-drop_repeats s x (y ∷ ys) =
    ground (arith, contains-drop_repeats s x ys, contains-drop_repeats s y ys)

contains-unique : (s : ℤ) (xs : List ℤ) → contains s (unique xs) ≡ contains s xs
unfolding unique
contains-unique s [] = refl
contains-unique s (x ∷ xs) = contains-drop_repeats s x xs

shift_lem : (s : ℤ) → IsSector s → pos_part (s -ℤ pos 1) ≡ pos_part s - 1
unfolding ◌-ℤ◌
shift_lem (pos n) v = ground arith
shift_lem (negsuc n) v = absurd (omega arith)

-- Bit b of `1 << (sector - 1)`.
bit-sector :
    (s : ℤ) (b : ℕ)
    → IsSector s
    → bit (2 ^ pos_part (s -ℤ pos 1)) b ≡ (if pos (b + 1) ==ℤ s then 1 else 0)
bit-sector s b v = elim (Bool-cases (pos (b + 1) ==ℤ s)) [
  | inl e ↦
      let j : pos_part (s -ℤ pos 1) ≡ b = shift_lem s v ∙ ground arith in
      rw (e, j) (bit-shift_self b)
  | inr e ↦
      let j : pos_part (s -ℤ pos 1) ≢ b = λ q. ground (arith, shift_lem s v, q, e) in
      rw e (bit-shift_ne (pos_part (s -ℤ pos 1)) b j)
]

bit-set_bits :
    (mask : ℕ) (ss : List ℤ) (b : ℕ)
    → All IsSector ss
    → bit (set_bits mask ss) b ≡ max (bit mask b) (if contains (pos (b + 1)) ss then 1 else 0)
unfolding set_bits
bit-set_bits mask [] b v = ground arith
bit-set_bits mask (s ∷ ss) b (v, vs) =
    let one = 2 ^ pos_part (s -ℤ pos 1) in
    bit-set_bits (bit_or mask one) ss b vs
    ∙ ap (λ (k : ℕ). max k (if contains (pos (b + 1)) ss then 1 else 0))
        (bit-bit_or mask one b ∙ ap (max (bit mask b)) (bit-sector s b v))
    ∙ ground (arith, bit_le mask b)

set_bits-lt : (mask : ℕ) (ss : List ℤ) → mask < 2 ^ 24 → All IsSector ss → set_bits mask ss < 2 ^ 24
unfolding set_bits
set_bits-lt mask [] h v = h
set_bits-lt mask (s ∷ ss) h (v, vs) =
    set_bits-lt (bit_or mask (2 ^ pos_part (s -ℤ pos 1))) ss
      (bit_or-lt 24 mask (2 ^ pos_part (s -ℤ pos 1)) h
        (rw (shift_lem s v) (pow_lt (pos_part s - 1) (omega arith))))
      vs
  where
    pow_lt : (k : ℕ) → k < 24 → 2 ^ k < 2 ^ 24
    pow_lt k le =
        let positive : 1 ≤ 2 ^ k =
          pow-le-pow_right {n = 2} (omega arith) {i = 0} {j = k} (omega arith) in
        let grows : 2 ^ suc k ≤ 2 ^ 24 = pow-le-pow_right (omega arith) le in
        omega (arith, two-pow-succ k)

module _ (P : ℤ → Type 0) where
  All-insert_sorted : (x : ℤ) (xs : List ℤ) → P x → All P xs → All P (insert_sorted x xs)
  unfolding insert_sorted
  All-insert_sorted x [] p ps = (p, tt)
  All-insert_sorted x (y ∷ ys) p (q, qs) = elim (Bool-cases (ltb_ℤ y x)) [
    | inl e ↦ rw e (q, All-insert_sorted x ys p qs)
    | inr e ↦ rw e (p, (q, qs))
  ]

  All-sort : (xs : List ℤ) → All P xs → All P (sort xs)
  unfolding sort
  All-sort [] ps = tt
  All-sort (x ∷ xs) (p, ps) = All-insert_sorted x (sort xs) p (All-sort xs ps)

  All-drop_repeats : (x : ℤ) (xs : List ℤ) → P x → All P xs → All P (drop_repeats x xs)
  unfolding drop_repeats
  All-drop_repeats x [] p ps = (p, tt)
  All-drop_repeats x (y ∷ ys) p (q, qs) = elim (Bool-cases (x ==ℤ y)) [
    | inl e ↦ rw e (All-drop_repeats x ys p qs)
    | inr e ↦ rw e (p, All-drop_repeats y ys q qs)
  ]

  All-unique : (xs : List ℤ) → All P xs → All P (unique xs)
  unfolding unique
  All-unique [] ps = tt
  All-unique (x ∷ xs) (p, ps) = All-drop_repeats x xs p ps

mask_from_found : (x : ℤ) (ss : List ℤ) → contains x ss ≡ true → mask_from ss ≡ set_bits 0 ss
unfolding mask_from
mask_from_found x [] e = cc
mask_from_found x (s ∷ ss) e = refl

-- With a fired sector the mask has the bits of the fired ones.
fired_mask :
    (s : ℤ) (ss : List ℤ) (b : ℕ)
    → All IsSector (s ∷ ss)
    → (bit (tracking_mask (s ∷ ss)) b ≡ (if contains (pos (b + 1)) (s ∷ ss) then 1 else 0))
      × (tracking_mask (s ∷ ss) < 2 ^ 24)
unfolding tracking_mask
fired_mask s ss b v =
    let fired = s ∷ ss in
    let kept = unique (sort fired) in
    let same = λ (x : ℤ). contains-unique x (sort fired) ∙ contains-sort x fired in
    let head : contains s fired ≡ true = ground arith in
    let found : mask_from kept ≡ set_bits 0 kept = mask_from_found s kept (same s ∙ head) in
    let sectors : All IsSector kept =
      All-unique IsSector (sort fired) (All-sort IsSector fired v) in
    (
      ap (λ (m : ℕ). bit m b) found
          ∙ bit-set_bits 0 kept b sectors
          ∙ rw (bit-zero b, same (pos (b + 1))) (ground arith),
      rw found (set_bits-lt 0 kept (omega arith) sectors),
    )

-- No sector fired.
unfoldable pub none_fired : List ℤ → Bool
none_fired [] = true
none_fired (s ∷ ss) = false

full_mask : (b : ℕ) → b < 24 → bit 0xffffff b ≡ 1
unfolding all_below bit
full_mask b h =
    let set = all_below_sound 24 (λ k. bit 0xffffff k == 1) b refl h in ground (arith, set)

-- If no sector fired, the tracking mask has all 24 bits; if any did, bit b of it is set exactly when sector
-- b + 1 is among the fired ones, in whatever order and as often as they were found. In both cases the
-- mask is below 2^24.
pub bit-tracking_mask :
    (ss : List ℤ) (b : ℕ)
    → b < 24
    → All IsSector ss
    → (bit (tracking_mask ss) b ≡ (if none_fired ss || contains (pos (b + 1)) ss then 1 else 0))
      × (tracking_mask ss < 2 ^ 24)
unfolding none_fired
bit-tracking_mask [] b h v =
    unfold tracking_mask mask_from unique sort in (full_mask b h, omega arith)
bit-tracking_mask (s ∷ ss) b h v = fired_mask s ss b v
