-- ===== src/Prelude/Bits.antt =====
-- Bits of a machine word: fields by shift and mask, single bits, and what `|=` does to them.
use Prim.Native.Nat.{max, bit_or, digits, bit_or-bitwise}
use native.Mathlib.Nat.{two-pow-succ, pow-succ', div-div-eq-div-mul}
use star_hlt_tofmtd.Prelude.{
  ℕ, zero, suc, ◌+◌, ◌*◌, ◌/◌, ◌%◌, ◌^◌, ◌≤◌, ◌<◌, ◌≡◌, ◌≢◌, refl, sym, ◌∙◌, ap, arith,
}

-- (w >> lo) & (2^n - 1), also written (w & mask) >> lo in the code.
abbrev pub field : ℕ → ℕ → ℕ → ℕ
field w lo n = w / 2 ^ lo % 2 ^ n

-- Bit k of a word, as 0 or 1.
unfoldable pub bit : ℕ → ℕ → ℕ
bit w zero = w % 2
bit w (suc k) = bit (w / 2) k

-- The native `bit_or` goes through the binary digits of its first argument, on fuel.
abbrev or_digits : ℕ → ℕ → ℕ → ℕ
or_digits fuel x y = digits (λ d. d) max fuel x y

or_digits-zero : (fuel y : ℕ) → or_digits fuel 0 y ≡ y
or_digits-zero zero y = refl
or_digits-zero (suc fuel) y = refl

-- Any fuel from the first argument on gives the same.
or_digits_stable : (x y f g : ℕ) → x ≤ f → x ≤ g → or_digits f x y ≡ or_digits g x y
or_digits_stable zero y f g hf hg = or_digits-zero f y ∙ sym (or_digits-zero g y)
or_digits_stable (suc x) y zero g hf hg = absurd (omega arith)
or_digits_stable (suc x) y (suc f) zero hf hg = absurd (omega arith)
or_digits_stable (suc x) y (suc f) (suc g) hf hg =
    let half = suc x / 2 in
    ap (λ (d : ℕ). d * 2 + max (suc x % 2) (y % 2))
      (or_digits_stable half (y / 2) f g (omega arith) (omega arith))

bit_or_fuel : (x y f : ℕ) → x ≤ f → or_digits f x y ≡ bit_or x y
bit_or_fuel x y f h = or_digits_stable x y f x h (omega arith) ∙ sym (bit_or-bitwise x y)

-- The law for the lowest digit.
bit_or_step : (a b : ℕ) → bit_or a b ≡ bit_or (a / 2) (b / 2) * 2 + max (a % 2) (b % 2)
bit_or_step zero b =
    let whole = bit_or_fuel 0 b 0 (omega arith) in
    let half = bit_or_fuel 0 (b / 2) 0 (omega arith) in omega (arith, sym whole, sym half)
bit_or_step (suc a) b =
    let low = max (suc a % 2) (b % 2) in
    bit_or-bitwise (suc a) b
    ∙ ap (λ (d : ℕ). d * 2 + low) (bit_or_fuel (suc a / 2) (b / 2) a (omega arith))

bit_or-div2 : (a b : ℕ) → bit_or a b / 2 ≡ bit_or (a / 2) (b / 2)
bit_or-div2 a b = omega (arith, bit_or_step a b)

-- A bit of `a | b` is set exactly when it is set in one of the two.
pub bit-bit_or : (a b k : ℕ) → bit (bit_or a b) k ≡ max (bit a k) (bit b k)
unfolding bit
bit-bit_or a b zero = omega (arith, bit_or_step a b)
bit-bit_or a b (suc k) = rw (bit_or-div2 a b) (bit-bit_or (a / 2) (b / 2) k)

pub bit_le : (w k : ℕ) → bit w k ≤ 1
unfolding bit
bit_le w zero = omega arith
bit_le w (suc k) = bit_le (w / 2) k

pub bit-zero : (k : ℕ) → bit 0 k ≡ 0
unfolding bit
bit-zero zero = refl
bit-zero (suc k) = bit-zero k

pow-half : (j : ℕ) → 2 ^ suc j / 2 ≡ 2 ^ j
pow-half j = omega (arith, two-pow-succ j)

-- `1 << j`, bit by bit.
pub bit-shift_self : (j : ℕ) → bit (2 ^ j) j ≡ 1
unfolding bit
bit-shift_self zero = refl
bit-shift_self (suc j) = rw (pow-half j) (bit-shift_self j)

pub bit-shift_ne : (j k : ℕ) → j ≢ k → bit (2 ^ j) k ≡ 0
unfolding bit
bit-shift_ne zero zero h = absurd (h refl)
bit-shift_ne zero (suc k) h = bit-zero k
bit-shift_ne (suc j) zero h = omega (arith, two-pow-succ j)
bit-shift_ne (suc j) (suc k) h = rw (pow-half j) (bit-shift_ne j k (λ e. h (ap suc e)))

-- `a | b` needs no more bits than the wider of the two.
pub bit_or-lt : (n a b : ℕ) → a < 2 ^ n → b < 2 ^ n → bit_or a b < 2 ^ n
bit_or-lt zero a b p q =
    let a0 : a ≡ 0 = omega arith in let b0 : b ≡ 0 = omega arith in rw (a0, b0) (omega arith)
bit_or-lt (suc n) a b p q = omega (
  arith,
  two-pow-succ n,
  bit_or_step a b,
  bit_or-lt n (a / 2) (b / 2) (omega (arith, two-pow-succ n)) (omega (arith, two-pow-succ n)),
)

-- (w >> k) & 1, as the code reads a bit.
pub bit-eq-shift : (w k : ℕ) → w / 2 ^ k % 2 ≡ bit w k
unfolding bit
bit-eq-shift w zero = omega arith
bit-eq-shift w (suc k) =
    rw (pow-succ' 2 k, ← div-div-eq-div-mul w 2 (2 ^ k)) (bit-eq-shift (w / 2) k)

bit_or-zero_below : (f x : ℕ) → x ≤ f → bit_or x 0 ≡ x
bit_or-zero_below zero x h =
    let none_set : x ≡ 0 = omega arith in
    rw none_set (omega (arith, sym (bit_or_fuel 0 0 0 (omega arith))))
bit_or-zero_below (suc f) x h =
    let step : bit_or x 0 ≡ bit_or (x / 2) 0 * 2 + max (x % 2) 0 = bit_or_step x 0 in
    omega (arith, step, bit_or-zero_below f (x / 2) (omega arith))

-- `a | 0` is `a`.
pub bit_or-zero : (x : ℕ) → bit_or x 0 ≡ x
bit_or-zero x = bit_or-zero_below x x (omega arith)
