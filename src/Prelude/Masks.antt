-- ===== src/Prelude/Masks.antt =====
-- What `&` does to the bits of a machine word.
use Prim.Native.Nat.{min, bit_and, digits, bit_and-bitwise}
use star_hlt_tofmtd.Prelude.{ℕ, zero, suc, ◌+◌, ◌*◌, ◌/◌, ◌%◌, ◌≤◌, ◌≡◌, refl, ◌∙◌, ap, arith}
use star_hlt_tofmtd.Prelude.Bits.{bit, bit-zero}

and_digits : ℕ → ℕ → ℕ → ℕ
and_digits fuel x y = digits (λ d. zero) min fuel x y

and_digits-zero : (fuel y : ℕ) → and_digits fuel 0 y ≡ 0
unfolding and_digits
and_digits-zero zero y = refl
and_digits-zero (suc fuel) y = refl

and_digits_step :
    (fuel x y : ℕ)
    → and_digits (suc fuel) (suc x) y
      ≡ and_digits fuel (suc x / 2) (y / 2) * 2 + min (suc x % 2) (y % 2)
unfolding and_digits
and_digits_step fuel x y = refl

-- The bits of the result, on fuel that is enough for the first argument.
bit-and_digits : (k f x y : ℕ) → x ≤ f → bit (and_digits f x y) k ≡ min (bit x k) (bit y k)
unfolding bit
bit-and_digits k f zero y h = rw (and_digits-zero f y, bit-zero k) (omega arith)
bit-and_digits k zero (suc x) y h = absurd (omega arith)
bit-and_digits zero (suc f) (suc x) y h = omega (arith, and_digits_step f x y)
bit-and_digits (suc k) (suc f) (suc x) y h =
    let half : and_digits (suc f) (suc x) y / 2 ≡ and_digits f (suc x / 2) (y / 2) =
      omega (arith, and_digits_step f x y) in
    rw half (bit-and_digits k f (suc x / 2) (y / 2) (omega arith))

-- A bit of `a & b` is set exactly when it is set in both.
pub bit-bit_and : (a b k : ℕ) → bit (bit_and a b) k ≡ min (bit a k) (bit b k)
unfolding and_digits
bit-bit_and a b k =
    ap (λ (w : ℕ). bit w k) (bit_and-bitwise a b) ∙ bit-and_digits k a a b (omega arith)
