-- ===== src/Tests/Fixed.antt =====
-- Fixed-point numbers with six decimals, as one instance of the floating-point parameter.
use star_hlt_tofmtd.Prelude.{suc, ◌/◌, ◌^◌}
use star_hlt_tofmtd.Prelude.Int.{ℤ, pos, negsuc, ◌+ℤ◌, ◌-ℤ◌, ◌*ℤ◌, ◌==ℤ◌, ltb_ℤ, div_trunc}
use star_hlt_tofmtd.Floats.{Arith, Floats}

-- A quotient rounded towards zero.
abbrev quotient : ℤ → ℤ → ℤ
quotient a (pos b) = div_trunc a b
quotient a (negsuc b) = pos 0 -ℤ div_trunc a (suc b)

-- Rounded down.
abbrev floor_of : ℤ → ℤ
floor_of (pos a) = pos (a / 1000000)
floor_of (negsuc a) = negsuc (a / 1000000)

unfoldable fixed_arith : Arith ℤ
unfolding ◌+ℤ◌ ◌-ℤ◌ ◌*ℤ◌ div_trunc
fixed_arith = record {
  of_int = λ z. z *ℤ pos 1000000;
  decimal = λ m k. div_trunc (m *ℤ pos 1000000) (10 ^ k);
  add = λ a b. a +ℤ b;
  sub = λ a b. a -ℤ b;
  mul = λ a b. div_trunc (a *ℤ b) 1000000;
  div = λ a b. quotient (a *ℤ pos 1000000) b;
  lt = ltb_ℤ;
  eq = ◌==ℤ◌;
  floor = floor_of;
  trunc = λ a. div_trunc a 1000000;
}

unfoldable pub fixed : Floats
unfolding fixed_arith
fixed = record {
  Double = ℤ;
  Float = ℤ;
  double = fixed_arith;
  float = fixed_arith;
  to_float = λ a. a;
  to_double = λ a. a;
}
