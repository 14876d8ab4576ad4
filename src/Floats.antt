-- ===== src/Floats.antt =====
-- The machine's floating-point arithmetic, which the program uses and does not implement: the types
-- `double` and `float`, their operations and the conversions between them and the integers.
-- Everything that computes with such numbers takes this as a parameter.
use star_hlt_tofmtd.Prelude.{ℕ, Bool}
use star_hlt_tofmtd.Prelude.Int.{ℤ}

pub record Arith (A : Type 0) : Type 0 where
  -- An integer converted, and the literal m * 10^-k.
  pub of_int : ℤ → A
  pub decimal : ℤ → ℕ → A
  pub add : A → A → A
  pub sub : A → A → A
  pub mul : A → A → A
  pub div : A → A → A
  -- `a < b` and `a == b`; a comparison with NaN is false.
  pub lt : A → A → Bool
  pub eq : A → A → Bool
  -- int(floor(a)), and the conversion to int, which rounds towards zero.
  pub floor : A → ℤ
  pub trunc : A → ℤ

pub record Floats : Type 1 where
  pub Double : Type 0
  pub Float : Type 0
  pub double : Arith Double
  pub float : Arith Float
  pub to_float : Double → Float
  pub to_double : Float → Double
