-- ===== src/Prelude/Float.antt =====
-- `f64` as the program uses it: a type with the tests and the constants that the code names.
-- No law of the comparisons or of the arithmetic is assumed.
use mathlib.Core.Bool.{Bool, true}
use mathlib.Core.Option.{Option, some}
use Prim.Native.Nat.{ℕ, ◌+◌, ◌-◌, ◌*◌, ◌/◌, max}
use zenbench.Prelude.Bools.{ltb, leb}

pub record Float : Type 1 where
  pub F : Type 0
  -- `a < b` and `a <= b`; both are false where an operand is a NaN.
  pub flt : F → F → Bool
  pub fle : F → F → Bool
  pub is_finite : F → Bool
  -- the number that a decimal literal of the source denotes, in hundredths
  pub hundredths : ℕ → F

-- The operations of `f64` that the inferences use, and those of `statrs`.
pub record Arith (f : Float) : Type 0 where
  pub add : f.F → f.F → f.F
  pub sub : f.F → f.F → f.F
  pub mul : f.F → f.F → f.F
  pub div : f.F → f.F → f.F
  pub neg : f.F → f.F
  -- `a.max(b)`
  pub fmax : f.F → f.F → f.F
  pub of_usize : ℕ → f.F
  pub ln : f.F → f.F
  pub ln_1p : f.F → f.F
  pub exp_m1 : f.F → f.F
  pub sqrt : f.F → f.F
  -- `StudentsT::new(0.0, 1.0, freedom)` and its `inverse_cdf`
  pub students_inverse_cdf : (freedom : f.F) → Option (f.F → f.F)

-- Whole hundredths, to run the models on.
abbrev pub whole : Float
whole = record { F = ℕ; flt = ltb; fle = leb; is_finite = λ x. true; hundredths = λ n. n }

-- Their arithmetic, with a logarithm that is linear and no numbers below zero.
abbrev pub linear : Arith whole
linear = record {
  add = λ a b. a + b;
  sub = λ a b. a - b;
  mul = λ a b. (a * b) / 100;
  div = λ a b. (a * 100) / b;
  neg = λ a. 0;
  fmax = λ a b. max a b;
  of_usize = λ n. n * 100;
  ln = λ a. a;
  ln_1p = λ a. a;
  exp_m1 = λ a. a;
  sqrt = λ a. a;
  students_inverse_cdf = λ freedom. some (λ p. p);
}
