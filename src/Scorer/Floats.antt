-- ===== src/Scorer/Floats.antt =====
-- internal/scorer: the float64 arithmetic of the scores. A development over any numbers with these
-- operations; the constants of the source are given to `decimal` as digits and the number of digits
-- behind the point.
use dittobench_api.Base.{ℕ, ◌+◌, ◌-◌, ◌*◌, ◌/◌, ◌^◌, Bool, ltb, leb, if◌then◌else◌, nat_eq, ◌==◌}

pub record Floats (F : Type 0) : Type 0 where
  pub of_nat : ℕ → F
  pub decimal : ℕ → ℕ → F
  pub add : F → F → F
  pub sub : F → F → F
  pub mul : F → F → F
  pub div : F → F → F
  pub less : F → F → Bool
  pub less_eq : F → F → Bool
  pub equal : F → F → Bool
  pub round : F → F
  pub log : F → F
  pub exp : F → F
  pub sqrt : F → F

-- Fixed-point numbers with six digits behind the point, none below zero, to run the definitions on.
abbrev million : ℕ
million = 1000000

abbrev pub fixed_point : Floats ℕ
fixed_point = record {
  of_nat = λ n. n * million;
  decimal = λ n k. n * million / 10 ^ k;
  add = λ a b. a + b;
  sub = λ a b. a - b;
  mul = λ a b. a * b / million;
  div = λ a b. a * million / b;
  less = ltb;
  less_eq = leb;
  equal = λ a b. a == b;
  round = λ a. (a + 500000) / million * million;
  log = λ a. 0;
  exp = λ a. million;
  sqrt = λ a. a;
}

module _ {F : Type 0} (ops : Floats F) where
  abbrev pub zero_float : F
  zero_float = ops.of_nat 0

  abbrev pub one_float : F
  one_float = ops.of_nat 1

  unfoldable pub clamp01 : F → F
  clamp01 x =
      if ops.less x zero_float then zero_float else if ops.less one_float x then one_float else x

  unfoldable pub round6 : F → F
  round6 x = ops.div (ops.round (ops.mul x (ops.of_nat 1000000))) (ops.of_nat 1000000)

  unfoldable pub ratio : ℕ → ℕ → F
  ratio num denom = if leb denom 0 then zero_float else ops.div (ops.of_nat num) (ops.of_nat denom)

  unfoldable pub f1 : F → F → F
  f1 p r =
      if ops.equal (ops.add p r) zero_float
      then zero_float
      else ops.div (ops.mul (ops.mul (ops.of_nat 2) p) r) (ops.add p r)
