-- ===== src/Base/Number.antt =====
-- What the program uses of JavaScript's binary64 numbers (prices, costs, probabilities, thresholds).
-- They are a parameter: no law of arithmetic is assumed, and a theorem that needs an order law
-- takes it as a hypothesis.
use mathlib.Core.Bool.{Bool}
use Prim.Native.Nat.{ℕ, ◌+◌, ◌-◌, ◌*◌, ◌/◌}
use downshift.Base.Tests.{leb, ltb, ◌==◌}

pub record Number (F : Type 0) : Type 0 where
  pub zero_f : F
  pub add : F → F → F
  pub sub : F → F → F
  pub mul : F → F → F
  pub div : F → F → F
  -- A nonnegative integer as a number.
  pub of_ℕ : ℕ → F
  -- `a <= b`, `a < b` and `a === b`.
  pub le : F → F → Bool
  pub lt : F → F → Bool
  pub same : F → F → Bool

-- The natural numbers as such numbers, on which the operations can be run.
abbrev pub natural_numbers : Number ℕ
natural_numbers = record {
  zero_f = 0;
  add = λ a b. a + b;
  sub = λ a b. a - b;
  mul = λ a b. a * b;
  div = λ a b. a / b;
  of_ℕ = λ n. n;
  le = leb;
  lt = ltb;
  same = λ a b. a == b;
}
