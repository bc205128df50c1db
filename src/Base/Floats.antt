-- ===== src/Base/Floats.antt =====
-- `f64` as an interface: the model takes the numbers and the operations that the program uses as a
-- parameter. A decimal literal is the quotient of two integers, which IEEE division rounds as a
-- literal is rounded. The laws are those that the program relies on: a cast to `u64` saturates.
use Prim.Native.Nat.{ℕ, ◌+◌, ◌*◌, ◌/◌, ◌≤◌, ◌^◌, ◌-◌, ◌%◌, min}
use mathlib.Core.Bool.{Bool}
use native.Mathlib.Omega.{arith}
use mathlib.Core.Path.{◌≡◌, refl}
use mathlib.Core.List.{List, [], ◌∷◌}
use aether_radio_sim.Base.Lists.{length}
use aether_radio_sim.Base.Tests.{ltb, leb, if◌then◌else◌}

pub record Float64 : Type 1 where
  pub Num : Type 0
  -- `n as f64`
  pub of_nat : ℕ → Num
  pub add : Num → Num → Num
  pub mul : Num → Num → Num
  pub div : Num → Num → Num
  pub lt : Num → Num → Bool
  pub le : Num → Num → Bool
  pub round : Num → Num
  pub fmax : Num → Num → Num
  -- `x as u64`, and `x as usize` on a 64-bit target
  pub to_u64 : Num → ℕ
  pub to_u64-le : (x : Num) → to_u64 x ≤ 2 ^ 64 - 1

-- Non-negative fractions (numerator, denominator), which round only at `round` and at a cast.
pub fraction_to_u64-le : (x : ℕ × ℕ) → min (x.0 / x.1) (2 ^ 64 - 1) ≤ 2 ^ 64 - 1
fraction_to_u64-le x = omega arith

abbrev pub fractions : Float64
fractions = record {
  Num = ℕ × ℕ;
  of_nat = λ n. (n, 1);
  add = λ a b. (a.0 * b.1 + b.0 * a.1, a.1 * b.1);
  mul = λ a b. (a.0 * b.0, a.1 * b.1);
  div = λ a b. (a.0 * b.1, a.1 * b.0);
  lt = λ a b. ltb (a.0 * b.1) (b.0 * a.1);
  le = λ a b. leb (a.0 * b.1) (b.0 * a.1);
  round = λ a. ((a.0 + a.0 + a.1) / (a.1 + a.1), 1);
  fmax = λ a b. if ltb (a.0 * b.1) (b.0 * a.1) then b else a;
  to_u64 = λ a. min (a.0 / a.1) (2 ^ 64 - 1);
  to_u64-le = fraction_to_u64-le;
}

-- `f32` as far as samples are made of it and put into bytes; the law is the width of its encoding.
pub record Float32 : Type 1 where
  pub Num : Type 0
  pub of_nat : ℕ → Num
  pub add : Num → Num → Num
  pub mul : Num → Num → Num
  pub div : Num → Num → Num
  pub cos : Num → Num
  pub sin : Num → Num
  pub to_le_bytes : Num → List ℕ
  pub length-to_le_bytes : (x : Num) → length (to_le_bytes x) ≡ 4

-- Small numbers in place of samples, in the lowest byte.
abbrev pub byte_samples : Float32
byte_samples = record {
  Num = ℕ;
  of_nat = λ n. n;
  add = λ a b. a + b;
  mul = λ a b. a * b;
  div = λ a b. a / b;
  cos = λ a. a;
  sin = λ a. a;
  to_le_bytes = λ a. a % 256 ∷ 0 ∷ 0 ∷ 0 ∷ [];
  length-to_le_bytes = λ a. refl;
}
