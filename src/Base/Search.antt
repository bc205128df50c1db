-- ===== src/Base/Search.antt =====
-- `Iterator::position`, and counting by a test.
use Prim.Native.Nat.{ℕ, zero, suc, ◌+◌, ◌<◌, ◌≤◌}
use mathlib.Core.Path.{◌≡◌, refl}
use mathlib.Core.Bool.{Bool, true, false, not}
use mathlib.Core.List.{List, [], ◌∷◌}
use mathlib.Core.Option
use mathlib.Core.Option.{Option, none, some}
use native.Mathlib.Omega.{arith}
use aether_radio_sim.Base.Tests.{if◌then◌else◌}
use aether_radio_sim.Base.Lists.{length, get_elem?, set}

module _ {ℓ} {A : Type ℓ} (p : A → Bool) where
  unfoldable pub position : List A → Option ℕ
  position [] = none
  position (x ∷ xs) = if p x then some 0 else Option.map suc (position xs)

  -- `iter().filter(p).count()`
  unfoldable pub count_where : List A → ℕ
  count_where [] = 0
  count_where (x ∷ xs) = (if p x then 1 else 0) + count_where xs

  pub position-some :
      (xs : List A) (i : ℕ)
      → position xs ≡ some i
      → (x : A) × (get_elem? xs i ≡ some x) × (p x ≡ true)
  unfolding position
  position-some [] i e = absurd (ground arith)
  position-some (x ∷ xs) zero e = (x, refl, ground arith)
  position-some (x ∷ xs) (suc i) e = position-some xs i (ground arith)

  pub position_before :
      (xs : List A) (i j : ℕ) (y : A)
      → position xs ≡ some i
      → j < i
      → get_elem? xs j ≡ some y
      → p y ≡ false
  unfolding position
  position_before [] i j y e h g = absurd (ground arith)
  position_before (x ∷ xs) zero j y e h g = absurd (omega arith)
  position_before (x ∷ xs) (suc i) zero y e h g = ground arith
  position_before (x ∷ xs) (suc i) (suc j) y e h g =
      position_before xs i j y (ground arith) (omega arith) g

  pub position-none :
      (xs : List A) (j : ℕ) (y : A) → position xs ≡ none → get_elem? xs j ≡ some y → p y ≡ false
  unfolding position
  position-none [] j y e g = absurd (ground arith)
  position-none (x ∷ xs) zero y e g = ground arith
  position-none (x ∷ xs) (suc j) y e g = position-none xs j y (ground arith) g

  pub position_first :
      (xs : List A) (i : ℕ) (x : A)
      → get_elem? xs i ≡ some x
      → p x ≡ true
      → ((j : ℕ) (y : A) → j < i → get_elem? xs j ≡ some y → p y ≡ false)
      → position xs ≡ some i
  unfolding position
  position_first [] i x g t h = absurd (ground arith)
  position_first (y ∷ xs) zero x g t h = ground arith
  position_first (y ∷ xs) (suc i) x g t h = ground (
    arith,
    h 0 y (omega arith) refl,
    position_first xs i x g t (λ j z lt e. h (suc j) z (omega arith) e),
  )

  pub position_all_false :
      (xs : List A) → ((j : ℕ) (y : A) → get_elem? xs j ≡ some y → p y ≡ false) → position xs ≡ none
  unfolding position
  position_all_false [] h = refl
  position_all_false (x ∷ xs) h =
      ground (arith, h 0 x refl, position_all_false xs (λ j y e. h (suc j) y e))

  pub count_where-le : (xs : List A) → count_where xs ≤ length xs
  unfolding count_where
  count_where-le [] = omega arith
  count_where-le (x ∷ xs) = ground (arith, count_where-le xs)

  pub position-none_count : (xs : List A) → position xs ≡ none → count_where xs ≡ 0
  unfolding position count_where
  position-none_count [] e = refl
  position-none_count (x ∷ xs) e = ground (arith, position-none_count xs)

  pub position-some_count : (xs : List A) (i : ℕ) → position xs ≡ some i → 0 < count_where xs
  unfolding position count_where
  position-some_count [] i e = absurd (ground arith)
  position-some_count (x ∷ xs) zero e = ground arith
  position-some_count (x ∷ xs) (suc i) e = ground (arith, position-some_count xs i)

  -- What an overwritten entry adds to the count and takes from it.
  pub count_where-set :
      (xs : List A) (i : ℕ) (x y : A)
      → get_elem? xs i ≡ some x
      → count_where (set xs i y) + (if p x then 1 else 0) ≡ count_where xs + (if p y then 1 else 0)
  unfolding count_where
  count_where-set [] i x y e = absurd (ground arith)
  count_where-set (z ∷ xs) zero x y e = ground arith
  count_where-set (z ∷ xs) (suc i) x y e = omega (arith, count_where-set xs i x y e)

pub count_where-not {ℓ} :
    {A : Type ℓ} (p : A → Bool) (xs : List A)
    → count_where p xs + count_where (λ x. not (p x)) xs ≡ length xs
unfolding count_where
count_where-not p [] = omega arith
count_where-not p (x ∷ xs) = ground (arith, count_where-not p xs)
