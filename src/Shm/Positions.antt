-- ===== src/Shm/Positions.antt =====
-- Positions that only grow, taken modulo the number of slots.
use aether_radio_sim.Base.{ℕ, ◌+◌, ◌/◌, ◌%◌, ◌<◌, ◌≤◌, ◌≡◌, ◌≢◌, ◌⊎◌, inl, inr, arith}
use native.Mathlib.Nat.{mod-add-div, mul-le-mul_left, mul-add}

le-cases : (a b : ℕ) → (a ≤ b) ⊎ (b + 1 ≤ a)
le-cases a b = grind arith

pub order-cases : (a b : ℕ) → (a < b) ⊎ ((a ≡ b) ⊎ (b < a))
order-cases a b = grind arith

-- Two positions less than the number of slots apart are at different slots.
pub mod-ne : (n a b : ℕ) → a < b → b < a + n → a % n ≢ b % n
mod-ne n a b lt near same = elim (le-cases (b / n) (a / n)) [
  | inl h ↦ omega (arith, mod-add-div a n, mod-add-div b n, mul-le-mul_left n h)
  | inr h ↦
      omega (arith, mod-add-div a n, mod-add-div b n, mul-le-mul_left n h, mul-add n (a / n) 1)
]
