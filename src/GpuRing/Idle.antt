-- ===== src/GpuRing/Idle.antt =====
-- A ring of crates/gpu-runtime/src/ring.rs whose slots are all free, as it is between two packets.
use aether_radio_sim.Base.{
  ℕ, zero, suc, ◌<◌, ◌≡◌, refl, List, [], ◌∷◌, none, some, All, length, length-set, set, arith,
}
use aether_radio_sim.Base.Search.{position}
use aether_radio_sim.GpuRing.{
  free, ready, RingSlot, GpuRingBuffer, find_state, put_slot, in_state, state_eq,
}

-- Every slot is free, and there is one.
pub record IsFree (r : GpuRingBuffer) : Type 0 where
  pub free_slots : All (λ s. s.state ≡ free) r.slots
  pub some_slot : 0 < length r.slots

none_ready :
    (slots : List RingSlot)
    → All (λ s. s.state ≡ free) slots
    → position (in_state ready) slots ≡ none
unfolding position state_eq
none_ready [] v = refl
none_ready (s ∷ ss) v = ground (arith, none_ready ss v.1)

pub find_state-ready : (r : GpuRingBuffer) → IsFree r → find_state r ready ≡ none
unfolding find_state
find_state-ready r v = none_ready r.slots v.free_slots

first_free :
    (slots : List RingSlot)
    → All (λ s. s.state ≡ free) slots
    → 0 < length slots
    → position (in_state free) slots ≡ some 0
unfolding position state_eq
first_free [] v h = absurd (omega (arith, h))
first_free (s ∷ ss) v h = ground arith

pub find_state-free : (r : GpuRingBuffer) → IsFree r → find_state r free ≡ some 0
unfolding find_state
find_state-free r v = first_free r.slots v.free_slots v.some_slot

set-All :
    (slots : List RingSlot) (i : ℕ) (s : RingSlot)
    → s.state ≡ free
    → All (λ t. t.state ≡ free) slots
    → All (λ t. t.state ≡ free) (set slots i s)
set-All [] i s e v = v
set-All (t ∷ ts) zero s e v = (e, v.1)
set-All (t ∷ ts) (suc i) s e v = (v.0, set-All ts i s e v.1)

-- A slot that is released leaves the ring idle.
pub put_slot-IsFree :
    (i : ℕ) (s : RingSlot) (r : GpuRingBuffer) → s.state ≡ free → IsFree r → IsFree (put_slot i s r)
put_slot-IsFree i s r e v = record {
  free_slots = set-All r.slots i s e v.free_slots;
  some_slot = omega (arith, v.some_slot, length-set r.slots i s);
}
