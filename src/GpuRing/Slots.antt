-- ===== src/GpuRing/Slots.antt =====
-- What one slot goes through: the functions that crates/gpu-runtime/src/ring.rs applies to a slot
-- move it along one edge of the cycle or leave it as it was.
use aether_radio_sim.Base.{ℕ, ◌≤◌, ◌≡◌, ◌⊎◌, List, [], true, length, arith}
use aether_radio_sim.GpuRing.{
  free, receiving, RingSlot, is_edge, receive_slot, fill_slot, start_slot, finish_slot, clear_slot,
}

-- A payload fits its slot, and a slot that waits for one has none.
pub record SlotValid (slot_bytes : ℕ) (s : RingSlot) : Type 0 where
  pub fits : length s.payload ≤ slot_bytes
  pub blank_free : s.state ≡ free → s.payload ≡ []
  pub blank_receiving : s.state ≡ receiving → s.payload ≡ []

-- An edge of the cycle that keeps a valid slot valid, or nothing.
abbrev pub SlotMove : ℕ → RingSlot → RingSlot → Type 0
SlotMove n s t = (t ≡ s) ⊎ ((is_edge s.state t.state ≡ true) × (SlotValid n s → SlotValid n t))

pub receive_slot-SlotMove :
    (n idx arrive_ns : ℕ) (s : RingSlot) → SlotMove n s (receive_slot idx arrive_ns s).0
unfolding receive_slot
receive_slot-SlotMove n idx arrive_ns s = ground arith

pub fill_slot-SlotMove :
    (n : ℕ) (payload : List ℕ) (s : RingSlot) → SlotMove n s (fill_slot n payload s).0
unfolding fill_slot
fill_slot-SlotMove n payload s = ground arith

pub start_slot-SlotMove :
    (n : ℕ) (result : ℕ × ℕ) (s : RingSlot) → SlotMove n s (start_slot result s).0
unfolding start_slot
start_slot-SlotMove n result s = ground arith

pub finish_slot-SlotMove : (n done_ns : ℕ) (s : RingSlot) → SlotMove n s (finish_slot done_ns s).0
unfolding finish_slot
finish_slot-SlotMove n done_ns s = ground arith

pub clear_slot-SlotMove : (n : ℕ) (s : RingSlot) → SlotMove n s (clear_slot s).0
unfolding clear_slot
clear_slot-SlotMove n s = ground arith
