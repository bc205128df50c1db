-- ===== src/GpuRing/Cycle.antt =====
-- The ring as a state machine: one call of a method of crates/gpu-runtime/src/ring.rs is one step.
use aether_radio_sim.Base.{
  ℕ, ◌≡◌, refl, ap, inl, inr, List, [], ◌∷◌, true, Result, get_elem?, set-get_elem?, set, ◌∙◌,
  Option, Option-cases, none, some,
}
use aether_radio_sim.GpuRing.{
  free, ready, RingSlot, GpuRingBuffer, GpuError, put_slot, is_edge, with_slot, on_found,
  find_state, begin_receive, complete_receive, begin_process, complete_process, release,
}
use aether_radio_sim.GpuRing.Slots.{
  SlotValid, SlotMove, receive_slot-SlotMove, fill_slot-SlotMove, start_slot-SlotMove,
  finish_slot-SlotMove, clear_slot-SlotMove,
}

-- A call of one of the ring's methods with its arguments.
pub data Op : Type 0 where
  begins_receive : ℕ → Op
  completes_receive : ℕ → List ℕ → Op
  begins_process : ℕ → Op
  completes_process : ℕ → ℕ → Op
  releases : ℕ → Op

-- The ring after a call, whatever the call returns.
unfoldable pub step : Op → GpuRingBuffer → GpuRingBuffer
step (begins_receive arrive_ns) r = (begin_receive arrive_ns r).0
step (completes_receive idx payload) r = (complete_receive idx payload r).0
step (begins_process now_ns) r = (begin_process now_ns r).0
step (completes_process idx done_ns) r = (complete_process idx done_ns r).0
step (releases idx) r = (release idx r).0

unfoldable pub run : List Op → GpuRingBuffer → GpuRingBuffer
run [] r = r
run (o ∷ os) r = run os (step o r)

-- Nothing changes, or one slot goes along one edge of the cycle and stays valid.
pub data Step (r : GpuRingBuffer) : GpuRingBuffer → Type 0 where
  stay : {t : GpuRingBuffer} → t ≡ r → Step r t
  move :
      {t : GpuRingBuffer} (idx : ℕ) (s s' : RingSlot)
      → get_elem? r.slots idx ≡ some s
      → is_edge s.state s'.state ≡ true
      → (SlotValid r.slot_bytes s → SlotValid r.slot_bytes s')
      → t ≡ put_slot idx s' r
      → Step r t

put_slot-Step :
    (idx : ℕ) (s s' : RingSlot) (r : GpuRingBuffer)
    → get_elem? r.slots idx ≡ some s
    → SlotMove r.slot_bytes s s'
    → Step r (put_slot idx s' r)
put_slot-Step idx s s' r e (inl same) =
    stay (λ i. record r { slots = (ap (set r.slots idx) same ∙ set-get_elem? r.slots idx s e) i })
put_slot-Step idx s s' r e (inr (edge, keeps)) = move idx s s' e edge keeps refl

with_slot-Step :
    {A : Type 0} (idx : ℕ) (missing : GpuError) (f : RingSlot → RingSlot × Result GpuError A)
    (r : GpuRingBuffer)
    → ((s : RingSlot) → SlotMove r.slot_bytes s (f s).0)
    → Step r (with_slot idx missing f r).0
with_slot-Step idx missing f r h = elim (Option-cases (get_elem? r.slots idx)) [
  | inl e ↦ rw (e, with_slot) (stay refl)
  | inr (s, e) ↦ rw (e, with_slot) (put_slot-Step idx s (f s).0 r e (h s))
]

on_found-Step :
    (o : Option ℕ) (r : GpuRingBuffer) {A : Type 0} (nothing : GpuError) (missing : GpuError)
    (f : ℕ → RingSlot → RingSlot × Result GpuError A)
    → ((idx : ℕ) (s : RingSlot) → SlotMove r.slot_bytes s (f idx s).0)
    → Step r (on_found o nothing missing f r).0
on_found-Step none r nothing missing f h = stay refl
on_found-Step (some idx) r nothing missing f h = with_slot-Step idx missing (f idx) r (h idx)

-- Each call of a method leaves the ring as it was, or takes one slot along one edge of
-- Free → Receiving → Ready → Processing → Done → Free and keeps that slot valid.
pub step-Step : (o : Op) (r : GpuRingBuffer) → Step r (step o r)
unfolding step begin_receive complete_receive begin_process complete_process release
step-Step (begins_receive arrive_ns) r =
    on_found-Step (find_state r free) r _ _ _
      (λ idx. receive_slot-SlotMove r.slot_bytes idx arrive_ns)
step-Step (completes_receive idx payload) r =
    with_slot-Step idx _ _ r (fill_slot-SlotMove r.slot_bytes payload)
step-Step (begins_process now_ns) r =
    on_found-Step (find_state r ready) r _ _ _ (λ idx. start_slot-SlotMove r.slot_bytes _)
step-Step (completes_process idx done_ns) r =
    with_slot-Step idx _ _ r (finish_slot-SlotMove r.slot_bytes done_ns)
step-Step (releases idx) r = with_slot-Step idx _ _ r (clear_slot-SlotMove r.slot_bytes)
