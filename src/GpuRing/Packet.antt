-- ===== src/GpuRing/Packet.antt =====
-- `process_packet` of crates/gpu-runtime/src/ring.rs: what a packet does to the ring.
use aether_radio_sim.Base.{
  ℕ, ◌+◌, ◌<◌, ◌≤◌, ◌≡◌, refl, ap, sym, subst, ◌∙◌, List, [], true, false, Bool, not, ok, err,
  get_elem?, set-set, get_elem?-set_self, get_elem?-set_ne, get_elem?-lt, length, none, some, arith,
  if◌then◌else◌, saturating_add, saturating_sub,
}
use mathlib.Core.Option.{some-injective}
use aether_radio_sim.Base.Search.{
  position, position-some, position-none, position_first, position_before, count_where,
  count_where-set,
}
use aether_radio_sim.Base.Machine.{Method, ◌>>=◌, ◌>>◌, pure, >>=_ok, >>=_err}
use aether_radio_sim.GpuRing.{
  free, receiving, ready, processing, done, RingSlot, GpuRingBuffer, GpuError, payload_too_large,
  put_slot, find_state, begin_receive, complete_receive, begin_process, complete_process, release,
  process_packet, occupied, in_state, state_eq, with_slot, on_found,
}
use aether_radio_sim.GpuRing.Validity.{begin_receive-some}

-- one call on a slot that is there
module _ (r : GpuRingBuffer) (idx : ℕ) (s : RingSlot) (here : get_elem? r.slots idx ≡ some s) where
  complete_receive_ready :
      (payload : List ℕ)
      → s.state ≡ receiving
      → length payload ≤ r.slot_bytes
      → complete_receive idx payload r
        ≡ (put_slot idx (record s { payload = payload; state = ready }) r, ok tt)
  unfolding complete_receive
  complete_receive_ready payload e h = rw (here, with_slot) (ground arith)

  complete_receive_large :
      (payload : List ℕ)
      → s.state ≡ receiving
      → r.slot_bytes < length payload
      → complete_receive idx payload r ≡ (put_slot idx s r, err payload_too_large)
  unfolding complete_receive
  complete_receive_large payload e h = rw (here, with_slot) (ground arith)

  complete_process_done :
      (done_ns : ℕ)
      → s.state ≡ processing
      → complete_process idx done_ns r ≡ (
        put_slot idx (record s { done_ns = done_ns; state = done }) r,
        ok (saturating_sub done_ns s.arrive_ns),
      )
  unfolding complete_process
  complete_process_done done_ns e = rw (here, with_slot) (ground arith)

  release_free :
      s.state ≡ done
      → release idx r ≡ (put_slot idx (record s { payload = []; state = free }) r, ok tt)
  unfolding release
  release_free e = rw (here, with_slot) (ground arith)

  begin_process_first :
      (now_ns : ℕ)
      → s.state ≡ ready
      → find_state r ready ≡ some idx
      → begin_process now_ns r ≡ (
        put_slot idx (record s { state = processing }) r,
        ok (idx, saturating_add now_ns r.kernel_delay_ns),
      )
  unfolding begin_process find_state
  begin_process_first now_ns e found = rw (found, on_found, here, with_slot) (ground arith)

put_slot_here :
    (r : GpuRingBuffer) (idx : ℕ) (s t : RingSlot)
    → get_elem? r.slots idx ≡ some s
    → get_elem? (put_slot idx t r).slots idx ≡ some t
put_slot_here r idx s t h = get_elem?-set_self r.slots idx t (get_elem?-lt r.slots idx h)

put_slot_twice :
    (r : GpuRingBuffer) (idx : ℕ) (s t : RingSlot)
    → put_slot idx t (put_slot idx s r) ≡ put_slot idx t r
put_slot_twice r idx s t = λ i. record r { slots = set-set r.slots idx s t i }

-- the slot as `release` leaves it
abbrev pub released : GpuRingBuffer → ℕ → RingSlot → RingSlot
released r now_ns s = record {
  state = free;
  payload = [];
  arrive_ns = s.arrive_ns;
  done_ns = saturating_add now_ns r.kernel_delay_ns;
}

-- The second half of `process_packet` works on the first slot that is ready.
process_packet_chain :
    (payload : List ℕ) (a : ℕ) (r r1 r2 : GpuRingBuffer) (idx j : ℕ) (s : RingSlot)
    → begin_receive a r ≡ (r1, ok idx)
    → complete_receive idx payload r1 ≡ (r2, ok tt)
    → get_elem? r2.slots j ≡ some s
    → s.state ≡ ready
    → find_state r2 ready ≡ some j
    → process_packet payload a r ≡ (
      put_slot j (released r2 a s) r2,
      ok (saturating_sub (saturating_add a r2.kernel_delay_ns) s.arrive_ns),
    )
unfolding process_packet
process_packet_chain payload a r r1 r2 idx j s e1 e2 g e f =
    >>=_ok (begin_receive a) (λ i. complete_receive i payload >> processed) r e1
    ∙ (>>=_ok (complete_receive idx payload) (λ _. processed) r1 e2
        ∙ (>>=_ok (begin_process a) finish r2 (begin_process_first r2 j s g a e f)
            ∙ (>>=_ok (complete_process j done_at) (λ n. release j >> pure n) (put_slot j s3 r2)
                  (complete_process_done (put_slot j s3 r2) j s3 (put_slot_here r2 j s s3 g) done_at
                    refl)
                ∙ (>>=_ok (release j) (λ _. pure latency) (put_slot j s4 (put_slot j s3 r2))
                      (release_free (put_slot j s4 (put_slot j s3 r2)) j s4
                        (put_slot_here (put_slot j s3 r2) j s3 s4 (put_slot_here r2 j s s3 g)) refl)
                    ∙ ap (λ x. (x, ok latency)) same_slot))))
  where
    done_at : ℕ
    done_at = saturating_add a r2.kernel_delay_ns

    s3 : RingSlot
    s3 = record s { state = processing }

    s4 : RingSlot
    s4 = record s3 { done_ns = done_at; state = done }

    s5 : RingSlot
    s5 = released r2 a s

    latency : ℕ
    latency = saturating_sub done_at s.arrive_ns

    finish : ℕ × ℕ → Method GpuRingBuffer GpuError ℕ
    finish (i, at) = do n ← complete_process i at; release i; pure n

    processed : Method GpuRingBuffer GpuError ℕ
    processed = begin_process a >>= finish

    same_slot : put_slot j s5 (put_slot j s4 (put_slot j s3 r2)) ≡ put_slot j s5 r2
    same_slot = put_slot_twice (put_slot j s3 r2) j s4 s5 ∙ put_slot_twice r2 j s3 s5

-- a slot that holds a packet, or waits for one
abbrev pub waiting : ℕ → RingSlot
waiting a = record { state = receiving; payload = []; arrive_ns = a; done_ns = 0 }

abbrev pub filled : List ℕ → ℕ → RingSlot
filled payload a = record { state = ready; payload = payload; arrive_ns = a; done_ns = 0 }

ready_slot : (s : RingSlot) → in_state ready s ≡ true → s.state ≡ ready
unfolding state_eq
ready_slot s h = ground arith

free_in : (s : RingSlot) → s.state ≡ free → in_state free s ≡ true
unfolding state_eq
free_in s h = ground arith

found_here :
    (p : RingSlot → Bool) (r : GpuRingBuffer) (j : ℕ) (s : RingSlot)
    → position p r.slots ≡ some j
    → get_elem? r.slots j ≡ some s
    → p s ≡ true
found_here p r j s e here =
    let (x, x_here, h) = position-some p r.slots j e in
    subst (λ y. p y ≡ true) (some-injective x s (sym x_here ∙ here)) h

module _ (payload : List ℕ) (a : ℕ) (r : GpuRingBuffer) (idx : ℕ)
    (found : find_state r free ≡ some idx) where
  -- the slot that `begin_receive` takes
  taken : RingSlot
  taken = (begin_receive-some a r idx found).0

  taken_here : get_elem? r.slots idx ≡ some taken
  unfolding taken
  taken_here = (begin_receive-some a r idx found).1

  taken_free : taken.state ≡ free
  unfolding taken
  taken_free = (begin_receive-some a r idx found).2

  pub begin_receive_taken : begin_receive a r ≡ (put_slot idx (waiting a) r, ok idx)
  begin_receive_taken = (begin_receive-some a r idx found).3

  waiting_here : get_elem? (put_slot idx (waiting a) r).slots idx ≡ some (waiting a)
  waiting_here = put_slot_here r idx taken (waiting a) taken_here

  filled_here : get_elem? (put_slot idx (filled payload a) r).slots idx ≡ some (filled payload a)
  filled_here = put_slot_here r idx taken (filled payload a) taken_here

  complete_receive_taken :
      length payload ≤ r.slot_bytes
      → complete_receive idx payload (put_slot idx (waiting a) r)
        ≡ (put_slot idx (filled payload a) r, ok tt)
  complete_receive_taken h =
      complete_receive_ready (put_slot idx (waiting a) r) idx (waiting a) waiting_here payload refl
        h
      ∙ ap (λ x. (x, ok tt)) (put_slot_twice r idx (waiting a) (filled payload a))

  -- The first ready slot once the packet is in its slot, if no slot before it was ready.
  first_ready :
      ((j : ℕ) (s : RingSlot) → j < idx → get_elem? r.slots j ≡ some s → in_state ready s ≡ false)
      → find_state (put_slot idx (filled payload a) r) ready ≡ some idx
  unfolding find_state state_eq
  first_ready none_before =
      position_first (in_state ready) _ idx (filled payload a) filled_here refl λ j s lt e.
        none_before j s lt
          (sym (get_elem?-set_ne r.slots idx j (filled payload a) (omega arith)) ∙ e)

  -- A packet that fits, on a ring with a free slot and none ready, runs through the first free slot
  -- and leaves it free again: the latency is the kernel's delay, cut off where the clock saturates,
  -- and no other slot changes.
  pub process_packet_lem :
      find_state r ready ≡ none
      → length payload ≤ r.slot_bytes
      → process_packet payload a r ≡ (
        put_slot idx (released r a (filled payload a)) r,
        ok (saturating_sub (saturating_add a r.kernel_delay_ns) a),
      )
  unfolding find_state
  process_packet_lem idle fits =
      process_packet_chain payload a r (put_slot idx (waiting a) r)
        (put_slot idx (filled payload a) r) idx idx (filled payload a) begin_receive_taken
        (complete_receive_taken fits) filled_here refl
        (first_ready (λ j s _ e. position-none (in_state ready) r.slots j s idle e))
      ∙ ap (λ x. (x, ok (saturating_sub (saturating_add a r.kernel_delay_ns) a)))
          (put_slot_twice r idx (filled payload a) (released r a (filled payload a)))

  -- Where a slot before the free one is ready already, `process_packet` processes and releases the
  -- first such slot in its place, with that slot's latency, and leaves its own packet ready.
  pub process_packet_other :
      (j : ℕ) (s : RingSlot)
      → find_state r ready ≡ some j
      → j < idx
      → get_elem? r.slots j ≡ some s
      → length payload ≤ r.slot_bytes
      → process_packet payload a r ≡ (
        put_slot j (released r a s) (put_slot idx (filled payload a) r),
        ok (saturating_sub (saturating_add a r.kernel_delay_ns) s.arrive_ns),
      )
  unfolding find_state
  process_packet_other j s other before here fits =
      process_packet_chain payload a r (put_slot idx (waiting a) r)
        (put_slot idx (filled payload a) r) idx j s begin_receive_taken
        (complete_receive_taken fits) still_here
        (ready_slot s (found_here (in_state ready) r j s other here))
        (position_first (in_state ready) _ j s still_here
          (found_here (in_state ready) r j s other here)
          (λ i t lt e.
            position_before (in_state ready) r.slots j i t other lt
              (sym (get_elem?-set_ne r.slots idx i (filled payload a) (omega arith)) ∙ e)))
    where
      still_here : get_elem? (put_slot idx (filled payload a) r).slots j ≡ some s
      still_here = get_elem?-set_ne r.slots idx j (filled payload a) (omega arith) ∙ here

  -- A packet above `slot_bytes` is refused, and the slot that it took stays Receiving: one slot more
  -- is occupied for good.
  pub process_packet_large :
      r.slot_bytes < length payload
      → (process_packet payload a r ≡ (put_slot idx (waiting a) r, err payload_too_large))
        × (occupied (process_packet payload a r).0 ≡ occupied r + 1)
  unfolding process_packet occupied state_eq
  process_packet_large large = (
    refused,
    omega (
      arith,
      ap (λ x. count_where (λ s. not (in_state free s)) x.0.slots) refused,
      count_where-set (λ s. not (in_state free s)) r.slots idx taken (waiting a) taken_here,
      ap {B = ℕ} (λ b. if not b then 1 else 0) (free_in taken taken_free),
    ),
  )
    where
      processed : Method GpuRingBuffer GpuError ℕ
      processed = do (i, at) ← begin_process a; n ← complete_process i at; release i; pure n

      refused : process_packet payload a r ≡ (put_slot idx (waiting a) r, err payload_too_large)
      refused =
          >>=_ok (begin_receive a) (λ i. complete_receive i payload >> processed) r
            begin_receive_taken
          ∙ >>=_err (complete_receive idx payload) (λ _. processed) (put_slot idx (waiting a) r)
              (complete_receive_large (put_slot idx (waiting a) r) idx (waiting a) waiting_here
                  payload refl large
                ∙ ap (λ x. (x, err payload_too_large))
                    (put_slot_twice r idx (waiting a) (waiting a)))
