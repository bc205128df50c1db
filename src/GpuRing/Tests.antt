-- ===== src/GpuRing/Tests.antt =====
-- Concrete rings of crates/gpu-runtime/src/ring.rs.
use aether_radio_sim.Base.{ℕ, List, [], ◌∷◌, ◌≡◌, ◌+◌, refl, ok, err, replicate, arith, none, some}
use aether_radio_sim.Base.Floats.{fractions}
use aether_radio_sim.Base.Search.{position}
use aether_radio_sim.GpuRing.{
  GpuRingConfig, GpuRingBuffer, RingSlot, empty, free, ready, receiving, new, process_packet,
  occupied, payload_too_large, find_state, state_eq,
}
use aether_radio_sim.GpuRing.Cycle.{
  Op, begins_receive, completes_receive, begins_process, releases, run, step, Step, step-Step,
}
use aether_radio_sim.GpuRing.Validity.{IsValid, run-new-IsValid}
use aether_radio_sim.GpuRing.Packet.{process_packet_lem, process_packet_other, process_packet_large}

abbrev two_slots : GpuRingConfig fractions
two_slots = record {
  version = "v1";
  id = "ring";
  slot_count = 2;
  slot_bytes = 4;
  kernel_delay_us = (5, 2);
}

abbrev idle_ring : GpuRingBuffer
idle_ring = record { slots = empty ∷ empty ∷ []; slot_bytes = 4; kernel_delay_ns = 2500 }

abbrev a_payload : List ℕ
a_payload = 1 ∷ 2 ∷ []

-- the first slot ready, the second free
abbrev busy_slot : RingSlot
busy_slot = record { state = ready; payload = 9 ∷ []; arrive_ns = 50; done_ns = 0 }

abbrev busy_ring : GpuRingBuffer
busy_ring = record { slots = busy_slot ∷ empty ∷ []; slot_bytes = 4; kernel_delay_ns = 2500 }

some_calls : List Op
some_calls =
    begins_receive 3 ∷ completes_receive 0 (1 ∷ 2 ∷ []) ∷ begins_process 4 ∷ releases 0 ∷ []

run-new-IsValid_example : IsValid (run some_calls (new fractions two_slots))
run-new-IsValid_example = run-new-IsValid fractions two_slots some_calls

step-Step_example : Step busy_ring (step (begins_process 4) busy_ring)
step-Step_example = step-Step (begins_process 4) busy_ring

none_ready : find_state idle_ring ready ≡ none
unfolding find_state position state_eq
none_ready = refl

free_first : find_state idle_ring free ≡ some 0
unfolding find_state position state_eq
free_first = refl

ready_first : find_state busy_ring ready ≡ some 0
unfolding find_state position state_eq
ready_first = refl

free_second : find_state busy_ring free ≡ some 1
unfolding find_state position state_eq
free_second = refl

process_packet_lem_example : process_packet a_payload 100 idle_ring ≡ (
  record idle_ring { slots = record empty { arrive_ns = 100; done_ns = 2600 } ∷ empty ∷ [] },
  ok 2500,
)
process_packet_lem_example =
    process_packet_lem a_payload 100 idle_ring 0 free_first none_ready (omega arith)

process_packet_other_example : process_packet a_payload 100 busy_ring ≡ (
  record busy_ring {
    slots =
        record { state = free; payload = []; arrive_ns = 50; done_ns = 2600 }
        ∷ record { state = ready; payload = a_payload; arrive_ns = 100; done_ns = 0 }
        ∷ [];
  },
  ok 2550,
)
process_packet_other_example =
    process_packet_other a_payload 100 busy_ring 1 free_second 0 busy_slot ready_first (omega arith)
      refl (omega arith)

process_packet_large_example :
    (process_packet (replicate 5 1) 100 idle_ring ≡ (
      record idle_ring { slots = record empty { state = receiving; arrive_ns = 100 } ∷ empty ∷ [] },
      err payload_too_large,
    ))
    × (occupied (process_packet (replicate 5 1) 100 idle_ring).0 ≡ occupied idle_ring + 1)
process_packet_large_example =
    process_packet_large (replicate 5 1) 100 idle_ring 0 free_first (omega arith)
