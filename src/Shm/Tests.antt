-- ===== src/Shm/Tests.antt =====
-- A concrete ring of crates/shm-io/src/lib.rs.
use aether_radio_sim.Base.{
  ℕ, ◌<◌, ◌≤◌, ◌≡◌, ◌⊎◌, refl, List, [], ◌∷◌, ◌++◌, length, ok, err, arith, replicate,
}
use aether_radio_sim.Types.{Packet, InRange}
use aether_radio_sim.Protocol.Decode.{length-encode_frame}
use aether_radio_sim.Shm.{Slot, ShmPacketRing, slot_state_empty, init_ring, try_push, ring_full}
use aether_radio_sim.Shm.Queue.{Represents, pushed, pushed-Represents, try_push-Represents}
use aether_radio_sim.Shm.Runs.{
  ShmOp, pushes, pops, AllInRange, start, run, run_queue, init_ring-Represents,
}

abbrev numbered : ℕ → Packet
numbered n = record { stream_id = 1; sequence = n; timestamp = 3; payload = 7 ∷ [] }

zero-InRange : InRange (numbered 0)
zero-InRange = record {
  stream_id = omega arith;
  sequence = omega arith;
  timestamp = omega arith;
  payload = omega arith;
}

one-InRange : InRange (numbered 1)
one-InRange = record {
  stream_id = omega arith;
  sequence = omega arith;
  timestamp = omega arith;
  payload = omega arith;
}

abbrev first_slot : Slot
first_slot = record { state = slot_state_empty; len = 0; bytes = replicate 64 0 }

-- two slots of 64 bytes
abbrev empty_ring : ShmPacketRing
empty_ring = record {
  magic = 0x314D_4853;
  version = 1;
  header_slot_count = 2;
  header_slot_bytes = 64;
  write_pos = 0;
  read_pos = 0;
  slots = replicate 2 first_slot;
  slot_count = 2;
  slot_bytes = 64;
  pushed = 0;
  popped = 0;
}

empty_ring-Represents : Represents [] empty_ring
unfolding init_ring
empty_ring-Represents = init_ring-Represents 2 64 (omega arith) (omega arith)

try_push-Represents_example :
    let (ring', r) = try_push (numbered 0) empty_ring in
    ((length {A = Packet} [] < empty_ring.slot_count)
      × (r ≡ ok tt)
      × Represents (numbered 0 ∷ []) ring')
    ⊎ ((length {A = Packet} [] ≡ empty_ring.slot_count)
        × (r ≡ err ring_full)
        × (ring' ≡ empty_ring))
try_push-Represents_example =
    try_push-Represents [] empty_ring (numbered 0) empty_ring-Represents (omega arith) zero-InRange
      (omega (arith, length-encode_frame (numbered 0) zero-InRange))

one_ring-Represents : Represents (numbered 0 ∷ []) (pushed (numbered 0) first_slot empty_ring)
one_ring-Represents =
    pushed-Represents [] empty_ring empty_ring-Represents (omega arith) (numbered 0) first_slot
      zero-InRange (omega (arith, length-encode_frame (numbered 0) zero-InRange)) (omega arith) refl

abbrev some_calls : List ShmOp
some_calls =
    pushes (numbered 0)
    ∷ pushes (numbered 1)
    ∷ pushes (numbered 1)
    ∷ pops
    ∷ pushes (numbered 0)
    ∷ pops
    ∷ []

some_calls-AllInRange : AllInRange some_calls
some_calls-AllInRange = (zero-InRange, (one-InRange, (one-InRange, (zero-InRange, tt))))

run_queue_example :
    let h = run some_calls (start 2 64) in
    (queue : List Packet) × (h.accepted ≡ h.delivered ++ queue)
    × (length queue ≤ h.ring.slot_count)
    × Represents queue h.ring
run_queue_example =
    run_queue 2 64 some_calls (omega arith) (omega arith) (omega arith) some_calls-AllInRange
