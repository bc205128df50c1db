-- ===== src/Fault/Tests.antt =====
-- Concrete policies and streams of crates/fault-injection/src/lib.rs.
use aether_radio_sim.Base.{
  ℕ, ◌+◌, ◌%◌, ◌^◌, ◌<◌, ◌≤◌, ◌≡◌, ◌↔◌, List, [], ◌∷◌, ◌++◌, none, Bool, true, arith, All,
}
use aether_radio_sim.Base.Integers.{negsuc}
use aether_radio_sim.Base.Floats.{fractions}
use aether_radio_sim.Base.Search.{count_where}
use aether_radio_sim.Types.{Packet, InRange}
use aether_radio_sim.Fault.{FaultInjectionConfig, injector_new, should_drop_burst, listed, flush}
use aether_radio_sim.Fault.Policy.{should_drop_burst_lem}
use aether_radio_sim.Fault.Injector.{run}
use aether_radio_sim.Fault.Carried.{sent_on, lost, run_conserves}

-- a burst of two from 11 on, and every packet late by two
abbrev bursts : FaultInjectionConfig fractions
bursts = record {
  version = "v1";
  id = "faults";
  enabled = true;
  loss_rate = (0, 1);
  extra_latency_us = (0, 1);
  burst_length = 2;
  kernel_delay_us = (0, 1);
  burst_start = 11;
  reorder_distance = 2;
  sequence_jump = 0;
  timestamp_skew_ns = negsuc 4;
}

abbrev numbered : ℕ → Packet
numbered n = record { stream_id = 1; sequence = n; timestamp = 3; payload = [] }

numbered-InRange : (n : ℕ) → n < 2 ^ 64 → InRange (numbered n)
numbered-InRange n h = record {
  stream_id = omega arith;
  sequence = h;
  timestamp = omega arith;
  payload = omega arith;
}

abbrev some_packets : List Packet
some_packets = numbered 10 ∷ numbered 11 ∷ numbered 12 ∷ numbered 13 ∷ numbered 14 ∷ []

should_drop_burst_lem_example : (should_drop_burst fractions bursts 12 11 ≡ true) ↔ (
    (bursts.enabled ≡ true)
    × (11 ≤ 12)
    × (12 < 11 + bursts.burst_length)
    × (11 + bursts.burst_length < 2 ^ 64))
should_drop_burst_lem_example =
    should_drop_burst_lem fractions bursts 12 11 (omega arith) (omega arith)

-- the numbers jump by one, and the times go back by five
abbrev jumping : FaultInjectionConfig fractions
jumping = record bursts { sequence_jump = 1 }

some_packets-InRange : All InRange some_packets
some_packets-InRange = (
  numbered-InRange 10 (omega arith),
  (
    numbered-InRange 11 (omega arith),
    (
      numbered-InRange 12 (omega arith),
      (numbered-InRange 13 (omega arith), (numbered-InRange 14 (omega arith), tt)),
    ),
  ),
)

run_conserves_example :
    let (last, out) = run fractions some_packets (injector_new fractions jumping) in
    let (after, tail) = flush fractions last in
    ((f : Packet → Bool)
      → count_where f (out ++ listed fractions tail)
        ≡ count_where f (sent_on fractions jumping some_packets))
    × (after.dropped ≡ lost fractions jumping some_packets % 2 ^ 64)
    × (after.held ≡ none)
run_conserves_example = run_conserves fractions jumping some_packets some_packets-InRange
