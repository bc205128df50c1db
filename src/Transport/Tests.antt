-- ===== src/Transport/Tests.antt =====
-- Concrete engines of crates/aether-transport.
use aether_radio_sim.Base.{
  ℕ, List, [], ◌∷◌, ◌++◌, ◌≡◌, ◌↔◌, refl, ok, err, true, false, length, arith, wrapping_add,
}
use aether_radio_sim.Base.Assoc.{lookup}
use aether_radio_sim.Types.{Packet, StreamId}
use aether_radio_sim.Transport.{
  StreamConfig, running, link_running, sequence_gap, is_open, is_running,
}
use aether_radio_sim.Transport.Check.{
  TransportDeadlineConfig, expected, check_sequence, check_timestamp,
}
use aether_radio_sim.Transport.Sim.{
  SimTransportEngine, StreamRuntime, ingest, recover_sequence, admit, settle,
}
use aether_radio_sim.Transport.Sim.Ingest.{
  Admissible, Refused, ingest-accepts, ingest-Refused, recover_sequence_lem,
}
use aether_radio_sim.Transport.Sim.Order.{
  TransportOp, ingests, receives, creates, starts, goes_up, advances, start, run_in_order,
}
use aether_radio_sim.Transport.Sim.Numbers.{sequences_of, counting}
use aether_radio_sim.Transport.Sim.Order

abbrev deadline : TransportDeadlineConfig
deadline = record {
  version = "v1";
  id = "deadline";
  max_latency_ns = 1000;
  allow_reorder = false;
  start_sequence = 5;
}

abbrev stream_one : StreamConfig
stream_one = record { stream_id = 1; carrier = 0; antenna = 2; qos = 0; deadline_ns = 1000 }

abbrev numbered : ℕ → Packet
numbered n = record { stream_id = 1; sequence = n; timestamp = 0; payload = [] }

abbrev some_calls : List TransportOp
some_calls =
    goes_up
    ∷ creates stream_one
    ∷ starts 1
    ∷ ingests (numbered 5)
    ∷ ingests (numbered 7)
    ∷ ingests (numbered 6)
    ∷ receives
    ∷ advances 2000
    ∷ ingests (numbered 7)
    ∷ []

run_in_order_example :
    let h = Order.run some_calls (start deadline) in
    (h.accepted ≡ h.delivered ++ h.engine.inbox)
    × ((id : StreamId)
        → sequences_of id h.accepted ≡ counting 5 (length (sequences_of id h.accepted)))
run_in_order_example = run_in_order deadline some_calls refl (omega arith)

abbrev one_running : StreamRuntime
one_running = record { cfg = stream_one; state = running }

-- stream 1 runs and expects number 6
abbrev engine : SimTransportEngine
engine = record {
  streams = (1, one_running) ∷ [];
  inbox = numbered 5 ∷ [];
  outbox = [];
  link = link_running;
  seq = record { next = (1, 6) ∷ []; start = 5; allow_reorder = false };
  ts = record { max_latency_ns = 1000 };
  now_ns = 10;
  sequence_gaps = 0;
  late_packets = 0;
}

ingest-accepts_example :
    ((ingest (numbered 6) engine).1 ≡ ok tt)
    ↔ (Admissible (numbered 6) engine × (6 ≡ expected 1 engine.seq))
ingest-accepts_example = ingest-accepts (numbered 6) engine

gap_seen : (ingest (numbered 8) engine).1 ≡ err (sequence_gap 6 8)
unfolding ingest admit settle check_sequence check_timestamp is_open is_running lookup expected
gap_seen = refl

-- the same engine where reordering is allowed
abbrev reordering : SimTransportEngine
reordering = record engine { seq = record engine.seq { allow_reorder = true } }

gap_moves : (ingest (numbered 8) reordering).1 ≡ err (sequence_gap 6 8)
unfolding ingest admit settle check_sequence check_timestamp is_open is_running lookup expected
gap_moves = refl

ingest-Refused_example :
    Refused (numbered 8) reordering (ingest (numbered 8) reordering).0 (sequence_gap 6 8)
ingest-Refused_example = ingest-Refused (numbered 8) reordering (sequence_gap 6 8) gap_moves

recover_sequence_lem_example :
    let (m', r) = ingest (numbered 8) (recover_sequence 1 8 (ingest (numbered 8) engine).0) in
    (r ≡ ok tt) × (m'.inbox ≡ numbered 5 ∷ numbered 8 ∷ []) × (expected 1 m'.seq ≡ wrapping_add 8 1)
recover_sequence_lem_example = recover_sequence_lem (numbered 8) engine 6 8 gap_seen
