-- ===== src/Transport/Sim.antt =====
-- `SimTransportEngine` of crates/aether-transport/src/sim.rs.
pub mod Ingest
pub mod Numbers
pub mod Order
pub mod Streams
pub mod Quiet
use aether_radio_sim.Base.{
  ℕ, List, [], ◌∷◌, ◌++◌, Option, none, some, Bool, true, false, not, Result, ok, err,
  if◌then◌else◌, wrapping_add, saturating_add,
}
use aether_radio_sim.Base.Assoc.{lookup, insert, remove}
use aether_radio_sim.Base.Machine.{Method}
use aether_radio_sim.Types.{Packet, StreamId}
use aether_radio_sim.Transport.{
  StreamConfig, StreamState, idle, running, stopped, StreamStatus, LinkState, link_init,
  link_running, TransportError, stream_not_found, stream_exists, stream_not_running, link_not_ready,
  sequence_gap, is_running, is_open,
}
use aether_radio_sim.Transport.Check.{
  TransportDeadlineConfig, SequenceChecker, TimestampChecker, sequence_from_config,
  timestamp_from_config, register_stream, unregister_stream, resync, check_sequence,
  check_timestamp, last_expected,
}

pub record StreamRuntime : Type 0 where
  pub cfg : StreamConfig
  pub state : StreamState

pub record SimTransportEngine : Type 0 where
  pub streams : List (StreamId × StreamRuntime)
  pub inbox : List Packet
  pub outbox : List Packet
  pub link : LinkState
  pub seq : SequenceChecker
  pub ts : TimestampChecker
  pub now_ns : ℕ
  pub sequence_gaps : ℕ
  pub late_packets : ℕ

unfoldable pub new : TransportDeadlineConfig → SimTransportEngine
new deadline = record {
  streams = [];
  inbox = [];
  outbox = [];
  link = link_init;
  seq = sequence_from_config deadline;
  ts = timestamp_from_config deadline;
  now_ns = 0;
  sequence_gaps = 0;
  late_packets = 0;
}

-- The guards that `ingest` and `send` begin with.
unfoldable pub admit : Packet → SimTransportEngine → Result TransportError (Unit {0})
admit packet m =
    if not (is_open m.link) then err link_not_ready else elim (lookup packet.stream_id m.streams) [
      | none ↦ err (stream_not_found packet.stream_id)
      | some runtime ↦
          if not (is_running runtime.state)
          then err (stream_not_running packet.stream_id)
          else ok tt
    ]

-- The `match` on the outcome of the sequence check.
unfoldable pub settle :
    Packet
    → SimTransportEngine
    → Result TransportError (Unit {0})
    → SimTransportEngine × Result TransportError (Unit {0})
settle packet m (ok _) = (record m { inbox = m.inbox ++ (packet ∷ []) }, ok tt)
settle packet m (err (sequence_gap want got)) =
    (record m { sequence_gaps = wrapping_add m.sequence_gaps 1 }, err (sequence_gap want got))
settle packet m (err e) = (m, err e)

unfoldable pub ingest : Packet → Method SimTransportEngine TransportError (Unit {0})
ingest packet m = elim (admit packet m) [
  | err e ↦ (m, err e)
  | ok _ ↦ elim (check_timestamp m.ts packet m.now_ns) [
    | err e ↦ (record m { late_packets = wrapping_add m.late_packets 1 }, err e)
    | ok _ ↦ let (seq, r) = check_sequence packet m.seq in settle packet (record m { seq = seq }) r
  ]
]

-- `get_mut(&id)` and the new state
abbrev pub put_state : StreamId → StreamState → SimTransportEngine → SimTransportEngine
put_state id state m = elim (lookup id m.streams) [
  | none ↦ m
  | some s ↦ record m { streams = insert id (record s { state = state }) m.streams }
]

unfoldable pub recover_sequence : StreamId → ℕ → SimTransportEngine → SimTransportEngine
recover_sequence id next_seq m =
    record (put_state id running (record m { seq = resync id next_seq m.seq })) {
      link = link_running;
    }

unfoldable pub advance_time : ℕ → SimTransportEngine → SimTransportEngine
advance_time delta_ns m = record m { now_ns = saturating_add m.now_ns delta_ns }

unfoldable pub send : Packet → Method SimTransportEngine TransportError (Unit {0})
send packet m = elim (admit packet m) [
  | err e ↦ (m, err e)
  | ok _ ↦ (record m { outbox = m.outbox ++ (packet ∷ []) }, ok tt)
]

unfoldable pub receive : Method SimTransportEngine TransportError (Option Packet)
receive m = elim m.inbox [
  | [] ↦ (m, ok none)
  | packet ∷ rest ↦ (record m { inbox = rest }, ok (some packet))
]

unfoldable pub create_stream : StreamConfig → Method SimTransportEngine TransportError StreamId
create_stream cfg m = elim (lookup cfg.stream_id m.streams) [
  | some _ ↦ (m, err (stream_exists cfg.stream_id))
  | none ↦ (
    record m {
      seq = register_stream cfg.stream_id m.seq;
      streams = insert cfg.stream_id (record { cfg = cfg; state = idle }) m.streams;
    },
    ok cfg.stream_id,
  )
]

-- `start_stream` and `stop_stream`: the state of a stream that is there
abbrev pub change_state :
    StreamState → StreamId → Method SimTransportEngine TransportError (Unit {0})
change_state state id m = elim (lookup id m.streams) [
  | none ↦ (m, err (stream_not_found id))
  | some s ↦ (record m { streams = insert id (record s { state = state }) m.streams }, ok tt)
]

unfoldable pub start_stream : StreamId → Method SimTransportEngine TransportError (Unit {0})
start_stream = change_state running

unfoldable pub stop_stream : StreamId → Method SimTransportEngine TransportError (Unit {0})
stop_stream = change_state stopped

unfoldable pub query_stream : StreamId → SimTransportEngine → Result TransportError StreamStatus
query_stream id m = elim (lookup id m.streams) [
  | none ↦ err (stream_not_found id)
  | some s ↦ ok (record { stream_id = id; state = s.state; last_sequence = last_expected id m.seq })
]

unfoldable pub destroy_stream : StreamId → Method SimTransportEngine TransportError (Unit {0})
destroy_stream id m = elim (lookup id m.streams) [
  | none ↦ (m, err (stream_not_found id))
  | some _ ↦ (record m { streams = remove id m.streams; seq = unregister_stream id m.seq }, ok tt)
]

unfoldable pub stream_carrier_antenna :
    StreamId → SimTransportEngine → Result TransportError (ℕ × ℕ)
stream_carrier_antenna id m = elim (lookup id m.streams) [
  | none ↦ err (stream_not_found id)
  | some s ↦ ok (s.cfg.carrier, s.cfg.antenna)
]

unfoldable pub link_up : SimTransportEngine → SimTransportEngine
link_up m = record m { link = link_running }

unfoldable pub link_down : SimTransportEngine → SimTransportEngine
link_down m = record m { link = link_init }

unfoldable pub reset : SimTransportEngine → SimTransportEngine
reset m = record m {
  link = link_init;
  inbox = [];
  outbox = [];
  sequence_gaps = 0;
  late_packets = 0;
}
