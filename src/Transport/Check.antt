-- ===== src/Transport/Check.antt =====
-- The sequence and timestamp checkers of crates/aether-transport/src/check.rs.
use Prim.Native.String.{String}
use aether_radio_sim.Base.{
  ℕ, List, [], none, some, Bool, Result, ok, err, ◌&&◌, ◌==◌, ltb, if◌then◌else◌, wrapping_add,
  saturating_sub,
}
use aether_radio_sim.Base.Assoc.{lookup, insert, remove}
use aether_radio_sim.Base.Machine.{Method}
use aether_radio_sim.Types.{Packet, StreamId}
use aether_radio_sim.Transport.{TransportError, sequence_gap, late_packet}

pub record TransportDeadlineConfig : Type 0 where
  pub version : String
  pub id : String
  pub max_latency_ns : ℕ
  pub allow_reorder : Bool
  pub start_sequence : ℕ

pub record SequenceChecker : Type 0 where
  pub next : List (StreamId × ℕ)
  pub start : ℕ
  pub allow_reorder : Bool

-- `SequenceChecker::from_config`, by `SequenceChecker::new`
unfoldable pub sequence_from_config : TransportDeadlineConfig → SequenceChecker
sequence_from_config cfg = record {
  next = [];
  start = cfg.start_sequence;
  allow_reorder = cfg.allow_reorder;
}

-- `unwrap_or(start)` of what `next` holds for the stream
unfoldable pub expected : StreamId → SequenceChecker → ℕ
expected id c = elim (lookup id c.next) [ none ↦ c.start | some n ↦ n ]

-- `entry(id).or_insert(start)`
unfoldable pub register_stream : StreamId → SequenceChecker → SequenceChecker
register_stream id c = elim (lookup id c.next) [
  | none ↦ record c { next = insert id c.start c.next }
  | some _ ↦ c
]

unfoldable pub unregister_stream : StreamId → SequenceChecker → SequenceChecker
unregister_stream id c = record c { next = remove id c.next }

unfoldable pub resync : StreamId → ℕ → SequenceChecker → SequenceChecker
resync id next_seq c = record c { next = insert id next_seq c.next }

-- `SequenceChecker::check`
unfoldable pub check_sequence : Packet → Method SequenceChecker TransportError (Unit {0})
check_sequence packet c =
    let want = expected packet.stream_id c in
    let got = packet.sequence in
    if got == want
    then (resync packet.stream_id (wrapping_add want 1) c, ok tt)
    else if c.allow_reorder && ltb want got
    then (resync packet.stream_id (wrapping_add got 1) c, err (sequence_gap want got))
    else (c, err (sequence_gap want got))

unfoldable pub last_expected : StreamId → SequenceChecker → ℕ
last_expected id c = saturating_sub (expected id c) 1

pub record TimestampChecker : Type 0 where
  pub max_latency_ns : ℕ

unfoldable pub timestamp_from_config : TransportDeadlineConfig → TimestampChecker
timestamp_from_config cfg = record { max_latency_ns = cfg.max_latency_ns }

-- `TimestampChecker::check`
unfoldable pub check_timestamp : TimestampChecker → Packet → ℕ → Result TransportError (Unit {0})
check_timestamp c packet now_ns =
    let latency = saturating_sub now_ns packet.timestamp in
    if ltb c.max_latency_ns latency then err (late_packet latency c.max_latency_ns) else ok tt
