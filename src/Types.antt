-- ===== src/Types.antt =====
-- The identity and timing types of crates/aether-types/src/lib.rs.
-- The newtypes `StreamId(u32)`, `Sequence(u64)` and `Timestamp(u64)` are their numbers; the range of
-- a field is stated where a theorem needs it, by `InRange`.
use aether_radio_sim.Base.{ℕ, List, ◌<◌, ◌^◌, length}

-- `StreamId(pub u32)`
abbrev pub StreamId : Type 0
StreamId = ℕ

-- `Sequence(pub u64)`
abbrev pub Sequence : Type 0
Sequence = ℕ

-- `Timestamp(pub u64)`
abbrev pub Timestamp : Type 0
Timestamp = ℕ

pub record RadioTimestamp : Type 0 where
  pub sfn : ℕ
  pub slot : ℕ
  pub symbol : ℕ
  pub ns : ℕ

-- A payload is a list of bytes.
pub record Packet : Type 0 where
  pub stream_id : StreamId
  pub sequence : Sequence
  pub timestamp : Timestamp
  pub payload : List ℕ

-- The ranges of the fields' Rust types, with a payload whose length fits `u32`.
pub record InRange (p : Packet) : Type 0 where
  pub stream_id : p.stream_id < 2 ^ 32
  pub sequence : p.sequence < 2 ^ 64
  pub timestamp : p.timestamp < 2 ^ 64
  pub payload : length p.payload < 2 ^ 32
