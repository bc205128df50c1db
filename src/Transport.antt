-- ===== src/Transport.antt =====
-- The types of crates/aether-transport/src/lib.rs: streams, the link and the errors. A `StreamId` is
-- its number; configurations are values, and their loading from YAML is left out.
pub mod Check
pub mod Sim
pub mod Mock
mod Tests
use Prim.Native.String.{String}
use aether_radio_sim.Base.{ℕ, Bool, true, false}
use aether_radio_sim.Types.{StreamId}

pub record StreamConfig : Type 0 where
  pub stream_id : StreamId
  pub carrier : ℕ
  pub antenna : ℕ
  pub qos : ℕ
  pub deadline_ns : ℕ

pub data StreamState : Type 0 where
  idle running stopped error : StreamState

pub record StreamStatus : Type 0 where
  pub stream_id : StreamId
  pub state : StreamState
  pub last_sequence : ℕ

pub data LinkState : Type 0 where
  link_init link_discovery link_ready link_running link_error link_recovery : LinkState

pub data TransportError : Type 0 where
  stream_not_found : StreamId → TransportError
  stream_exists : StreamId → TransportError
  stream_not_running : StreamId → TransportError
  link_not_ready : TransportError
  -- expected, got
  sequence_gap : ℕ → ℕ → TransportError
  -- latency, limit
  late_packet : ℕ → ℕ → TransportError
  config : String → TransportError

-- `state == StreamState::Running`
unfoldable pub is_running : StreamState → Bool
is_running running = true
is_running _ = false

-- `link == LinkState::Running || link == LinkState::Ready`, the negation of the test in `send`
unfoldable pub is_open : LinkState → Bool
is_open link_running = true
is_open link_ready = true
is_open _ = false
