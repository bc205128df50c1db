-- ===== src/Transport/Mock.antt =====
-- `MockTransportEngine` of crates/aether-transport/src/lib.rs, the transport without checks.
pub mod Distinct
use aether_radio_sim.Base.{
  ℕ, List, [], ◌∷◌, ◌++◌, Option, none, some, Bool, true, false, not, Result, ok, err, ◌==◌, length,
  if◌then◌else◌,
}
use aether_radio_sim.Base.Machine.{Method}
use aether_radio_sim.Types.{Packet, StreamId}
use aether_radio_sim.Transport.{
  StreamConfig, running, StreamStatus, LinkState, link_init, link_running, TransportError,
  stream_not_found, stream_exists, link_not_ready, is_open,
}

pub record MockTransportEngine : Type 0 where
  pub streams : List StreamConfig
  pub inbox : List Packet
  pub outbox : List Packet
  pub link : LinkState

abbrev pub new : MockTransportEngine
new = record { streams = []; inbox = []; outbox = []; link = link_init }

unfoldable pub push_inbox : Packet → MockTransportEngine → MockTransportEngine
push_inbox packet m = record m { inbox = m.inbox ++ (packet ∷ []) }

unfoldable pub send : Packet → Method MockTransportEngine TransportError (Unit {0})
send packet m =
    if not (is_open m.link)
    then (m, err link_not_ready)
    else (record m { outbox = m.outbox ++ (packet ∷ []) }, ok tt)

unfoldable pub receive : Method MockTransportEngine TransportError (Option Packet)
receive m = elim m.inbox [
  | [] ↦ (m, ok none)
  | packet ∷ rest ↦ (record m { inbox = rest }, ok (some packet))
]

-- `streams.iter().any(|s| s.stream_id == id)`
unfoldable pub has_stream : StreamId → List StreamConfig → Bool
has_stream id [] = false
has_stream id (c ∷ cs) = let rest = has_stream id cs in if c.stream_id == id then true else rest

unfoldable pub create_stream : StreamConfig → Method MockTransportEngine TransportError StreamId
create_stream cfg m =
    if has_stream cfg.stream_id m.streams
    then (m, err (stream_exists cfg.stream_id))
    else (record m { streams = m.streams ++ (cfg ∷ []) }, ok cfg.stream_id)

-- `start_stream` and `stop_stream` only look the stream up.
unfoldable pub start_stream : StreamId → Method MockTransportEngine TransportError (Unit {0})
start_stream id m =
    if not (has_stream id m.streams) then (m, err (stream_not_found id)) else (m, ok tt)

unfoldable pub stop_stream : StreamId → Method MockTransportEngine TransportError (Unit {0})
stop_stream id m =
    if not (has_stream id m.streams) then (m, err (stream_not_found id)) else (m, ok tt)

unfoldable pub query_stream : StreamId → MockTransportEngine → Result TransportError StreamStatus
query_stream id m =
    if not (has_stream id m.streams)
    then err (stream_not_found id)
    else ok (record { stream_id = id; state = running; last_sequence = 0 })

-- `retain(|s| s.stream_id != id)`
unfoldable pub retain_other : StreamId → List StreamConfig → List StreamConfig
retain_other id [] = []
retain_other id (c ∷ cs) =
    let rest = retain_other id cs in if c.stream_id == id then rest else c ∷ rest

unfoldable pub destroy_stream : StreamId → Method MockTransportEngine TransportError (Unit {0})
destroy_stream id m =
    let kept = retain_other id m.streams in
    (
      record m { streams = kept },
      if length kept == length m.streams then err (stream_not_found id) else ok tt,
    )

unfoldable pub link_up : MockTransportEngine → MockTransportEngine
link_up m = record m { link = link_running }

unfoldable pub link_down : MockTransportEngine → MockTransportEngine
link_down m = record m { link = link_init }

unfoldable pub reset : MockTransportEngine → MockTransportEngine
reset m = record m { link = link_init; inbox = []; outbox = [] }
