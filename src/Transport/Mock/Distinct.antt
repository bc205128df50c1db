-- ===== src/Transport/Mock/Distinct.antt =====
-- The stream list of `MockTransportEngine` in crates/aether-transport/src/lib.rs as a set.
use aether_radio_sim.Base.{
  ℕ, ◌+◌, ◌≤◌, ◌≡◌, ◌≢◌, refl, ◌∙◌, List, [], ◌∷◌, ◌++◌, false, ok, err, ◌==◌, length,
  if◌then◌else◌, arith,
}
use aether_radio_sim.Types.{Packet, StreamId}
use aether_radio_sim.Transport.{StreamConfig, stream_not_found}
use aether_radio_sim.Transport.Mock.{
  MockTransportEngine, push_inbox, send, receive, has_stream, create_stream, start_stream,
  stop_stream, retain_other, destroy_stream, link_up, link_down, reset,
}

-- how often a stream is listed
unfoldable pub listed : StreamId → List StreamConfig → ℕ
listed id [] = 0
listed id (c ∷ cs) = let rest = listed id cs in if c.stream_id == id then rest + 1 else rest

listed-append :
    (id : StreamId) (cs : List StreamConfig) (c : StreamConfig)
    → listed id (cs ++ (c ∷ [])) ≡ (if c.stream_id == id then listed id cs + 1 else listed id cs)
unfolding listed
listed-append id [] c = refl
listed-append id (d ∷ cs) c = ground (arith, listed-append id cs c)

listed-has_stream :
    (id : StreamId) (cs : List StreamConfig) → has_stream id cs ≡ false → listed id cs ≡ 0
unfolding listed has_stream
listed-has_stream id [] h = refl
listed-has_stream id (c ∷ cs) h = ground (arith, listed-has_stream id cs)

has_stream-listed :
    (id : StreamId) (cs : List StreamConfig) → listed id cs ≡ 0 → has_stream id cs ≡ false
unfolding listed has_stream
has_stream-listed id [] h = refl
has_stream-listed id (c ∷ cs) h = ground (arith, has_stream-listed id cs)

listed-retain_other :
    (id j : StreamId) (cs : List StreamConfig)
    → listed j (retain_other id cs) ≡ (if id == j then 0 else listed j cs)
unfolding listed retain_other
listed-retain_other id j [] = ground arith
listed-retain_other id j (c ∷ cs) = ground (arith, listed-retain_other id j cs)

length-retain_other :
    (id : StreamId) (cs : List StreamConfig)
    → length (retain_other id cs) + listed id cs ≡ length cs
unfolding listed retain_other
length-retain_other id [] = refl
length-retain_other id (c ∷ cs) = ground (arith, length-retain_other id cs)

-- A call with its arguments.
pub data MockOp : Type 0 where
  pushes : Packet → MockOp
  sends : Packet → MockOp
  receives : MockOp
  creates : StreamConfig → MockOp
  starts : StreamId → MockOp
  stops : StreamId → MockOp
  destroys : StreamId → MockOp
  goes_up : MockOp
  goes_down : MockOp
  resets : MockOp

unfoldable pub step : MockOp → MockTransportEngine → MockTransportEngine
step (pushes p) m = push_inbox p m
step (sends p) m = (send p m).0
step receives m = (receive m).0
step (creates cfg) m = (create_stream cfg m).0
step (starts id) m = (start_stream id m).0
step (stops id) m = (stop_stream id m).0
step (destroys id) m = (destroy_stream id m).0
step goes_up m = link_up m
step goes_down m = link_down m
step resets m = reset m

unfoldable pub run : List MockOp → MockTransportEngine → MockTransportEngine
run [] m = m
run (o ∷ os) m = run os (step o m)

pub record IsDistinct (m : MockTransportEngine) : Type 0 where
  pub once : (id : StreamId) → listed id m.streams ≤ 1

step-IsDistinct : (o : MockOp) (m : MockTransportEngine) → IsDistinct m → IsDistinct (step o m)
unfolding step push_inbox send receive create_stream start_stream stop_stream destroy_stream link_up
    link_down reset
step-IsDistinct (pushes p) m v = record { once = v.once }
step-IsDistinct (sends p) m v = record { once = λ id. ground (arith, v.once id) }
step-IsDistinct receives m v = record { once = λ id. ground (arith, v.once id) }
step-IsDistinct (creates cfg) m v = record {
  once = λ id.
      ground (
        arith,
        v.once id,
        listed-append id m.streams cfg,
        listed-has_stream cfg.stream_id m.streams,
      );
}
step-IsDistinct (starts id) m v = record { once = λ j. ground (arith, v.once j) }
step-IsDistinct (stops id) m v = record { once = λ j. ground (arith, v.once j) }
step-IsDistinct (destroys id) m v = record {
  once = λ j. ground (arith, v.once j, listed-retain_other id j m.streams);
}
step-IsDistinct goes_up m v = record { once = v.once }
step-IsDistinct goes_down m v = record { once = v.once }
step-IsDistinct resets m v = record { once = v.once }

-- From any engine that lists no stream twice, hence from a new one, no sequence of calls lists one
-- twice.
pub run-IsDistinct :
    (os : List MockOp) (m : MockTransportEngine) → IsDistinct m → IsDistinct (run os m)
unfolding run
run-IsDistinct [] m v = v
run-IsDistinct (o ∷ os) m v = run-IsDistinct os (step o m) (step-IsDistinct o m v)

-- `destroy_stream` answers Ok exactly when the stream is listed, and unlists it and no other.
pub destroy_stream-listed :
    (id : StreamId) (m : MockTransportEngine)
    → ((destroy_stream id m).1
        ≡ (if has_stream id m.streams then ok tt else err (stream_not_found id)))
      × (has_stream id (destroy_stream id m).0.streams ≡ false)
      × ((other : StreamId)
          → other ≢ id
          → listed other (destroy_stream id m).0.streams ≡ listed other m.streams)
unfolding destroy_stream
destroy_stream-listed id m = (
  ground (
    arith,
    length-retain_other id m.streams,
    listed-has_stream id m.streams,
    has_stream-listed id m.streams,
  ),
  has_stream-listed id (retain_other id m.streams)
      (listed-retain_other id id m.streams ∙ ground arith),
  λ other ne. listed-retain_other id other m.streams ∙ ground (arith, ne),
)
