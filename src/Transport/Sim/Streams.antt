-- ===== src/Transport/Sim/Streams.antt =====
-- The life of a stream in crates/aether-transport/src/sim.rs: created, started, stopped, destroyed.
use aether_radio_sim.Base.{◌≡◌, ◌≢◌, refl, ap, ◌∙◌, none, some, ok, err}
use aether_radio_sim.Base.Assoc.{
  lookup, insert, remove, lookup-insert_self, lookup-insert_ne, lookup-remove_self,
  lookup-remove_ne,
}
use aether_radio_sim.Types.{StreamId}
use aether_radio_sim.Transport.{
  StreamConfig, StreamState, idle, running, stopped, stream_not_found, stream_exists,
}
use aether_radio_sim.Transport.Check.{expected, last_expected, register_stream, unregister_stream}
use aether_radio_sim.Transport.Sim.{
  SimTransportEngine, StreamRuntime, create_stream, start_stream, stop_stream, query_stream,
  destroy_stream, change_state,
}

-- each call on a stream that is not there, and on one that is
module _ (id : StreamId) (m : SimTransportEngine) where
  query_none : lookup id m.streams ≡ none → query_stream id m ≡ err (stream_not_found id)
  unfolding query_stream
  query_none e = rw (e, query_stream) refl

  change_none :
      (state : StreamState)
      → lookup id m.streams ≡ none
      → change_state state id m ≡ (m, err (stream_not_found id))
  change_none state e = rw (e, change_state) refl

  destroy_none : lookup id m.streams ≡ none → destroy_stream id m ≡ (m, err (stream_not_found id))
  unfolding destroy_stream
  destroy_none e = rw (e, destroy_stream) refl

  query_some :
      (s : StreamRuntime)
      → lookup id m.streams ≡ some s
      → query_stream id m
        ≡ ok (record { stream_id = id; state = s.state; last_sequence = last_expected id m.seq })
  unfolding query_stream
  query_some s e = rw (e, query_stream) refl

  change_some :
      (state : StreamState) (s : StreamRuntime)
      → lookup id m.streams ≡ some s
      → change_state state id m
        ≡ (record m { streams = insert id (record s { state = state }) m.streams }, ok tt)
  change_some state s e = rw (e, change_state) refl

  destroy_some :
      (s : StreamRuntime)
      → lookup id m.streams ≡ some s
      → destroy_stream id m
        ≡ (record m { streams = remove id m.streams; seq = unregister_stream id m.seq }, ok tt)
  unfolding destroy_stream
  destroy_some s e = rw (e, destroy_stream) refl

-- What `start_stream` and `stop_stream` make of a stream that is there.
query_change :
    (id : StreamId) (m : SimTransportEngine) (state : StreamState) (s : StreamRuntime)
    → lookup id m.streams ≡ some s
    → query_stream id (change_state state id m).0
      ≡ ok (record { stream_id = id; state = state; last_sequence = last_expected id m.seq })
query_change id m state s e =
    ap (λ x. query_stream id x.0) (change_some id m state s e)
    ∙ query_some id _ (record s { state = state })
        (lookup-insert_self id (record s { state = state }) m.streams)

-- the engine with a new stream
abbrev created : StreamConfig → SimTransportEngine → SimTransportEngine
created cfg m = record m {
  seq = register_stream cfg.stream_id m.seq;
  streams = insert cfg.stream_id (record { cfg = cfg; state = idle }) m.streams;
}

create_fresh :
    (cfg : StreamConfig) (m : SimTransportEngine)
    → lookup cfg.stream_id m.streams ≡ none
    → create_stream cfg m ≡ (created cfg m, ok cfg.stream_id)
unfolding create_stream
create_fresh cfg m e = rw (e, create_stream) refl

create_exists :
    (cfg : StreamConfig) (m : SimTransportEngine) (s : StreamRuntime)
    → lookup cfg.stream_id m.streams ≡ some s
    → create_stream cfg m ≡ (m, err (stream_exists cfg.stream_id))
unfolding create_stream
create_exists cfg m s e = rw (e, create_stream) refl

-- A stream that is created anew is idle, another creation of it is refused, and the other streams stay
-- as they were; after that `query_stream` shows what `start_stream` or `stop_stream` has set.
pub create_stream_lem :
    (cfg : StreamConfig) (m : SimTransportEngine)
    → lookup cfg.stream_id m.streams ≡ none
    → let (m', r) = create_stream cfg m in
      let id = cfg.stream_id in
      let last = last_expected id m'.seq in
      (r ≡ ok id)
      × (create_stream cfg m' ≡ (m', err (stream_exists id)))
      × (query_stream id m' ≡ ok (record { stream_id = id; state = idle; last_sequence = last }))
      × (query_stream id (start_stream id m').0
          ≡ ok (record { stream_id = id; state = running; last_sequence = last }))
      × (query_stream id (stop_stream id m').0
          ≡ ok (record { stream_id = id; state = stopped; last_sequence = last }))
      × ((other : StreamId) → other ≢ id → lookup other m'.streams ≡ lookup other m.streams)
unfolding start_stream stop_stream
create_stream_lem cfg m fresh =
    let id = cfg.stream_id in
    let made : StreamRuntime = record { cfg = cfg; state = idle } in
    let here : lookup id (created cfg m).streams ≡ some made =
      lookup-insert_self id made m.streams in
    rw (create_fresh cfg m fresh) (
      refl,
      create_exists cfg (created cfg m) made here,
      query_some id (created cfg m) made here,
      query_change id (created cfg m) running made here,
      query_change id (created cfg m) stopped made here,
      λ other ne. lookup-insert_ne id other made m.streams ne,
    )

-- A destroyed stream is gone for `query_stream`, `start_stream`, `stop_stream` and a second
-- `destroy_stream`; its numbering starts over, and the other streams and their numbering stay.
pub destroy_stream_lem :
    (id : StreamId) (m : SimTransportEngine) (s : StreamRuntime)
    → lookup id m.streams ≡ some s
    → let (m', r) = destroy_stream id m in
      (r ≡ ok tt)
      × (query_stream id m' ≡ err (stream_not_found id))
      × (start_stream id m' ≡ (m', err (stream_not_found id)))
      × (stop_stream id m' ≡ (m', err (stream_not_found id)))
      × (destroy_stream id m' ≡ (m', err (stream_not_found id)))
      × (expected id m'.seq ≡ m.seq.start)
      × ((other : StreamId)
          → other ≢ id
          → (lookup other m'.streams ≡ lookup other m.streams)
            × (expected other m'.seq ≡ expected other m.seq))
unfolding start_stream stop_stream unregister_stream expected
destroy_stream_lem id m s here =
    let left : SimTransportEngine = record m {
      streams = remove id m.streams;
      seq = unregister_stream id m.seq;
    } in
    let gone : lookup id left.streams ≡ none = lookup-remove_self id m.streams in
    rw (destroy_some id m s here) (
      refl,
      query_none id left gone,
      change_none id left running gone,
      change_none id left stopped gone,
      destroy_none id left gone,
      rw (expected, lookup-remove_self id m.seq.next) refl,
      λ other ne. (
        lookup-remove_ne id other m.streams ne,
        rw (expected, lookup-remove_ne id other m.seq.next ne) refl,
      ),
    )
