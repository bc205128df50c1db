-- ===== src/Transport/Sim/Order.antt =====
-- What `SimTransportEngine` of crates/aether-transport/src/sim.rs promises its receiver: packets come
-- out in the order in which they went in, and each stream counts up without a gap.
use aether_radio_sim.Base.{
  ℕ, ◌+◌, ◌%◌, ◌^◌, ◌<◌, ◌≡◌, refl, ap, sym, ◌∙◌, subst, List, [], ◌∷◌, ◌++◌, append_assoc, Option,
  none, some, false, Result, ok, err, length, length-append, wrapping_add, arith, inl, inr, ◌⊎◌,
}
use native.Mathlib.Decide.{ℕ_discrete}
use aether_radio_sim.Base.Assoc.{lookup}
use aether_radio_sim.Types.{Packet, StreamId}
use aether_radio_sim.Transport.{
  StreamConfig, StreamState, running, stopped, TransportError, stream_not_found, stream_exists,
  stream_not_running, link_not_ready, sequence_gap, late_packet, config,
}
use aether_radio_sim.Transport.Check.{
  TransportDeadlineConfig, expected, register_stream, resync, sequence_from_config,
}
use aether_radio_sim.Transport.Sim.{
  SimTransportEngine, new, ingest, receive, send, create_stream, change_state, start_stream,
  stop_stream, advance_time, link_up, link_down,
}
use aether_radio_sim.Transport.Sim.Numbers.{
  sequences_of, counting, counting-suc, sequences_of-one, sequences_of-other,
  expected-register_stream, expected-resync_other,
}
use aether_radio_sim.Transport.Sim.Ingest.{
  ingest-accepts, ingest_due, Refused, ingest-Refused, expected-resync,
}

-- The calls that neither drop what waits nor set a stream's number.
pub data TransportOp : Type 0 where
  ingests : Packet → TransportOp
  receives : TransportOp
  sends : Packet → TransportOp
  creates : StreamConfig → TransportOp
  starts : StreamId → TransportOp
  stops : StreamId → TransportOp
  advances : ℕ → TransportOp
  goes_up : TransportOp
  goes_down : TransportOp

-- The engine with what it has accepted and handed over so far, each in order.
pub record History : Type 0 where
  pub engine : SimTransportEngine
  pub accepted : List Packet
  pub delivered : List Packet

abbrev noted : List Packet → Packet → Result TransportError (Unit {0}) → List Packet
noted packets packet (ok _) = packets ++ (packet ∷ [])
noted packets packet (err _) = packets

abbrev handed : List Packet → Result TransportError (Option Packet) → List Packet
handed packets (ok (some packet)) = packets ++ (packet ∷ [])
handed packets (ok none) = packets
handed packets (err _) = packets

unfoldable pub step : TransportOp → History → History
step (ingests p) h =
    let (m, r) = ingest p h.engine in record h { engine = m; accepted = noted h.accepted p r }
step receives h =
    let (m, r) = receive h.engine in record h { engine = m; delivered = handed h.delivered r }
step (sends p) h = record h { engine = (send p h.engine).0 }
step (creates cfg) h = record h { engine = (create_stream cfg h.engine).0 }
step (starts id) h = record h { engine = (start_stream id h.engine).0 }
step (stops id) h = record h { engine = (stop_stream id h.engine).0 }
step (advances delta) h = record h { engine = advance_time delta h.engine }
step goes_up h = record h { engine = link_up h.engine }
step goes_down h = record h { engine = link_down h.engine }

unfoldable pub run : List TransportOp → History → History
run [] h = h
run (o ∷ os) h = run os (step o h)

unfoldable pub start : TransportDeadlineConfig → History
start cfg = record { engine = new cfg; accepted = []; delivered = [] }

-- What one call keeps.
pub record InOrder (first : ℕ) (h : History) : Type 0 where
  pub queue : h.accepted ≡ h.delivered ++ h.engine.inbox
  pub strict : h.engine.seq.allow_reorder ≡ false
  pub next :
      (id : StreamId)
      → expected id h.engine.seq ≡ (first + length (sequences_of id h.accepted)) % 2 ^ 64
  pub counted :
      (id : StreamId)
      → sequences_of id h.accepted ≡ counting first (length (sequences_of id h.accepted))

InOrder-same :
    (first : ℕ) (h : History) (m : SimTransportEngine)
    → InOrder first h
    → m.inbox ≡ h.engine.inbox
    → m.seq.allow_reorder ≡ h.engine.seq.allow_reorder
    → ((id : StreamId) → expected id m.seq ≡ expected id h.engine.seq)
    → InOrder first (record h { engine = m })
InOrder-same first h m v inbox strict next = record {
  queue = v.queue ∙ ap (λ xs. h.delivered ++ xs) (sym inbox);
  strict = strict ∙ v.strict;
  next = λ id. next id ∙ v.next id;
  counted = v.counted;
}

-- The number expected is the one that the count has come to.
due_number :
    (first : ℕ) (h : History) (p : Packet) (id : StreamId)
    → InOrder first h
    → p.stream_id ≡ id
    → p.sequence ≡ expected p.stream_id h.engine.seq
    → p.sequence ≡ (first + length (sequences_of id h.accepted)) % 2 ^ 64
due_number first h p id v e due = due ∙ (ap (λ j. expected j h.engine.seq) e ∙ v.next id)

-- the history once a packet is accepted
abbrev taken : Packet → History → History
taken p h = record h {
  engine = record h.engine {
    seq = resync p.stream_id (wrapping_add p.sequence 1) h.engine.seq;
    inbox = h.engine.inbox ++ (p ∷ []);
  };
  accepted = h.accepted ++ (p ∷ []);
}

taken-next :
    (first : ℕ) (h : History) (p : Packet) (id : StreamId)
    → InOrder first h
    → p.sequence ≡ expected p.stream_id h.engine.seq
    → expected id (taken p h).engine.seq
      ≡ (first + length (sequences_of id (taken p h).accepted)) % 2 ^ 64
taken-next first h p id v due = elim (ℕ_discrete p.stream_id id) [
  | yes e ↦
      ap (λ j. expected j (taken p h).engine.seq) (sym e)
      ∙ (expected-resync p.stream_id (wrapping_add p.sequence 1) h.engine.seq
          ∙ omega (
            arith,
            due_number first h p id v e due,
            ap length (sequences_of-one id p h.accepted e),
            length-append (sequences_of id h.accepted) (p.sequence ∷ []),
          ))
  | no ne ↦
      expected-resync_other p.stream_id id (wrapping_add p.sequence 1) h.engine.seq ne
      ∙ (v.next id
          ∙ ap (λ xs. (first + length xs) % 2 ^ 64) (sym (sequences_of-other id p h.accepted ne)))
]

taken-counted :
    (first : ℕ) (h : History) (p : Packet) (id : StreamId)
    → InOrder first h
    → p.sequence ≡ expected p.stream_id h.engine.seq
    → sequences_of id (taken p h).accepted
      ≡ counting first (length (sequences_of id (taken p h).accepted))
taken-counted first h p id v due = elim (ℕ_discrete p.stream_id id) [
  | yes e ↦
      let len = length (sequences_of id h.accepted) in
      let more : length (sequences_of id h.accepted ++ (p.sequence ∷ [])) ≡ len + 1 =
        length-append (sequences_of id h.accepted) (p.sequence ∷ []) in
      rw
        (
          sequences_of-one id p h.accepted e,
          more,
          counting-suc first len,
          due_number first h p id v e due,
        )
        (ap (λ xs. xs ++ ((first + len) % 2 ^ 64 ∷ [])) (v.counted id))
  | no ne ↦ rw (sequences_of-other id p h.accepted ne) (v.counted id)
]

taken-InOrder :
    (first : ℕ) (h : History) (p : Packet)
    → InOrder first h
    → p.sequence ≡ expected p.stream_id h.engine.seq
    → InOrder first (taken p h)
unfolding resync
taken-InOrder first h p v due = record {
  queue = ap (λ xs. xs ++ (p ∷ [])) v.queue ∙ append_assoc h.delivered h.engine.inbox (p ∷ []);
  strict = v.strict;
  next = λ id. taken-next first h p id v due;
  counted = λ id. taken-counted first h p id v due;
}

Result-cases :
    (r : Result TransportError (Unit {0})) → (r ≡ ok tt) ⊎ ((e : TransportError) × (r ≡ err e))
Result-cases (ok tt) = inl refl
Result-cases (err e) = inr (e, refl)

Refused-same :
    (p : Packet) (m m' : SimTransportEngine) (e : TransportError)
    → m.seq.allow_reorder ≡ false
    → Refused p m m' e
    → (m'.inbox ≡ m.inbox) × (m'.seq ≡ m.seq)
Refused-same p m m' (late_packet _ _) s (r, _, _, _) = (ap (λ x. x.inbox) r, ap (λ x. x.seq) r)
Refused-same p m m' (sequence_gap _ _) s (r, _, _, _, moved) = (
  ap (λ x. x.inbox) r,
  elim moved [ inl (allowed, _, _) ↦ absurd (ground arith) | inr (_, same) ↦ same ],
)
Refused-same p m m' (stream_not_found _) s r = (ap (λ x. x.inbox) r, ap (λ x. x.seq) r)
Refused-same p m m' (stream_exists _) s r = (ap (λ x. x.inbox) r, ap (λ x. x.seq) r)
Refused-same p m m' (stream_not_running _) s r = (ap (λ x. x.inbox) r, ap (λ x. x.seq) r)
Refused-same p m m' link_not_ready s r = (ap (λ x. x.inbox) r, ap (λ x. x.seq) r)
Refused-same p m m' (config _) s r = (ap (λ x. x.inbox) r, ap (λ x. x.seq) r)

ingest-InOrder :
    (first : ℕ) (h : History) (p : Packet) → InOrder first h → InOrder first (step (ingests p) h)
unfolding step
ingest-InOrder first h p v = elim (Result-cases (ingest p h.engine).1) [
  | inl accepted ↦
      let (a, due) = (ingest-accepts p h.engine).0 accepted in
      subst (λ x. InOrder first (record h { engine = x.0; accepted = noted h.accepted p x.1 }))
        (sym (ingest_due p h.engine a due)) (taken-InOrder first h p v due)
  | inr (e, refused) ↦
      let same =
        Refused-same p h.engine (ingest p h.engine).0 e v.strict
          (ingest-Refused p h.engine e refused) in
      rw refused (
        InOrder-same first h (ingest p h.engine).0 v same.0 (ap (λ c. c.allow_reorder) same.1)
          (λ id. ap (expected id) same.1))
]

-- The calls that leave the checker and the inbox alone, or only register a stream.
send_same :
    (p : Packet) (m : SimTransportEngine)
    → ((send p m).0.inbox ≡ m.inbox) × ((send p m).0.seq ≡ m.seq)
unfolding send
send_same p m = ground arith

change_state_same :
    (state : StreamState) (id : StreamId) (m : SimTransportEngine)
    → ((change_state state id m).0.inbox ≡ m.inbox) × ((change_state state id m).0.seq ≡ m.seq)
change_state_same state id m = ground arith

create_stream_same :
    (cfg : StreamConfig) (m : SimTransportEngine)
    → ((create_stream cfg m).0.inbox ≡ m.inbox)
      × ((create_stream cfg m).0.seq.allow_reorder ≡ m.seq.allow_reorder)
      × ((j : StreamId) → expected j (create_stream cfg m).0.seq ≡ expected j m.seq)
unfolding create_stream register_stream
create_stream_same cfg m = (
  ground arith,
  ground arith,
  λ j. ground (arith, expected-register_stream cfg.stream_id j m.seq),
)

Inbox-cases :
    (ps : List Packet) → (ps ≡ []) ⊎ ((p : Packet) × (rest : List Packet) × (ps ≡ p ∷ rest))
Inbox-cases [] = inl refl
Inbox-cases (p ∷ rest) = inr (p, rest, refl)

receive-InOrder : (first : ℕ) (h : History) → InOrder first h → InOrder first (step receives h)
unfolding step receive
receive-InOrder first h v = elim (Inbox-cases h.engine.inbox) [
  | inl e ↦ rw (e, receive) v
  | inr (p, rest, e) ↦
      rw (e, receive)
        (record {
          queue =
              v.queue
              ∙ (ap (λ xs. h.delivered ++ xs) e ∙ sym (append_assoc h.delivered (p ∷ []) rest));
          strict = v.strict;
          next = v.next;
          counted = v.counted;
        })
]

step-InOrder :
    (first : ℕ) (o : TransportOp) (h : History) → InOrder first h → InOrder first (step o h)
unfolding step receive send create_stream start_stream stop_stream advance_time link_up link_down
step-InOrder first (ingests p) h v = ingest-InOrder first h p v
step-InOrder first receives h v = receive-InOrder first h v
step-InOrder first (sends p) h v =
    let (inbox, seq) = send_same p h.engine in
    InOrder-same first h _ v inbox (ap (λ c. c.allow_reorder) seq) (λ id. ap (expected id) seq)
step-InOrder first (creates cfg) h v =
    let (inbox, strict, next) = create_stream_same cfg h.engine in
    InOrder-same first h _ v inbox strict next
step-InOrder first (starts id) h v =
    let (inbox, seq) = change_state_same running id h.engine in
    InOrder-same first h _ v inbox (ap (λ c. c.allow_reorder) seq) (λ j. ap (expected j) seq)
step-InOrder first (stops id) h v =
    let (inbox, seq) = change_state_same stopped id h.engine in
    InOrder-same first h _ v inbox (ap (λ c. c.allow_reorder) seq) (λ j. ap (expected j) seq)
step-InOrder first (advances delta) h v = InOrder-same first h _ v refl refl (λ j. refl)
step-InOrder first goes_up h v = InOrder-same first h _ v refl refl (λ j. refl)
step-InOrder first goes_down h v = InOrder-same first h _ v refl refl (λ j. refl)

run-InOrder :
    (first : ℕ) (os : List TransportOp) (h : History) → InOrder first h → InOrder first (run os h)
unfolding run
run-InOrder first [] h v = v
run-InOrder first (o ∷ os) h v = run-InOrder first os (step o h) (step-InOrder first o h v)

-- A new engine that does not allow reordering, under any sequence of these calls, hands packets over in
-- the order in which it accepts them, without loss, and the sequence numbers that it accepts of each
-- stream count up from `start_sequence` without a gap, as a `u64` does.
pub run_in_order :
    (cfg : TransportDeadlineConfig) (os : List TransportOp)
    → cfg.allow_reorder ≡ false
    → cfg.start_sequence < 2 ^ 64
    → let h = run os (start cfg) in
      (h.accepted ≡ h.delivered ++ h.engine.inbox)
      × ((id : StreamId)
          → sequences_of id h.accepted
            ≡ counting cfg.start_sequence (length (sequences_of id h.accepted)))
unfolding start new sequence_from_config expected sequences_of lookup counting
run_in_order cfg os strict small =
    let v =
      run-InOrder cfg.start_sequence os (start cfg) (record {
        queue = refl;
        strict = strict;
        next = λ id. ground arith;
        counted = λ id. refl;
      }) in
    (v.queue, v.counted)
