-- ===== src/Shm/Runs.antt =====
-- The producer and the consumer of crates/shm-io/src/lib.rs in any order of their calls.
use aether_radio_sim.Base.{
  ℕ, zero, suc, ◌+◌, ◌%◌, ◌^◌, ◌<◌, ◌≤◌, ◌≡◌, refl, ap, sym, ◌∙◌, subst, List, [], ◌∷◌, ◌++◌,
  append_assoc, Option, none, some, Result, ok, err, length, length-replicate, get_elem?,
  get_elem?-some, replicate, arith, inl, inr,
}
use native.Mathlib.Nat.{mod-lt}
use aether_radio_sim.Types.{Packet, InRange}
use aether_radio_sim.Protocol.{encode_frame}
use aether_radio_sim.Shm.{
  Slot, ShmPacketRing, ShmIoError, frame_too_large, slot_state_empty, init_ring, try_push, try_pop,
}
use aether_radio_sim.Shm.Positions.{order-cases}
use aether_radio_sim.Shm.Queue.{Represents, try_push-Represents}
use aether_radio_sim.Shm.Pop.{Popped, try_pop-Popped}

pub data ShmOp : Type 0 where
  pushes : Packet → ShmOp
  pops : ShmOp

-- The ring with what it has accepted and handed over so far, each in order.
pub record History : Type 0 where
  pub ring : ShmPacketRing
  pub accepted : List Packet
  pub delivered : List Packet

abbrev noted : List Packet → Packet → Result ShmIoError (Unit {0}) → List Packet
noted packets packet (ok _) = packets ++ (packet ∷ [])
noted packets packet (err _) = packets

abbrev handed : List Packet → Result ShmIoError (Option Packet) → List Packet
handed packets (ok (some packet)) = packets ++ (packet ∷ [])
handed packets (ok none) = packets
handed packets (err _) = packets

unfoldable pub step : ShmOp → History → History
step (pushes p) h =
    let (ring, r) = try_push p h.ring in record h { ring = ring; accepted = noted h.accepted p r }
step pops h =
    let (ring, r) = try_pop h.ring in record h { ring = ring; delivered = handed h.delivered r }

unfoldable pub run : List ShmOp → History → History
run [] h = h
run (o ∷ os) h = run os (step o h)

unfoldable pub start : ℕ → ℕ → History
start slot_count slot_bytes = record {
  ring = init_ring slot_count slot_bytes;
  accepted = [];
  delivered = [];
}

-- The packets pushed have fields in their ranges.
abbrev pub AllInRange : List ShmOp → Type 0
AllInRange [] = Unit
AllInRange (pushes p ∷ os) = InRange p × AllInRange os
AllInRange (pops ∷ os) = AllInRange os

-- After at most `n` pushes: the ring stands for what is accepted and not yet handed over.
pub record Tracks (n : ℕ) (h : History) : Type 0 where
  pub queue : List Packet
  pub represents : Represents queue h.ring
  pub order : h.accepted ≡ h.delivered ++ queue
  pub few : h.ring.write_pos ≤ n

get_elem?-replicate :
    {A : Type 0} (n i : ℕ) (x y : A) → get_elem? (replicate n x) i ≡ some y → y ≡ x
get_elem?-replicate zero i x y e = absurd (ground arith)
get_elem?-replicate (suc n) zero x y e = ground (arith, e)
get_elem?-replicate (suc n) (suc i) x y e = get_elem?-replicate n i x y e

pub init_ring-Represents :
    (slot_count slot_bytes : ℕ)
    → 0 < slot_count
    → slot_bytes < 2 ^ 32
    → Represents [] (init_ring slot_count slot_bytes)
unfolding init_ring
init_ring-Represents slot_count slot_bytes some_slots small =
    let empty_slot : Slot = record {
      state = slot_state_empty;
      len = 0;
      bytes = replicate slot_bytes 0;
    } in
    record {
      some_slots = some_slots;
      small = small;
      wide = λ i s e.
          ap (λ x. length x.bytes) (get_elem?-replicate slot_count i empty_slot s e)
          ∙ length-replicate slot_bytes 0;
      positions = refl;
      bounded = omega arith;
      held = λ i p e. absurd (ground arith);
      blank = λ k _ _.
          let (s, there) =
            get_elem?-some (replicate slot_count empty_slot) (k % slot_count)
              (omega (arith, mod-lt k some_slots, length-replicate slot_count empty_slot)) in
          (
            s,
            there,
            ap (λ x. x.state) (get_elem?-replicate slot_count (k % slot_count) empty_slot s there),
          );
    }

start-Tracks :
    (slot_count slot_bytes : ℕ)
    → 0 < slot_count
    → slot_bytes < 2 ^ 32
    → Tracks 0 (start slot_count slot_bytes)
unfolding start init_ring
start-Tracks slot_count slot_bytes some_slots small = record {
  queue = [];
  represents = init_ring-Represents slot_count slot_bytes some_slots small;
  order = refl;
  few = omega arith;
}

push_too_large :
    (p : Packet) (ring : ShmPacketRing)
    → ring.slot_bytes < length (encode_frame p)
    → try_push p ring ≡ (ring, err frame_too_large)
unfolding try_push
push_too_large p ring h = ground (arith, h)

try_push_pos :
    (p : Packet) (ring : ShmPacketRing) → (try_push p ring).0.write_pos ≤ ring.write_pos + 1
unfolding try_push
try_push_pos p ring = ground arith

try_pop_pos : (ring : ShmPacketRing) → (try_pop ring).0.write_pos ≡ ring.write_pos
unfolding try_pop
try_pop_pos ring = ground arith

push-Tracks :
    (p : Packet) (n : ℕ) (h : History)
    → n + 1 < 2 ^ 64
    → InRange p
    → Tracks n h
    → Tracks (suc n) (step (pushes p) h)
unfolding step
push-Tracks p n h below range t =
    let few : (try_push p h.ring).0.write_pos ≤ suc n =
      omega (arith, t.few, try_push_pos p h.ring) in
    elim (order-cases h.ring.slot_bytes (length (encode_frame p))) [
      | inl large ↦ rw (push_too_large p h.ring large) (record {
        queue = t.queue;
        represents = t.represents;
        order = t.order;
        few = omega (arith, t.few);
      })
      | inr fits ↦
          elim (try_push-Represents t.queue h.ring p t.represents (omega (arith, t.few, below))
            range (grind (arith, fits))) [
              | inl (_, accepts, represents) ↦ rw accepts (record {
                queue = t.queue ++ (p ∷ []);
                represents = represents;
                order =
                    ap (λ xs. xs ++ (p ∷ [])) t.order ∙ append_assoc h.delivered t.queue (p ∷ []);
                few = few;
              })
              | inr (_, refuses, same) ↦ rw refuses (record {
                queue = t.queue;
                represents = subst (Represents t.queue) (sym same) t.represents;
                order = t.order;
                few = few;
              })
            ]
    ]

Popped-Tracks :
    (q : List Packet) (n : ℕ) (h : History)
    → Represents q h.ring
    → h.accepted ≡ h.delivered ++ q
    → (try_pop h.ring).0.write_pos ≤ suc n
    → Popped q h.ring (try_pop h.ring).0 (try_pop h.ring).1
    → Tracks (suc n) (step pops h)
unfolding step
Popped-Tracks [] n h v order few (gives, same) = rw gives (record {
  queue = [];
  represents = subst (Represents []) (sym same) v;
  order = order;
  few = few;
})
Popped-Tracks (p ∷ q) n h v order few (gives, represents) = rw gives (record {
  queue = q;
  represents = represents;
  order = order ∙ sym (append_assoc h.delivered (p ∷ []) q);
  few = few;
})

step-Tracks :
    (o : ShmOp) (n : ℕ) (h : History)
    → n + 1 < 2 ^ 64
    → AllInRange (o ∷ [])
    → Tracks n h
    → Tracks (suc n) (step o h)
step-Tracks (pushes p) n h below range t = push-Tracks p n h below range.0 t
step-Tracks pops n h below range t =
    Popped-Tracks t.queue n h t.represents t.order (omega (arith, t.few, try_pop_pos h.ring))
      (try_pop-Popped t.queue h.ring t.represents (omega (arith, t.few, below)))

range_first :
    (o : ShmOp) (os : List ShmOp) → AllInRange (o ∷ os) → AllInRange (o ∷ []) × AllInRange os
range_first (pushes p) os r = ((r.0, tt), r.1)
range_first pops os r = (tt, r)

run-Tracks :
    (os : List ShmOp) (n : ℕ) (h : History)
    → n + length os < 2 ^ 64
    → AllInRange os
    → Tracks n h
    → Tracks (n + length os) (run os h)
unfolding run
run-Tracks [] n h below range t = record {
  queue = t.queue;
  represents = t.represents;
  order = t.order;
  few = omega (arith, t.few);
}
run-Tracks (o ∷ os) n h below range t =
    let (now, later) = range_first o os range in
    subst (λ k. Tracks k (run os (step o h))) (omega arith)
      (run-Tracks os (suc n) (step o h) (omega (arith, below)) later
        (step-Tracks o n h (omega (arith, below)) now t))

-- On a fresh ring with slots, of less than 2^32 bytes each, fewer than 2^64 calls of `try_push` and
-- `try_pop` in any order, with packets in range, keep order: the packets accepted are those handed over,
-- followed by at most as many as there are slots.
pub run_queue :
    (slot_count slot_bytes : ℕ) (os : List ShmOp)
    → 0 < slot_count
    → slot_bytes < 2 ^ 32
    → length os < 2 ^ 64
    → AllInRange os
    → let h = run os (start slot_count slot_bytes) in
      (queue : List Packet) × (h.accepted ≡ h.delivered ++ queue)
      × (length queue ≤ h.ring.slot_count)
      × Represents queue h.ring
run_queue slot_count slot_bytes os some_slots small few range =
    let t =
      run-Tracks os 0 (start slot_count slot_bytes) (omega (arith, few)) range
        (start-Tracks slot_count slot_bytes some_slots small) in
    (t.queue, t.order, t.represents.bounded, t.represents)
