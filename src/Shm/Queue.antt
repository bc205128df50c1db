-- ===== src/Shm/Queue.antt =====
-- The ring of crates/shm-io/src/lib.rs refines a bounded queue.
use aether_radio_sim.Base.{
  ℕ, ◌+◌, ◌-◌, ◌%◌, ◌^◌, ◌<◌, ◌≤◌, ◌≡◌, ◌≢◌, refl, ap, sym, ◌∙◌, subst, List, [], ◌∷◌, ◌++◌, some,
  ok, err, length, length-append, get_elem?, get_elem?-set_self, get_elem?-set_ne,
  get_elem?-append_left, get_elem?-append_end, get_elem?-none, get_elem?-lt, set, take, drop,
  take-append, slice, wrapping_add, u32_mod, arith, ◌⊎◌, inl, inr,
}
use native.Mathlib.Decide.{ℕ_discrete}
use mathlib.Core.Option.{some-injective}
use aether_radio_sim.Types.{Packet, InRange}
use aether_radio_sim.Protocol.{encode_frame}
use aether_radio_sim.Shm.{
  Slot, ShmPacketRing, ring_full, slot_state_empty, slot_state_full, filled, try_push, wrapping_sub,
}
use aether_radio_sim.Shm.Positions.{mod-ne, order-cases}
use aether_radio_sim.Memory.Sim.{length-copy_from_slice}

-- A slot that holds a packet's frame.
pub record Holds (p : Packet) (s : Slot) : Type 0 where
  pub state : s.state ≡ slot_state_full
  pub frame : slice s.bytes 0 s.len ≡ encode_frame p
  pub range : InRange p

-- The ring as the queue `q`, oldest first.
pub record Represents (q : List Packet) (ring : ShmPacketRing) : Type 0 where
  pub some_slots : 0 < ring.slot_count
  pub small : ring.slot_bytes < 2 ^ 32
  pub wide : (i : ℕ) (s : Slot) → get_elem? ring.slots i ≡ some s → length s.bytes ≡ ring.slot_bytes
  pub positions : ring.write_pos ≡ ring.read_pos + length q
  pub bounded : length q ≤ ring.slot_count
  pub held :
      (i : ℕ) (p : Packet)
      → get_elem? q i ≡ some p
      → (s : Slot) × (get_elem? ring.slots ((ring.read_pos + i) % ring.slot_count) ≡ some s)
        × Holds p s
  pub blank :
      (k : ℕ)
      → ring.write_pos ≤ k
      → k < ring.read_pos + ring.slot_count
      → (s : Slot) × (get_elem? ring.slots (k % ring.slot_count) ≡ some s)
        × (s.state ≡ slot_state_empty)

-- What is written is read back.
filled-Holds :
    (p : Packet) (s : Slot)
    → InRange p
    → length (encode_frame p) < 2 ^ 32
    → Holds p (filled (encode_frame p) s)
unfolding filled
filled-Holds p s v small = record {
  state = refl;
  frame =
      let frame = encode_frame p in
      let exact : length frame % u32_mod - 0 ≡ length frame = omega (arith, small) in
      ap (λ n. take n (frame ++ drop (0 + length frame) s.bytes)) exact
      ∙ take-append frame (drop (0 + length frame) s.bytes);
  range = v;
}

-- The ring after a push onto the slot `s`.
abbrev pub pushed : Packet → Slot → ShmPacketRing → ShmPacketRing
pushed p s ring = record ring {
  slots = set ring.slots (ring.write_pos % ring.slot_count) (filled (encode_frame p) s);
  write_pos = wrapping_add ring.write_pos 1;
  pushed = wrapping_add ring.pushed 1;
}

module _ (q : List Packet) (ring : ShmPacketRing) (v : Represents q ring)
    (below : ring.write_pos + 1 < 2 ^ 64) where
  distance : wrapping_sub ring.write_pos ring.read_pos ≡ length q
  distance = omega (arith, v.positions, below)

  push_full :
      (p : Packet)
      → length (encode_frame p) ≤ ring.slot_bytes
      → length q ≡ ring.slot_count
      → try_push p ring ≡ (ring, err ring_full)
  unfolding try_push
  push_full p fits full = rw (distance, try_push) (ground (arith, fits, full))

  push_room :
      (p : Packet) (s : Slot)
      → length (encode_frame p) ≤ ring.slot_bytes
      → length q < ring.slot_count
      → get_elem? ring.slots (ring.write_pos % ring.slot_count) ≡ some s
      → s.state ≡ slot_state_empty
      → try_push p ring ≡ (pushed p s ring, ok tt)
  unfolding try_push
  push_room p s fits room here empty =
      rw (distance, here, try_push) (ground (arith, fits, room, empty))

  -- The slot written, and the others.
  written_here :
      (p : Packet) (s : Slot)
      → get_elem? ring.slots (ring.write_pos % ring.slot_count) ≡ some s
      → get_elem? (pushed p s ring).slots (ring.write_pos % ring.slot_count)
        ≡ some (filled (encode_frame p) s)
  written_here p s here =
      get_elem?-set_self ring.slots (ring.write_pos % ring.slot_count) (filled (encode_frame p) s)
        (get_elem?-lt ring.slots (ring.write_pos % ring.slot_count) here)

  written_other :
      (p : Packet) (s : Slot) (k : ℕ)
      → ring.write_pos % ring.slot_count ≢ k % ring.slot_count
      → get_elem? (pushed p s ring).slots (k % ring.slot_count)
        ≡ get_elem? ring.slots (k % ring.slot_count)
  written_other p s k ne =
      get_elem?-set_ne ring.slots (ring.write_pos % ring.slot_count) (k % ring.slot_count)
        (filled (encode_frame p) s) ne

  pushed-wide :
      (p : Packet) (s : Slot)
      → length (encode_frame p) ≤ ring.slot_bytes
      → get_elem? ring.slots (ring.write_pos % ring.slot_count) ≡ some s
      → (i : ℕ) (t : Slot) → get_elem? (pushed p s ring).slots i ≡ some t
      → length t.bytes ≡ ring.slot_bytes
  unfolding filled
  pushed-wide p s fits here i t e = elim (ℕ_discrete (ring.write_pos % ring.slot_count) i) [
    | yes same ↦
        let width = v.wide (ring.write_pos % ring.slot_count) s here in
        let is_filled : t ≡ filled (encode_frame p) s =
          some-injective t (filled (encode_frame p) s)
            (sym e ∙ (ap (get_elem? (pushed p s ring).slots) (sym same) ∙ written_here p s here)) in
        ap (λ x. length x.bytes) is_filled
        ∙ (length-copy_from_slice s.bytes (encode_frame p) 0 (omega (arith, fits, width)) ∙ width)
    | no ne ↦ v.wide i t (
        sym (
          get_elem?-set_ne ring.slots (ring.write_pos % ring.slot_count) i
            (filled (encode_frame p) s) ne)
        ∙ e)
  ]

  pushed-held :
      (p : Packet) (s : Slot)
      → InRange p
      → length (encode_frame p) ≤ ring.slot_bytes
      → length q < ring.slot_count
      → get_elem? ring.slots (ring.write_pos % ring.slot_count) ≡ some s
      → (i : ℕ) (p' : Packet) → get_elem? (q ++ (p ∷ [])) i ≡ some p'
      → (t : Slot) × (get_elem? (pushed p s ring).slots ((ring.read_pos + i) % ring.slot_count)
          ≡ some t)
        × Holds p' t
  pushed-held p s range fits room here i p' e = elim (order-cases i (length q)) [
    | inl lt ↦
        let (t, there, holds) = v.held i p' (sym (get_elem?-append_left q (p ∷ []) i lt) ∙ e) in
        (
          t,
          written_other p s (ring.read_pos + i) (λ same.
                mod-ne ring.slot_count (ring.read_pos + i) ring.write_pos
                  (omega (arith, v.positions, lt)) (omega (arith, v.positions, room)) (sym same))
              ∙ there,
          holds,
        )
    | inr (inl same) ↦
        let new = filled (encode_frame p) s in
        let is_p : p ≡ p' =
          some-injective p p'
            (sym (get_elem?-append_end q p) ∙ (ap (get_elem? (q ++ (p ∷ []))) (sym same) ∙ e)) in
        (
          new,
          ap (λ k. get_elem? (pushed p s ring).slots (k % ring.slot_count))
                (omega (arith, v.positions, same))
              ∙ written_here p s here,
          subst (λ x. Holds x new) is_p (filled-Holds p s range (omega (arith, fits, v.small))),
        )
    | inr (inr gt) ↦ absurd (
        ground (
          arith,
          get_elem?-none (q ++ (p ∷ [])) i (omega (arith, gt, length-append q (p ∷ []))),
          e,
        ))
  ]

  pub pushed-Represents :
      (p : Packet) (s : Slot)
      → InRange p
      → length (encode_frame p) ≤ ring.slot_bytes
      → length q < ring.slot_count
      → get_elem? ring.slots (ring.write_pos % ring.slot_count) ≡ some s
      → Represents (q ++ (p ∷ [])) (pushed p s ring)
  pushed-Represents p s range fits room here = record {
    some_slots = v.some_slots;
    small = v.small;
    wide = pushed-wide p s fits here;
    positions = omega (arith, v.positions, length-append q (p ∷ []), below);
    bounded = omega (arith, room, length-append q (p ∷ []));
    held = pushed-held p s range fits room here;
    blank = λ k after near.
        let later : ring.write_pos < k = omega (arith, after, below) in
        let (t, there, empty) = v.blank k (omega (arith, later)) near in
        (
          t,
          written_other p s k
                (mod-ne ring.slot_count ring.write_pos k later (omega (arith, near, v.positions)))
              ∙ there,
          empty,
        );
  }

-- A push on a ring that stands for the queue `q`, of a packet in range whose frame fits a slot, adds it
-- to the queue if that is shorter than the ring, and else answers RingFull and changes nothing.
pub try_push-Represents :
    (q : List Packet) (ring : ShmPacketRing) (p : Packet)
    → Represents q ring
    → ring.write_pos + 1 < 2 ^ 64
    → InRange p
    → length (encode_frame p) ≤ ring.slot_bytes
    → let (ring', r) = try_push p ring in
      ((length q < ring.slot_count) × (r ≡ ok tt) × Represents (q ++ (p ∷ [])) ring')
      ⊎ ((length q ≡ ring.slot_count) × (r ≡ err ring_full) × (ring' ≡ ring))
try_push-Represents q ring p v below range fits = elim (order-cases (length q) ring.slot_count) [
  | inl room ↦
      let (s, here, empty) =
        v.blank ring.write_pos (omega arith) (omega (arith, v.positions, room)) in
      rw (push_room q ring v below p s fits room here empty)
        (inl (room, refl, pushed-Represents q ring v below p s range fits room here))
  | inr (inl full) ↦ rw (push_full q ring v below p fits full) (inr (full, refl, refl))
  | inr (inr over) ↦ absurd (omega (arith, v.bounded, over))
]
