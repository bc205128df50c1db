-- ===== src/Shm/Pop.antt =====
-- `try_pop` of crates/shm-io/src/lib.rs on a ring that stands for a queue.
use aether_radio_sim.Base.{
  ℕ, suc, ◌+◌, ◌%◌, ◌^◌, ◌<◌, ◌≤◌, ◌≡◌, refl, ap, sym, ◌∙◌, List, [], ◌∷◌, Option, none, some,
  Result, ok, length, get_elem?, get_elem?-set_self, get_elem?-set_ne, get_elem?-lt, set, slice,
  wrapping_add, arith, inl, inr,
}
use native.Mathlib.Decide.{ℕ_discrete}
use native.Mathlib.Nat.{add-mod_right}
use mathlib.Core.Option.{some-injective}
use aether_radio_sim.Types.{Packet}
use aether_radio_sim.Protocol.{decode_frame}
use aether_radio_sim.Protocol.RoundTrip.{decode_frame-encode_frame}
use aether_radio_sim.Shm.{Slot, ShmPacketRing, ShmIoError, slot_state_empty, try_pop}
use aether_radio_sim.Shm.Positions.{mod-ne, order-cases}
use aether_radio_sim.Shm.Queue.{Holds, Represents}

-- The slot once it is read, and the ring.
abbrev emptied : Slot → Slot
emptied s = record s { state = slot_state_empty }

abbrev popped : Slot → ShmPacketRing → ShmPacketRing
popped s ring = record ring {
  slots = set ring.slots (ring.read_pos % ring.slot_count) (emptied s);
  read_pos = wrapping_add ring.read_pos 1;
  popped = wrapping_add ring.popped 1;
}

pop_empty : (ring : ShmPacketRing) → Represents [] ring → try_pop ring ≡ (ring, ok none)
unfolding try_pop
pop_empty ring v = ground (arith, v.positions)

module _ (p : Packet) (q : List Packet) (ring : ShmPacketRing) (v : Represents (p ∷ q) ring)
    (below : ring.write_pos < 2 ^ 64) where
  -- the oldest packet's slot
  first : (s : Slot) × (get_elem? ring.slots (ring.read_pos % ring.slot_count) ≡ some s) × Holds p s
  first =
      let (s, here, holds) = v.held 0 p refl in
      (s, ap (λ k. get_elem? ring.slots (k % ring.slot_count)) (omega arith) ∙ here, holds)

  pop_first :
      (s : Slot)
      → get_elem? ring.slots (ring.read_pos % ring.slot_count) ≡ some s
      → Holds p s
      → try_pop ring ≡ (popped s ring, ok (some p))
  unfolding try_pop
  pop_first s here holds =
      let decoded : decode_frame (slice s.bytes 0 s.len) ≡ ok p =
        ap decode_frame holds.frame ∙ decode_frame-encode_frame p holds.range in
      rw (here, decoded, try_pop) (ground (arith, v.positions, holds.state))

  emptied_here :
      (s : Slot)
      → get_elem? ring.slots (ring.read_pos % ring.slot_count) ≡ some s
      → get_elem? (popped s ring).slots (ring.read_pos % ring.slot_count) ≡ some (emptied s)
  emptied_here s here =
      get_elem?-set_self ring.slots (ring.read_pos % ring.slot_count) (emptied s)
        (get_elem?-lt ring.slots (ring.read_pos % ring.slot_count) here)

  -- A later position less than the ring's length away is at another slot.
  untouched :
      (s : Slot) (k : ℕ)
      → ring.read_pos < k
      → k < ring.read_pos + ring.slot_count
      → get_elem? (popped s ring).slots (k % ring.slot_count)
        ≡ get_elem? ring.slots (k % ring.slot_count)
  untouched s k after near =
      get_elem?-set_ne ring.slots (ring.read_pos % ring.slot_count) (k % ring.slot_count)
        (emptied s) (mod-ne ring.slot_count ring.read_pos k after near)

  popped-wide :
      (s : Slot)
      → get_elem? ring.slots (ring.read_pos % ring.slot_count) ≡ some s
      → (i : ℕ) (t : Slot) → get_elem? (popped s ring).slots i ≡ some t
      → length t.bytes ≡ ring.slot_bytes
  popped-wide s here i t e = elim (ℕ_discrete (ring.read_pos % ring.slot_count) i) [
    | yes same ↦
        let is_emptied : t ≡ emptied s =
          some-injective t (emptied s)
            (sym e ∙ (ap (get_elem? (popped s ring).slots) (sym same) ∙ emptied_here s here)) in
        ap (λ x. length x.bytes) is_emptied ∙ v.wide (ring.read_pos % ring.slot_count) s here
    | no ne ↦
        v.wide i t
          (sym (get_elem?-set_ne ring.slots (ring.read_pos % ring.slot_count) i (emptied s) ne) ∙ e)
  ]

  popped-held :
      (s : Slot) (i : ℕ) (p' : Packet)
      → get_elem? q i ≡ some p'
      → (t : Slot) × (get_elem?
            (popped s ring).slots
            ((wrapping_add ring.read_pos 1 + i) % ring.slot_count)
          ≡ some t)
        × Holds p' t
  popped-held s i p' e =
      let inside : i < length q = get_elem?-lt q i e in
      let (t, there, holds) = v.held (suc i) p' e in
      (
        t,
        ap (λ k. get_elem? (popped s ring).slots (k % ring.slot_count))
              (omega (arith, v.positions, below))
            ∙ (untouched s (ring.read_pos + suc i) (omega arith) (omega (arith, v.bounded, inside))
                ∙ there),
        holds,
      )

  popped-blank :
      (s : Slot)
      → get_elem? ring.slots (ring.read_pos % ring.slot_count) ≡ some s
      → (k : ℕ) → ring.write_pos ≤ k
      → k < wrapping_add ring.read_pos 1 + ring.slot_count
      → (t : Slot) × (get_elem? (popped s ring).slots (k % ring.slot_count) ≡ some t)
        × (t.state ≡ slot_state_empty)
  popped-blank s here k after near = elim (order-cases k (ring.read_pos + ring.slot_count)) [
    | inl lt ↦
        let (t, there, empty) = v.blank k after lt in
        (t, untouched s k (omega (arith, v.positions, after)) lt ∙ there, empty)
    | inr (inl end) ↦ (
      emptied s,
      ap (get_elem? (popped s ring).slots)
            (ap (λ j. j % ring.slot_count) end ∙ add-mod_right ring.read_pos ring.slot_count)
          ∙ emptied_here s here,
      refl,
    )
    | inr (inr gt) ↦ absurd (omega (arith, near, gt, v.positions, below))
  ]

  popped-Represents :
      (s : Slot)
      → get_elem? ring.slots (ring.read_pos % ring.slot_count) ≡ some s
      → Represents q (popped s ring)
  popped-Represents s here = record {
    some_slots = v.some_slots;
    small = v.small;
    wide = popped-wide s here;
    positions = omega (arith, v.positions, below);
    bounded = omega (arith, v.bounded);
    held = popped-held s;
    blank = popped-blank s here;
  }

-- A pop of the queue that a ring stands for.
abbrev pub Popped :
    List Packet → ShmPacketRing → ShmPacketRing → Result ShmIoError (Option Packet) → Type 0
Popped [] ring ring' r = (r ≡ ok none) × (ring' ≡ ring)
Popped (p ∷ q) ring ring' r = (r ≡ ok (some p)) × Represents q ring'

-- A pop on a ring that stands for a queue returns and removes its oldest packet; on the empty queue it
-- returns none and changes nothing.
pub try_pop-Popped :
    (q : List Packet) (ring : ShmPacketRing)
    → Represents q ring
    → ring.write_pos < 2 ^ 64
    → let (ring', r) = try_pop ring in Popped q ring ring' r
try_pop-Popped [] ring v below = rw (pop_empty ring v) (refl, refl)
try_pop-Popped (p ∷ q) ring v below =
    let (s, here, holds) = first p q ring v below in
    rw (pop_first p q ring v below s here holds) (refl, popped-Represents p q ring v below s here)
