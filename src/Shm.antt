-- ===== src/Shm.antt =====
-- The shared-memory packet ring of crates/shm-io/src/lib.rs. The mapped file is a record: the words of
-- its header and, for each slot, the state word, the length word and `slot_bytes` bytes. One call of
-- `try_push` or `try_pop` is one step; the opening of the file is I/O and stays outside.
pub mod Positions
pub mod Queue
pub mod Pop
pub mod Runs
mod Tests
use Prim.Native.String.{String}
use aether_radio_sim.Base.{
  ℕ, zero, suc, ◌+◌, ◌-◌, ◌%◌, ◌^◌, List, [], ◌∷◌, ◌++◌, Option, none, some, Bool, true, false, not,
  ◌&&◌, ◌==◌, Result, ok, err, length, get_elem?, set, take, drop, slice, copy_from_slice,
  replicate, ltb, leb, if◌then◌else◌, min, wrapping_add, u32_mod, u64_mod,
}
use aether_radio_sim.Base.Machine.{Method, ◌>>=◌, pure}
use aether_radio_sim.Types.{Packet}
use aether_radio_sim.Protocol.{ProtocolError, encode_frame, decode_frame}

-- `MAGIC`
abbrev pub magic : ℕ
magic = 0x314D_4853

-- `SLOT_STATE_EMPTY`
abbrev pub slot_state_empty : ℕ
slot_state_empty = 0

-- `SLOT_STATE_FULL`
abbrev pub slot_state_full : ℕ
slot_state_full = 1

pub data ShmIoError : Type 0 where
  config : String → ShmIoError
  protocol : ProtocolError → ShmIoError
  ring_full : ShmIoError
  bad_header : ShmIoError
  frame_too_large : ShmIoError

pub record Slot : Type 0 where
  pub state : ℕ
  pub len : ℕ
  pub bytes : List ℕ

pub record ShmPacketRing : Type 0 where
  pub magic : ℕ
  pub version : ℕ
  pub header_slot_count : ℕ
  pub header_slot_bytes : ℕ
  pub write_pos : ℕ
  pub read_pos : ℕ
  pub slots : List Slot
  pub slot_count : ℕ
  pub slot_bytes : ℕ
  pub pushed : ℕ
  pub popped : ℕ

-- `init_ring` on the mapped file, with the fields that `open` sets
unfoldable pub init_ring : ℕ → ℕ → ShmPacketRing
init_ring slot_count slot_bytes = record {
  magic = magic;
  version = 1;
  header_slot_count = slot_count % u32_mod;
  header_slot_bytes = slot_bytes % u32_mod;
  write_pos = 0;
  read_pos = 0;
  slots =
      replicate slot_count
        (record { state = slot_state_empty; len = 0; bytes = replicate slot_bytes 0 });
  slot_count = slot_count;
  slot_bytes = slot_bytes;
  pushed = 0;
  popped = 0;
}

-- `validate_header` with the counts of the configuration cast by `as u32`
unfoldable pub validate_header : ℕ → ℕ → ShmPacketRing → Result ShmIoError (Unit {0})
validate_header slot_count slot_bytes ring =
    if not (ring.magic == magic && ring.version == 1)
    then err bad_header
    else if not (
        ring.header_slot_count == slot_count % u32_mod
        && ring.header_slot_bytes == slot_bytes % u32_mod)
    then err (config "shm geometry mismatch vs config")
    else ok tt

-- a `wrapping_sub` on `u64`
abbrev pub wrapping_sub : ℕ → ℕ → ℕ
wrapping_sub a b = (a + u64_mod - b) % u64_mod

-- the slot once the frame, its length and its state are stored
unfoldable pub filled : List ℕ → Slot → Slot
filled frame slot = record {
  state = slot_state_full;
  len = length frame % u32_mod;
  bytes = copy_from_slice slot.bytes 0 frame;
}

-- Every index is below `slot_count`, so the slot is there.
unfoldable pub try_push : Packet → Method ShmPacketRing ShmIoError (Unit {0})
try_push packet ring =
    let frame = encode_frame packet in
    let w = ring.write_pos in
    let idx = w % ring.slot_count in
    if ltb ring.slot_bytes (length frame)
    then (ring, err frame_too_large)
    else if leb ring.slot_count (wrapping_sub w ring.read_pos)
    then (ring, err ring_full)
    else elim (get_elem? ring.slots idx) [
      | none ↦ (ring, err ring_full)
      | some slot ↦ if not (slot.state == slot_state_empty) then (ring, err ring_full) else (
        record ring {
          slots = set ring.slots idx (filled frame slot);
          write_pos = wrapping_add w 1;
          pushed = wrapping_add ring.pushed 1;
        },
        ok tt,
      )
    ]

-- A frame that does not decode stays in its slot.
unfoldable pub try_pop : Method ShmPacketRing ShmIoError (Option Packet)
try_pop ring =
    let r = ring.read_pos in
    let idx = r % ring.slot_count in
    if r == ring.write_pos then (ring, ok none) else elim (get_elem? ring.slots idx) [
      | none ↦ (ring, ok none)
      | some slot ↦
          if not (slot.state == slot_state_full)
          then (ring, ok none)
          else elim (decode_frame (slice slot.bytes 0 slot.len)) [
            | err e ↦ (ring, err (protocol e))
            | ok packet ↦ (
              record ring {
                slots = set ring.slots idx (record slot { state = slot_state_empty });
                read_pos = wrapping_add r 1;
                popped = wrapping_add ring.popped 1;
              },
              ok (some packet),
            )
          ]
    ]

-- The loop of `send_packet`, with no other process between two tries.
unfoldable pub send_tries : ℕ → Packet → Method ShmPacketRing ShmIoError (Unit {0})
send_tries zero packet ring = (ring, err ring_full)
send_tries (suc n) packet ring =
    let again = send_tries n packet in
    let (ring', r) = try_push packet ring in
    elim r [
      | ok _ ↦ (ring', ok tt)
      | err e ↦ elim e [ ring_full ↦ again ring' | other ↦ (ring', err other) ]
    ]

unfoldable pub send_packet : Packet → Method ShmPacketRing ShmIoError (Unit {0})
send_packet = send_tries 10_000

pub record ShmPacketIo : Type 0 where
  pub ring : ShmPacketRing
  pub rx : List Packet

-- The loop of `poll_rx`, `most` times at most, with what it has counted.
unfoldable pub poll_loop : ℕ → ℕ → Method ShmPacketIo ShmIoError ℕ
poll_loop zero n io = (io, ok n)
poll_loop (suc most) n io =
    let again = poll_loop most (n + 1) in
    let (ring', r) = try_pop io.ring in
    elim r [
      | err e ↦ (record io { ring = ring' }, err e)
      | ok none ↦ (record io { ring = ring' }, ok n)
      | ok (some packet) ↦ again (record { ring = ring'; rx = io.rx ++ (packet ∷ []) })
    ]

unfoldable pub poll_rx : ℕ → Method ShmPacketIo ShmIoError ℕ
poll_rx most = poll_loop most 0

unfoldable pub rx_burst : ℕ → ShmPacketIo → ShmPacketIo × List Packet
rx_burst most io =
    let polled = (poll_rx most io).0 in
    let n = min most (length polled.rx) in
    (record polled { rx = drop n polled.rx }, take n polled.rx)

unfoldable pub tx_burst : List Packet → ShmPacketIo → ShmPacketIo × ℕ
tx_burst packets io = (io, 0)
