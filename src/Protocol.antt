-- ===== src/Protocol.antt =====
-- The transport header and frames of crates/aether-protocol/src/lib.rs.
-- A function that returns `Result<T, ProtocolError>` returns a `Result`; a `[u8; 32]` or `&[u8]` is
-- a list of bytes. `try_into().unwrap()` on a slice of the right length cannot fail, and every slice
-- below is taken after the length check.
pub mod Bytes
pub mod RoundTrip
pub mod Decode
mod Tests
use aether_radio_sim.Base.{
  ℕ, zero, suc, ◌+◌, ◌*◌, ◌/◌, ◌%◌, ◌^◌, List, [], ◌∷◌, ◌++◌, ◌>>◌, ◌>>=◌, Result, ok, err, ltb,
  ◌==◌, if◌then◌else◌, length, drop, slice, copy_from_slice, replicate, u32_mod,
}
use aether_radio_sim.Types.{Packet, StreamId, Sequence, Timestamp}

-- `AETHER_MAGIC`
abbrev pub aether_magic : ℕ
aether_magic = 0x4154_4852

-- `AETHER_VERSION`
abbrev pub aether_version : ℕ
aether_version = 1

pub record AetherHeader : Type 0 where
  pub magic : ℕ
  pub version : ℕ
  pub stream_id : ℕ
  pub timestamp : ℕ
  pub sequence : ℕ
  pub payload_len : ℕ

pub data ProtocolError : Type 0 where
  truncated : ℕ → ℕ → ProtocolError
  bad_magic : ℕ → ProtocolError
  unsupported_version : ℕ → ProtocolError
  payload_len_mismatch : ℕ → ℕ → ProtocolError

pub new : StreamId → Timestamp → Sequence → ℕ → AetherHeader
new stream_id timestamp sequence payload_len = record {
  magic = aether_magic;
  version = aether_version;
  stream_id = stream_id;
  timestamp = timestamp;
  sequence = sequence;
  payload_len = payload_len;
}

-- `to_le_bytes` of a word of `n` bytes
unfoldable pub to_le_bytes : ℕ → ℕ → List ℕ
to_le_bytes zero x = []
to_le_bytes (suc n) x = x % 256 ∷ to_le_bytes n (x / 256)

-- `from_le_bytes`
unfoldable pub from_le_bytes : List ℕ → ℕ
from_le_bytes [] = 0
from_le_bytes (b ∷ bs) = b + 256 * from_le_bytes bs

-- `AetherHeader::encode`; bytes 6 and 7 stay zero.
pub encode : AetherHeader → List ℕ
unfolding to_le_bytes
encode h =
    let buf : List ℕ = replicate 32 0 in
    let buf1 : List ℕ = copy_from_slice buf 0 (to_le_bytes 4 h.magic) in
    let buf2 : List ℕ = copy_from_slice buf1 4 (to_le_bytes 2 h.version) in
    let buf3 : List ℕ = copy_from_slice buf2 8 (to_le_bytes 4 h.stream_id) in
    let buf4 : List ℕ = copy_from_slice buf3 12 (to_le_bytes 8 h.timestamp) in
    let buf5 : List ℕ = copy_from_slice buf4 20 (to_le_bytes 8 h.sequence) in
    copy_from_slice buf5 28 (to_le_bytes 4 h.payload_len)

-- `AetherHeader::validate`
pub validate : AetherHeader → Result ProtocolError (Unit {0})
validate h =
    if h.magic == aether_magic
    then if h.version == aether_version then ok tt else err (unsupported_version h.version)
    else err (bad_magic h.magic)

-- the fields that `decode` reads, before it validates them
pub read_fields : List ℕ → AetherHeader
unfolding from_le_bytes
read_fields bytes = record {
  magic = from_le_bytes (slice bytes 0 4);
  version = from_le_bytes (slice bytes 4 6);
  stream_id = from_le_bytes (slice bytes 8 12);
  timestamp = from_le_bytes (slice bytes 12 20);
  sequence = from_le_bytes (slice bytes 20 28);
  payload_len = from_le_bytes (slice bytes 28 32);
}

-- `AetherHeader::decode`
pub decode : List ℕ → Result ProtocolError AetherHeader
decode bytes =
    if ltb (length bytes) 32
    then err (truncated (length bytes) 32)
    else do validate (read_fields bytes); ok (read_fields bytes)

-- `encode_frame`; the length is cast by `as u32`.
pub encode_frame : Packet → List ℕ
encode_frame packet =
    encode (new packet.stream_id packet.timestamp packet.sequence (length packet.payload % u32_mod))
    ++ packet.payload

-- `decode_frame`
pub decode_frame : List ℕ → Result ProtocolError Packet
decode_frame bytes = do
  header ← decode bytes
  let body = drop 32 bytes
  if length body == header.payload_len
      then ok (record {
        stream_id = header.stream_id;
        sequence = header.sequence;
        timestamp = header.timestamp;
        payload = body;
      })
      else err (payload_len_mismatch header.payload_len (length body))
