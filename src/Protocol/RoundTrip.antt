-- ===== src/Protocol/RoundTrip.antt =====
-- A frame that was encoded is decoded to the packet that it came from.
use aether_radio_sim.Base.{
  ℕ, ◌^◌, ◌<◌, ◌≡◌, refl, ap, List, ◌++◌, length, length-append, ok, err, arith, le→ltb_false,
  eq→==, ◌==◌, if◌then◌else◌, drop, ◌>>=◌,
}
use aether_radio_sim.Types.{Packet, InRange}
use aether_radio_sim.Protocol.{
  AetherHeader, new, encode, decode, validate, read_fields, encode_frame, decode_frame,
  payload_len_mismatch,
}
use aether_radio_sim.Protocol.Bytes.{from_le_bytes-to_le_bytes}

-- The ranges of the header's Rust types.
pub record HeaderInRange (h : AetherHeader) : Type 0 where
  pub magic : h.magic < 2 ^ 32
  pub version : h.version < 2 ^ 16
  pub stream_id : h.stream_id < 2 ^ 32
  pub timestamp : h.timestamp < 2 ^ 64
  pub sequence : h.sequence < 2 ^ 64
  pub payload_len : h.payload_len < 2 ^ 32

pub length-encode : (h : AetherHeader) → length (encode h) ≡ 32
unfolding encode
length-encode h = refl

pub drop-encode : (h : AetherHeader) (rest : List ℕ) → drop 32 (encode h ++ rest) ≡ rest
unfolding encode
drop-encode h rest = refl

pub read_fields-encode :
    (h : AetherHeader) (rest : List ℕ) → HeaderInRange h → read_fields (encode h ++ rest) ≡ h
unfolding read_fields encode
read_fields-encode h rest r = λ i. record {
  magic = from_le_bytes-to_le_bytes 4 h.magic (omega arith) i;
  version = from_le_bytes-to_le_bytes 2 h.version (omega arith) i;
  stream_id = from_le_bytes-to_le_bytes 4 h.stream_id (omega arith) i;
  timestamp = from_le_bytes-to_le_bytes 8 h.timestamp (omega arith) i;
  sequence = from_le_bytes-to_le_bytes 8 h.sequence (omega arith) i;
  payload_len = from_le_bytes-to_le_bytes 4 h.payload_len (omega arith) i;
}

pub decode-encode :
    (h : AetherHeader) (rest : List ℕ)
    → HeaderInRange h
    → decode (encode h ++ rest) ≡ (validate h >>= λ _. ok h)
unfolding decode
decode-encode h rest r = rw (
  le→ltb_false (length (encode h ++ rest)) 32
      (omega (arith, length-append (encode h) rest, length-encode h)),
  read_fields-encode h rest r,
)

-- the header of a packet whose fields fit their types
abbrev pub header_of : Packet → AetherHeader
header_of p = new p.stream_id p.timestamp p.sequence (length p.payload)

header_of-HeaderInRange : (p : Packet) → InRange p → HeaderInRange (header_of p)
unfolding new
header_of-HeaderInRange p r = omega arith

pub encode_frame-header_of :
    (p : Packet) → InRange p → encode_frame p ≡ encode (header_of p) ++ p.payload
unfolding encode_frame
encode_frame-header_of p r =
    ap (λ n. encode (new p.stream_id p.timestamp p.sequence n) ++ p.payload) (omega arith)

pub validate-new : (s t q n : ℕ) → validate (new s t q n) ≡ ok tt
unfolding validate new
validate-new s t q n = refl

-- What `decode_frame` makes of a packet's header before any body.
pub decode_frame-header_of :
    (p : Packet) (body : List ℕ)
    → InRange p
    → decode_frame (encode (header_of p) ++ body) ≡ (
        if length body == length p.payload
        then ok (record p { payload = body })
        else err (payload_len_mismatch (length p.payload) (length body)))
unfolding decode_frame new
decode_frame-header_of p body r = rw (
  decode-encode (header_of p) body (header_of-HeaderInRange p r),
  validate-new p.stream_id p.timestamp p.sequence (length p.payload),
  drop-encode (header_of p) body,
)

-- A packet whose fields lie in the ranges of their types, with a payload shorter than 2^32 bytes,
-- comes back from its frame unchanged.
pub decode_frame-encode_frame : (p : Packet) → InRange p → decode_frame (encode_frame p) ≡ ok p
decode_frame-encode_frame p r = rw (
  encode_frame-header_of p r,
  decode_frame-header_of p p.payload r,
  eq→== (length p.payload) (length p.payload) refl,
)
