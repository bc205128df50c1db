-- ===== src/Protocol/Tests.antt =====
-- Concrete packets and frames of crates/aether-protocol/src/lib.rs.
use aether_radio_sim.Base.{
  ℕ, List, [], ◌∷◌, ◌≡◌, ◌<◌, refl, ok, err, length, arith, All, copy_from_slice, take, ◌^◌,
}
use aether_radio_sim.Types.{Packet, InRange}
use aether_radio_sim.Protocol.{
  encode_frame, decode_frame, encode, decode, validate, read_fields, to_le_bytes, from_le_bytes,
  payload_len_mismatch,
}
use aether_radio_sim.Protocol.Bytes.{IsByte}
use aether_radio_sim.Protocol.RoundTrip.{decode_frame-encode_frame}
use aether_radio_sim.Protocol.Decode.{decode_frame-take, encode_frame-decode_frame}

abbrev sample : Packet
sample = record { stream_id = 7; sequence = 300; timestamp = 2 ^ 40; payload = 1 ∷ 2 ∷ 255 ∷ [] }

sample-InRange : InRange sample
sample-InRange = record {
  stream_id = omega arith;
  sequence = omega arith;
  timestamp = omega arith;
  payload = omega arith;
}

decode_frame-encode_frame_example : decode_frame (encode_frame sample) ≡ ok sample
decode_frame-encode_frame_example = decode_frame-encode_frame sample sample-InRange

cut_short : 34 < length (encode_frame sample)
unfolding encode_frame encode to_le_bytes
cut_short = omega arith

decode_frame-take_example :
    decode_frame (take 34 (encode_frame sample)) ≡ err (payload_len_mismatch 3 2)
decode_frame-take_example = decode_frame-take sample 34 sample-InRange cut_short

-- a frame with its reserved bytes set
abbrev marked : List ℕ
marked =
    82 ∷ 72 ∷ 84 ∷ 65 ∷ 1 ∷ 0 ∷ 9 ∷ 9 ∷ 7 ∷ 0 ∷ 0 ∷ 0 ∷ 0 ∷ 0 ∷ 0 ∷ 0 ∷ 0 ∷ 1 ∷ 0 ∷ 0 ∷ 44 ∷ 1 ∷ 0
    ∷ 0 ∷ 0 ∷ 0 ∷ 0 ∷ 0 ∷ 3 ∷ 0 ∷ 0 ∷ 0 ∷ 1 ∷ 2 ∷ 255 ∷ []

marked_bytes : All IsByte marked
marked_bytes = ground arith

marked_decodes : decode_frame marked ≡ ok sample
unfolding decode_frame decode validate read_fields from_le_bytes
marked_decodes = refl

encode_frame-decode_frame_example :
    InRange sample × (encode_frame sample ≡ copy_from_slice marked 6 (0 ∷ 0 ∷ []))
encode_frame-decode_frame_example =
    encode_frame-decode_frame marked sample marked_bytes marked_decodes
