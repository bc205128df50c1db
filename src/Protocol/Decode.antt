-- ===== src/Protocol/Decode.antt =====
-- What `decode_frame` accepts: no frame that was cut short, and nothing that is not the frame of its
-- packet but for the two reserved bytes.
use aether_radio_sim.Base.{
  ℕ, zero, suc, ◌+◌, ◌-◌, ◌^◌, ◌<◌, ◌≤◌, ◌≡◌, ap, sym, ◌∙◌, List, [], ◌∷◌, ◌++◌, length,
  length-append, length-take, length-drop, take, subst, drop, ok, err, arith, ltb, lt→ltb,
  if◌then◌else◌, Bool-cases, inl, inr, All, copy_from_slice, slice,
}
use native.Mathlib.Nat.{suc-add}
use aether_radio_sim.Types.{Packet, InRange}
use aether_radio_sim.Protocol.{
  encode, decode, encode_frame, decode_frame, truncated, payload_len_mismatch, from_le_bytes, new,
  read_fields, aether_magic, aether_version, validate,
}
use aether_radio_sim.Protocol.Bytes.{IsByte, to_le_bytes-from_le_bytes, from_le_bytes-lt}
use aether_radio_sim.Protocol.RoundTrip.{
  HeaderInRange, header_of, encode_frame-header_of, decode_frame-header_of, length-encode,
}

decode_frame_short :
    (bytes : List ℕ) → length bytes < 32 → decode_frame bytes ≡ err (truncated (length bytes) 32)
unfolding decode_frame decode
decode_frame_short bytes h = rw (lt→ltb (length bytes) 32 h)

take_past : (n : ℕ) (xs ys : List ℕ) → take (length xs + n) (xs ++ ys) ≡ xs ++ take n ys
take_past n [] ys = ap (λ k. take k ys) (omega arith)
take_past n (x ∷ xs) ys = rw suc-add (ap (◌∷◌ x) (take_past n xs ys))

take_header :
    (p : Packet) (n : ℕ)
    → InRange p
    → 32 ≤ n
    → take n (encode_frame p) ≡ encode (header_of p) ++ take (n - 32) p.payload
take_header p n r h = rw (encode_frame-header_of p r) (
    ap (λ k. take k (encode (header_of p) ++ p.payload))
      (omega (arith, length-encode (header_of p)))
    ∙ take_past (n - 32) (encode (header_of p)) p.payload)

pub length-encode_frame : (p : Packet) → InRange p → length (encode_frame p) ≡ 32 + length p.payload
length-encode_frame p r = omega (
  arith,
  ap length (encode_frame-header_of p r),
  length-append (encode (header_of p)) p.payload,
  length-encode (header_of p),
)

-- A proper prefix of a packet's frame is refused: as truncated inside the header, and for its length
-- after it.
pub decode_frame-take :
    (p : Packet) (n : ℕ)
    → InRange p
    → n < length (encode_frame p)
    → decode_frame (take n (encode_frame p)) ≡ (
        if ltb n 32
        then err (truncated n 32)
        else err (payload_len_mismatch (length p.payload) (n - 32)))
decode_frame-take p n r h = elim (Bool-cases (ltb n 32)) [
  | inl short ↦
      rw (short, decode_frame_short (take n (encode_frame p)) (ground (arith, cut_length)))
        (ap (λ k. err (truncated k 32)) cut_length)
  | inr long ↦
      rw
        (
          long,
          take_header p n r (ground arith),
          decode_frame-header_of p (take (n - 32) p.payload) r,
          length-take (n - 32) p.payload,
        )
        (ground (arith, length-encode_frame p r))
]
  where
    cut_length : length (take n (encode_frame p)) ≡ n
    cut_length = omega (arith, length-take n (encode_frame p))

-- Fields of a decoded packet are those that the header's bytes spell.
decode_frame-ok :
    (bytes : List ℕ) {p : Packet}
    → decode_frame bytes ≡ ok p
    → (32 ≤ length bytes)
      × ((read_fields bytes).magic ≡ aether_magic)
      × ((read_fields bytes).version ≡ aether_version)
      × (p.stream_id ≡ (read_fields bytes).stream_id)
      × (p.timestamp ≡ (read_fields bytes).timestamp)
      × (p.sequence ≡ (read_fields bytes).sequence)
      × (length p.payload ≡ (read_fields bytes).payload_len)
      × (p.payload ≡ drop 32 bytes)
unfolding decode_frame decode validate
decode_frame-ok bytes e = ground arith

-- `Heads n P`: `P` at every list that begins with `n` bytes.
abbrev Heads : ℕ → (List ℕ → Type 0) → Type 0
Heads zero P = (rest : List ℕ) → P rest
Heads (suc n) P = (b : ℕ) → Heads n (λ rest. P (b ∷ rest))

by_heads : (n : ℕ) (P : List ℕ → Type 0) → Heads n P → (bytes : List ℕ) → n ≤ length bytes → P bytes
by_heads zero P f bytes h = f bytes
by_heads (suc n) P f [] h = absurd (omega arith)
by_heads (suc n) P f (b ∷ bytes) h = by_heads n (λ rest. P (b ∷ rest)) (f b) bytes (omega arith)

All-take : (n : ℕ) (bs : List ℕ) → All IsByte bs → All IsByte (take n bs)
All-take zero bs h = tt
All-take (suc n) [] h = tt
All-take (suc n) (b ∷ bs) h = (h.0, All-take n bs h.1)

All-drop : (n : ℕ) (bs : List ℕ) → All IsByte bs → All IsByte (drop n bs)
All-drop zero bs h = h
All-drop (suc n) [] h = tt
All-drop (suc n) (b ∷ bs) h = All-drop n bs h.1

-- What `encode` writes for a header is what its fields were read from, with the reserved bytes zero.
encode-read_fields :
    (bytes : List ℕ)
    → 32 ≤ length bytes
    → All IsByte bytes
    → encode (read_fields bytes) ++ drop 32 bytes ≡ copy_from_slice bytes 6 (0 ∷ 0 ∷ [])
unfolding encode read_fields
encode-read_fields =
    by_heads 32
      (λ bytes.
        All IsByte bytes
        → encode (read_fields bytes) ++ drop 32 bytes ≡ copy_from_slice bytes 6 (0 ∷ 0 ∷ []))
      λ b0 b1 b2 b3 b4 b5 b6 b7 b8 b9 b10 b11 b12 b13 b14 b15 b16 b17 b18 b19 b20 b21 b22 b23 b24
          b25 b26 b27 b28 b29 b30 b31 rest h.
        let bytes : List ℕ =
          b0 ∷ b1 ∷ b2 ∷ b3 ∷ b4 ∷ b5 ∷ b6 ∷ b7 ∷ b8 ∷ b9 ∷ b10 ∷ b11 ∷ b12 ∷ b13 ∷ b14 ∷ b15 ∷ b16
          ∷ b17 ∷ b18 ∷ b19 ∷ b20 ∷ b21 ∷ b22 ∷ b23 ∷ b24 ∷ b25 ∷ b26 ∷ b27 ∷ b28 ∷ b29 ∷ b30 ∷ b31
          ∷ rest in
        let again = λ (from to : ℕ).
          to_le_bytes-from_le_bytes (slice bytes from to)
            (All-take (to - from) (drop from bytes) (All-drop from bytes h)) in
        λ i.
          again 0 4 i
          ++ (again 4 6 i
              ++ ((0 ∷ 0 ∷ [])
                  ++ (again 8 12 i
                      ++ (again 12 20 i ++ (again 20 28 i ++ (again 28 32 i ++ rest))))))

-- A field read from `bytes[from..to]` fits its type.
read_field-lt :
    (bytes : List ℕ) (from to : ℕ)
    → All IsByte bytes
    → from ≤ to
    → to ≤ length bytes
    → from_le_bytes (slice bytes from to) < 256 ^ (to - from)
read_field-lt bytes from to h a b =
    subst (λ n. from_le_bytes (slice bytes from to) < 256 ^ n)
      (omega (arith, length-take (to - from) (drop from bytes), length-drop from bytes))
      (from_le_bytes-lt (slice bytes from to)
        (All-take (to - from) (drop from bytes) (All-drop from bytes h)))

read_fields-HeaderInRange :
    (bytes : List ℕ) → All IsByte bytes → 32 ≤ length bytes → HeaderInRange (read_fields bytes)
unfolding read_fields
read_fields-HeaderInRange bytes h long = record {
  magic = read_field-lt bytes 0 4 h (omega arith) (omega arith);
  version = read_field-lt bytes 4 6 h (omega arith) (omega arith);
  stream_id = read_field-lt bytes 8 12 h (omega arith) (omega arith);
  timestamp = read_field-lt bytes 12 20 h (omega arith) (omega arith);
  sequence = read_field-lt bytes 20 28 h (omega arith) (omega arith);
  payload_len = read_field-lt bytes 28 32 h (omega arith) (omega arith);
}

-- Whatever `decode_frame` accepts is the frame of the packet that it returns, but for the two
-- reserved bytes, which a frame has at zero; and the packet's fields fit their types.
pub encode_frame-decode_frame :
    (bytes : List ℕ) (p : Packet)
    → All IsByte bytes
    → decode_frame bytes ≡ ok p
    → InRange p × (encode_frame p ≡ copy_from_slice bytes 6 (0 ∷ 0 ∷ []))
unfolding new
encode_frame-decode_frame bytes p h e =
    let (long, magic, version, stream_id, timestamp, sequence, payload_len, body) =
      decode_frame-ok bytes e in
    let r = read_fields-HeaderInRange bytes h long in
    let in_range : InRange p = record {
      stream_id = ground (arith, r);
      sequence = ground (arith, r);
      timestamp = ground (arith, r);
      payload = ground (arith, r);
    } in
    let header : header_of p ≡ read_fields bytes = λ i. record {
      magic = sym magic i;
      version = sym version i;
      stream_id = stream_id i;
      timestamp = timestamp i;
      sequence = sequence i;
      payload_len = payload_len i;
    } in
    (
      in_range,
      encode_frame-header_of p in_range
          ∙ ((λ i. encode (header i) ++ body i) ∙ encode-read_fields bytes long h),
    )
