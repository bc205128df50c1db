-- ===== src/Net/Link.antt =====
-- The two ends of crates/net-io/src/lib.rs: what a sink sends arrives at a host over a network that
-- loses nothing.
use aether_radio_sim.Base.{
  ℕ, zero, suc, ◌+◌, ◌≤◌, ◌≡◌, ◌⊎◌, inl, inr, some, refl, sym, ap, ◌∙◌, List, [], ◌∷◌, ◌++◌, map,
  Result, ok, length, take, drop, take_all, drop_all, length-take, length-append, min, append_assoc,
  append-nil, arith, All, wrapping_add,
}
use aether_radio_sim.Types.{Packet, InRange}
use aether_radio_sim.Protocol.{encode, encode_frame, decode_frame}
use aether_radio_sim.Protocol.RoundTrip.{
  decode_frame-encode_frame, encode_frame-header_of, header_of, length-encode,
}
use aether_radio_sim.Net.{
  Arrival, datagram, IoError, NetIoError, SocketAddr, NetPacketSink, NetPacketIo, send_packet,
  frame_sent, rx_burst, kept, poll_rx, recv_loop, nothing_arrived, drained,
}
use aether_radio_sim.Net.Steps.{recv_loop-kept}

-- a packet in range whose frame, a header of 32 bytes and the payload, has at most `size` bytes
pub record Fits (size : ℕ) (packet : Packet) : Type 0 where
  pub in_range : InRange packet
  pub short : 32 + length packet.payload ≤ size

abbrev pub frames : List Packet → List Arrival
frames = map λ p. datagram (encode_frame p)

-- what a poll does with the frames of packets
record FramesRead (room got : ℕ) (packets : List Packet) (s : NetPacketIo)
    (answer : NetPacketIo × Result NetIoError ℕ) : Type 0 where
  pub rx : answer.0.rx ≡ s.rx ++ take room packets
  pub sock : answer.0.sock ≡ frames (drop room packets)
  pub verdict : answer.1 ≡ ok (got + length (take room packets))

frame_decodes :
    (size : ℕ) (p : Packet) → Fits size p → decode_frame (take size (encode_frame p)) ≡ ok p
frame_decodes size p f =
    let e = ap (length {A = ℕ}) (encode_frame-header_of p f.in_range) in
    let short : length (encode_frame p) ≤ size = omega (
      arith,
      e,
      f.short,
      length-encode (header_of p),
      length-append (encode (header_of p)) p.payload,
    ) in
    ap decode_frame (take_all size (encode_frame p) short) ∙ decode_frame-encode_frame p f.in_range

-- The poll returns: its socket has a read timeout, or there are packets enough.
abbrev pub Returns : ℕ → List Packet → NetPacketIo → Type 0
Returns room packets s = ((ms : ℕ) × (s.read_timeout ≡ some ms)) ⊎ (room ≤ length packets)

recv_loop-FramesRead :
    (room got : ℕ) (packets : List Packet) (s : NetPacketIo)
    → All (Fits s.max_datagram_bytes) packets
    → Returns room packets s
    → (answer : NetPacketIo × Result NetIoError ℕ) × (recv_loop room got (frames packets) s
        ≡ some answer)
      × FramesRead room got packets s answer
unfolding recv_loop nothing_arrived
recv_loop-FramesRead zero got packets s a d =
    (_, refl, record { rx = sym (append-nil s.rx); sock = refl; verdict = ap ok (omega arith) })
recv_loop-FramesRead (suc room) got [] s a (inr l) = absurd (omega arith)
recv_loop-FramesRead (suc room) got [] s a (inl (ms, e)) = (
  (record s { sock = [] }, ok got),
  ap (λ t. nothing_arrived got t s) e,
  record { rx = sym (append-nil s.rx); sock = refl; verdict = ap ok (omega arith) },
)
recv_loop-FramesRead (suc room) got (p ∷ ps) s (f, a) d =
    let later : Returns room ps (kept p s) = elim d [ inl h ↦ inl h | inr l ↦ inr (omega arith) ] in
    let (answer, returned, r) = recv_loop-FramesRead room (got + 1) ps (kept p s) a later in
    let e = frame_decodes s.max_datagram_bytes p f in
    (
      answer,
      recv_loop-kept room got (encode_frame p) (frames ps) s p e ∙ returned,
      record {
        rx = r.rx ∙ append_assoc s.rx (p ∷ []) (take room ps);
        sock = r.sock;
        verdict = r.verdict ∙ ap ok (omega arith);
      },
    )

rx_burst-frames :
    (limit : ℕ) (packets : List Packet) (s : NetPacketIo)
    → All (Fits s.max_datagram_bytes) packets
    → Returns limit packets s
    → s.sock ≡ frames packets
    → s.rx ≡ []
    → (s' : NetPacketIo) × (rx_burst limit s ≡ some (s', take limit packets))
      × (s'.sock ≡ frames (drop limit packets))
      × (s'.rx ≡ [])
unfolding rx_burst poll_rx drained
rx_burst-frames limit packets s a d e h =
    let (answer, returned, r) = recv_loop-FramesRead limit 0 packets s a d in
    let polled = answer.0 in
    let all : polled.rx ≡ take limit packets = r.rx ∙ ap (λ xs. xs ++ take limit packets) h in
    let n = min limit (length polled.rx) in
    let short : length polled.rx ≤ n =
      omega (arith, ap (length {A = Packet}) all, length-take limit packets) in
    let burst : take n polled.rx ≡ take limit packets = take_all n polled.rx short ∙ all in
    (
      record polled { rx = drop n polled.rx },
      ap (drained limit) (ap (λ arrivals. recv_loop limit 0 arrivals s) e ∙ returned)
          ∙ ap (λ out. some (record polled { rx = drop n polled.rx }, out)) burst,
      r.sock,
      drop_all n polled.rx short,
    )

map-frames : (packets : List Packet) → map datagram (map encode_frame packets) ≡ frames packets
map-frames [] = refl
map-frames (p ∷ ps) = ap (λ xs. datagram (encode_frame p) ∷ xs) (map-frames ps)

module _ (send_to : List ℕ → SocketAddr → Result IoError ℕ) where
  -- `send_packet` for one packet after another
  unfoldable pub send_all : List Packet → NetPacketSink → NetPacketSink
  send_all [] s = s
  send_all (p ∷ ps) s = send_all ps (send_packet send_to p s).0

  -- The socket of the sink takes every frame.
  unfoldable pub Accepts : SocketAddr → List Packet → Type 0
  Accepts peer = All (λ p. (n : ℕ) × (send_to (encode_frame p) peer ≡ ok n))

  send_all-wire :
      (packets : List Packet) (s : NetPacketSink)
      → Accepts s.peer packets
      → (send_all packets s).wire ≡ s.wire ++ map encode_frame packets
  unfolding send_all send_packet frame_sent Accepts
  send_all-wire [] s a = sym (append-nil s.wire)
  send_all-wire (p ∷ ps) s ((n, e), a) =
      let next = record s {
        wire = s.wire ++ (encode_frame p ∷ []);
        sent = wrapping_add s.sent 1;
      } in
      ap (λ o. (send_all ps (frame_sent (encode_frame p) o s).0).wire) e
      ∙ send_all-wire ps next a
      ∙ append_assoc s.wire (encode_frame p ∷ []) (map encode_frame ps)

  -- A sink whose socket takes every frame sends packets, each in range and in a frame no longer than the
  -- buffer of the host, over a network that loses and reorders nothing. A host with an empty queue whose
  -- socket has a read timeout, or that asks for no more packets than were sent, then hands out the first
  -- `limit` of them, unchanged and in order, and leaves the frames of the others in its socket and nothing
  -- in the queue.
  pub rx_burst-send_all :
      (limit : ℕ) (packets : List Packet) (sink : NetPacketSink) (host : NetPacketIo)
      → Accepts sink.peer packets
      → All (Fits host.max_datagram_bytes) packets
      → ((ms : ℕ) × (host.read_timeout ≡ some ms)) ⊎ (limit ≤ length packets)
      → sink.wire ≡ []
      → host.sock ≡ map datagram (send_all packets sink).wire
      → host.rx ≡ []
      → (host' : NetPacketIo) × (rx_burst limit host ≡ some (host', take limit packets))
        × (host'.sock ≡ frames (drop limit packets))
        × (host'.rx ≡ [])
  rx_burst-send_all limit packets sink host a f d w e h =
      rx_burst-frames limit packets host f d
        (e
          ∙ ap (map datagram)
              (send_all-wire packets sink a ∙ ap (λ xs. xs ++ map encode_frame packets) w)
          ∙ map-frames packets)
        h
