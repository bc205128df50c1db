-- ===== src/Net/Steps.antt =====
-- The turns of the loop of `poll_rx` of crates/net-io/src/lib.rs on a datagram.
use aether_radio_sim.Base.{
  ℕ, suc, ◌+◌, ◌≡◌, ◌⊎◌, inl, inr, refl, ap, List, ◌∷◌, Result, ok, err, take,
}
use aether_radio_sim.Types.{Packet}
use aether_radio_sim.Protocol.{ProtocolError, decode_frame}
use aether_radio_sim.Net.{Arrival, datagram, NetPacketIo, kept, skipped, decoded, recv_loop}

pub Result-cases :
    (o : Result ProtocolError Packet)
    → ((packet : Packet) × (o ≡ ok packet)) ⊎ ((x : ProtocolError) × (o ≡ err x))
Result-cases (ok packet) = inl (packet, refl)
Result-cases (err x) = inr (x, refl)

pub recv_loop-kept :
    (room got : ℕ) (bytes : List ℕ) (rest : List Arrival) (s : NetPacketIo) (packet : Packet)
    → decode_frame (take s.max_datagram_bytes bytes) ≡ ok packet
    → recv_loop (suc room) got (datagram bytes ∷ rest) s
      ≡ recv_loop room (got + 1) rest (kept packet s)
unfolding recv_loop decoded
recv_loop-kept room got bytes rest s packet e =
    ap
      (λ o.
        decoded o (λ packet. recv_loop room (got + 1) rest (kept packet s))
          (λ x. recv_loop (suc room) got rest (skipped s)))
      e

pub recv_loop-skipped :
    (room got : ℕ) (bytes : List ℕ) (rest : List Arrival) (s : NetPacketIo) (x : ProtocolError)
    → decode_frame (take s.max_datagram_bytes bytes) ≡ err x
    → recv_loop (suc room) got (datagram bytes ∷ rest) s ≡ recv_loop (suc room) got rest (skipped s)
unfolding recv_loop decoded
recv_loop-skipped room got bytes rest s x e =
    ap
      (λ o.
        decoded o (λ packet. recv_loop room (got + 1) rest (kept packet s))
          (λ x. recv_loop (suc room) got rest (skipped s)))
      e
