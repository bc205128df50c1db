-- ===== src/Net/Tests.antt =====
-- Concrete sockets of crates/net-io/src/lib.rs.
use aether_radio_sim.Base.{
  ◌<◌, ◌^◌, ℕ, ◌≡◌, refl, List, [], ◌∷◌, map, Result, ok, none, some, inl, ◌↔◌, length, arith,
}
use aether_radio_sim.Types.{Packet}
use aether_radio_sim.Net.{
  datagram, failed, timed_out, IoError, SocketAddr, NetPacketSink, NetPacketIo, poll_rx, rx_burst,
}
use aether_radio_sim.Net.Link.{Fits, Accepts, frames, send_all, rx_burst-send_all}
use aether_radio_sim.Net.Returns.{Waits, Outcome, poll_rx-Outcome}

abbrev numbered : ℕ → Packet
numbered n = record { stream_id = 1; sequence = n; timestamp = 99; payload = 9 ∷ 8 ∷ 7 ∷ [] }

abbrev packets : List Packet
packets = numbered 6 ∷ numbered 7 ∷ numbered 8 ∷ []

numbered-Fits : (n : ℕ) → n < 2 ^ 64 → Fits 64 (numbered n)
numbered-Fits n h = record {
  in_range = record {
    stream_id = omega arith;
    sequence = h;
    timestamp = omega arith;
    payload = omega arith;
  };
  short = omega arith;
}

abbrev send_to : List ℕ → SocketAddr → Result IoError ℕ
send_to frame addr = ok (length frame)

accepted : (ps : List Packet) → Accepts send_to 9000 ps
unfolding Accepts
accepted [] = tt
accepted (p ∷ ps) = ((_, refl), accepted ps)

abbrev sink : NetPacketSink
sink = record { wire = []; peer = 9000; sent = 0 }

abbrev host : NetPacketIo
host = record {
  sock = map datagram (send_all send_to packets sink).wire;
  read_timeout = some 50;
  wire = [];
  peer = none;
  max_datagram_bytes = 64;
  rx = [];
  received = 0;
  decode_errors = 0;
}

rx_burst-send_all_example :
    (host' : NetPacketIo) × (rx_burst 2 host ≡ some (host', numbered 6 ∷ numbered 7 ∷ []))
    × (host'.sock ≡ frames (numbered 8 ∷ []))
    × (host'.rx ≡ [])
rx_burst-send_all_example =
    rx_burst-send_all send_to 2 packets sink host (accepted packets)
      (
        numbered-Fits 6 (omega arith),
        (numbered-Fits 7 (omega arith), (numbered-Fits 8 (omega arith), tt)),
      )
      (inl (50, refl)) refl refl refl

-- a datagram that holds no packet, and then nothing in time
abbrev noisy : NetPacketIo
noisy = record host { sock = datagram (1 ∷ 2 ∷ []) ∷ failed timed_out ∷ [] }

poll_rx-Outcome_example :
    ((poll_rx 4 noisy ≡ none) ↔ Waits 4 noisy.sock noisy)
    × Outcome 4 0 noisy.sock noisy (poll_rx 4 noisy)
poll_rx-Outcome_example = poll_rx-Outcome 4 noisy (omega arith) (omega arith)
