-- ===== src/Net.antt =====
-- The packets over UDP of crates/net-io/src/lib.rs. The operating system is a parameter: what binding a
-- socket, resolving a name, setting a timeout and sending a datagram answer. A bound socket is what its
-- `recv_from` answers from now on; with nothing left, the read timeout ends the call, and a socket
-- without one blocks for ever, which is no answer at all (`none`).
pub mod Steps
pub mod Link
pub mod Polling
pub mod Returns
mod Tests
use Prim.Native.String.{String}
use aether_radio_sim.Base.{
  ℕ, zero, suc, ◌+◌, List, [], ◌∷◌, ◌++◌, Option, none, some, Bool, Result, ok, err, ltb, ◌==◌,
  if◌then◌else◌, length, take, drop, min, max, wrapping_add,
}
use aether_radio_sim.Base.Text.{bytes_of}
use aether_radio_sim.Types.{Packet}
use aether_radio_sim.Protocol.{ProtocolError, encode_frame, decode_frame}

pub record NetLinkConfig : Type 0 where
  pub version : String
  pub id : String
  pub bind_addr : List ℕ
  pub peer_addr : List ℕ
  pub recv_timeout_ms : ℕ
  pub max_datagram_bytes : ℕ

-- `std::io::Error` by its kind
pub data IoError : Type 0 where
  would_block : IoError
  timed_out : IoError
  other : ℕ → IoError

-- `Config` here comes with an address that has no resolution.
pub data NetIoError : Type 0 where
  config : List ℕ → NetIoError
  io : IoError → NetIoError
  protocol : ProtocolError → NetIoError
  missing_peer : NetIoError

abbrev pub SocketAddr : Type 0
SocketAddr = ℕ

-- an answer of `recv_from`
pub data Arrival : Type 0 where
  datagram : List ℕ → Arrival
  failed : IoError → Arrival

-- `wire` is what the socket has sent, the oldest first.
pub record NetPacketSink : Type 0 where
  pub wire : List (List ℕ)
  pub peer : SocketAddr
  pub sent : ℕ

-- `read_timeout` is that of the socket: without one, `recv_from` blocks.
pub record NetPacketIo : Type 0 where
  pub sock : List Arrival
  pub read_timeout : Option ℕ
  pub wire : List (List ℕ)
  pub peer : Option SocketAddr
  pub max_datagram_bytes : ℕ
  pub rx : List Packet
  pub received : ℕ
  pub decode_errors : ℕ

-- `rx.push` of a decoded packet
abbrev pub kept : Packet → NetPacketIo → NetPacketIo
kept packet s = record s { rx = s.rx ++ (packet ∷ []); received = wrapping_add s.received 1 }

abbrev pub skipped : NetPacketIo → NetPacketIo
skipped s = record s { decode_errors = wrapping_add s.decode_errors 1 }

-- the `match` on a decoded frame
unfoldable pub decoded {ℓ} :
    {A : Type ℓ} → Result ProtocolError Packet → (Packet → A) → (ProtocolError → A) → A
decoded (ok packet) f g = f packet
decoded (err e) f g = g e

-- the answer of `poll_rx`, if it returns
abbrev pub Poll : Type 0
Poll = Option (NetPacketIo × Result NetIoError ℕ)

-- `recv_from` when nothing has arrived
unfoldable pub nothing_arrived : ℕ → Option ℕ → NetPacketIo → Poll
nothing_arrived got none s = none
nothing_arrived got (some ms) s = some (record s { sock = [] }, ok got)

-- The loop of `poll_rx` with `room` for `max - got` more packets. A datagram that is longer than the
-- buffer is cut off.
unfoldable pub recv_loop : ℕ → ℕ → List Arrival → NetPacketIo → Poll
recv_loop zero got arrivals s = some (record s { sock = arrivals }, ok got)
recv_loop (suc room) got [] s = nothing_arrived got s.read_timeout s
recv_loop (suc room) got (failed would_block ∷ rest) s = some (record s { sock = rest }, ok got)
recv_loop (suc room) got (failed timed_out ∷ rest) s = some (record s { sock = rest }, ok got)
recv_loop (suc room) got (failed (other e) ∷ rest) s =
    some (record s { sock = rest }, err (io (other e)))
recv_loop (suc room) got (datagram bytes ∷ rest) s =
    decoded (decode_frame (take s.max_datagram_bytes bytes))
      (λ packet. recv_loop room (got + 1) rest (kept packet s))
      (λ e. recv_loop (suc room) got rest (skipped s))

unfoldable pub poll_rx : ℕ → NetPacketIo → Poll
poll_rx limit s = recv_loop limit 0 s.sock s

-- `rx.drain(0..n)` once `poll_rx` has returned, whatever it answers
unfoldable pub drained : ℕ → Poll → Option (NetPacketIo × List Packet)
drained limit none = none
drained limit (some (polled, _)) =
    let n = min limit (length polled.rx) in
    some (record polled { rx = drop n polled.rx }, take n polled.rx)

unfoldable pub rx_burst : ℕ → NetPacketIo → Option (NetPacketIo × List Packet)
rx_burst limit s = drained limit (poll_rx limit s)

unfoldable pub frame_sent :
    List ℕ → Result IoError ℕ → NetPacketSink → NetPacketSink × Result NetIoError ℕ
frame_sent frame (err e) s = (s, err (io e))
frame_sent frame (ok n) s =
    (record s { wire = s.wire ++ (frame ∷ []); sent = wrapping_add s.sent 1 }, ok n)

unfoldable pub after_send : List ℕ → Result IoError ℕ → NetPacketIo → ℕ → NetPacketIo × ℕ
after_send frame (err e) s sent = (s, sent)
after_send frame (ok n) s sent = (record s { wire = s.wire ++ (frame ∷ []) }, sent + 1)

module _ (send_to : List ℕ → SocketAddr → Result IoError ℕ) where
  unfoldable pub send_packet : Packet → NetPacketSink → NetPacketSink × Result NetIoError ℕ
  send_packet packet s =
      let frame = encode_frame packet in frame_sent frame (send_to frame s.peer) s

  -- the loop of `tx_burst`
  unfoldable pub send_each : SocketAddr → List Packet → NetPacketIo → ℕ → NetPacketIo × ℕ
  send_each peer [] s sent = (s, sent)
  send_each peer (packet ∷ packets) s sent =
      let frame = encode_frame packet in
      let (next, n) = after_send frame (send_to frame peer) s sent in send_each peer packets next n

  unfoldable pub tx_burst : List Packet → NetPacketIo → NetPacketIo × ℕ
  tx_burst packets s = elim s.peer [ none ↦ (s, 0) | some peer ↦ send_each peer packets s 0 ]

unfoldable pub first_of : List ℕ → Result IoError (List SocketAddr) → Result NetIoError SocketAddr
first_of addr (err e) = err (io e)
first_of addr (ok []) = err (config (bytes_of "cannot resolve " ++ addr))
first_of addr (ok (a ∷ rest)) = ok a

unfoldable pub sink_on : Result NetIoError SocketAddr → Result NetIoError NetPacketSink
sink_on (err e) = err e
sink_on (ok peer) = ok (record { wire = []; peer = peer; sent = 0 })

unfoldable pub io_on :
    NetLinkConfig
    → List Arrival
    → Option ℕ
    → Result NetIoError (Option SocketAddr)
    → Result NetIoError NetPacketIo
io_on cfg sock timeout (err e) = err e
io_on cfg sock timeout (ok peer) = ok (record {
  sock = sock;
  read_timeout = timeout;
  wire = [];
  peer = peer;
  max_datagram_bytes = max cfg.max_datagram_bytes 64;
  rx = [];
  received = 0;
  decode_errors = 0;
})

module _ (bind : List ℕ → Result IoError (List Arrival))
    (to_socket_addrs : List ℕ → Result IoError (List SocketAddr))
    (set_read_timeout : ℕ → Result IoError (Unit {0})) where
  unfoldable pub resolve_one : List ℕ → Result NetIoError SocketAddr
  resolve_one addr = first_of addr (to_socket_addrs addr)

  unfoldable pub sink_bound :
      NetLinkConfig → Result IoError (List Arrival) → Result NetIoError NetPacketSink
  sink_bound cfg (err e) = err (io e)
  sink_bound cfg (ok sock) = sink_on (resolve_one cfg.peer_addr)

  -- `NetPacketSink::bind`
  unfoldable pub bind_sink : NetLinkConfig → Result NetIoError NetPacketSink
  bind_sink cfg =
      if length cfg.peer_addr == 0 then err missing_peer else sink_bound cfg (bind cfg.bind_addr)

  unfoldable pub peer_of : NetLinkConfig → Result NetIoError (Option SocketAddr)
  peer_of cfg =
      if length cfg.peer_addr == 0
      then ok none
      else elim (resolve_one cfg.peer_addr) [ err e ↦ err e | ok addr ↦ ok (some addr) ]

  unfoldable pub io_bound :
      NetLinkConfig → Result IoError (List Arrival) → Result NetIoError NetPacketIo
  io_bound cfg (err e) = err (io e)
  io_bound cfg (ok sock) =
      if ltb 0 cfg.recv_timeout_ms
      then elim (set_read_timeout cfg.recv_timeout_ms) [
        | err e ↦ err (io e)
        | ok _ ↦ io_on cfg sock (some cfg.recv_timeout_ms) (peer_of cfg)
      ]
      else io_on cfg sock none (peer_of cfg)

  -- `NetPacketIO::bind`
  unfoldable pub bind_io : NetLinkConfig → Result NetIoError NetPacketIo
  bind_io cfg = io_bound cfg (bind cfg.bind_addr)
