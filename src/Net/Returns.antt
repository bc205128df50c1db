-- ===== src/Net/Returns.antt =====
-- When `poll_rx` of crates/net-io/src/lib.rs returns, and what it has done then.
use aether_radio_sim.Base.{
  ℕ, zero, suc, ◌+◌, ◌^◌, ◌<◌, ◌≡◌, ◌↔◌, Option, none, some, All, inl, inr, refl, sym, ap, ◌∙◌,
  subst, List, [], ◌∷◌, ok, err, length, take, arith,
}
use aether_radio_sim.Types.{Packet}
use aether_radio_sim.Protocol.{ProtocolError, decode_frame}
use aether_radio_sim.Net.Steps.{Result-cases, recv_loop-kept, recv_loop-skipped}
use aether_radio_sim.Net.Polling.{
  packets_of, add_decoded, Polled, Counts, stops, nothing_read, kept-Polled, skipped-Polled,
}
use aether_radio_sim.Net.{
  Arrival, datagram, failed, would_block, timed_out, other, io, NetPacketIo, kept, skipped,
  recv_loop, poll_rx, Poll, nothing_arrived,
}

-- A poll that never returns: the socket blocks, and too few packets arrive.
pub record Waits (room : ℕ) (arrivals : List Arrival) (s : NetPacketIo) : Type 0 where
  pub untimed : s.read_timeout ≡ none
  pub no_failure : All (λ a. (bytes : List ℕ) × (a ≡ datagram bytes)) arrivals
  pub too_few : length (packets_of s.max_datagram_bytes arrivals) < room

abbrev pub Outcome : ℕ → ℕ → List Arrival → NetPacketIo → Poll → Type 0
Outcome room got arrivals s none = Waits room arrivals s
Outcome room got arrivals s (some answer) = Polled room got arrivals s answer

nothing_arrived-Outcome :
    (room got : ℕ) (timeout : Option ℕ) (s : NetPacketIo)
    → Counts s
    → s.read_timeout ≡ timeout
    → Outcome (suc room) got [] s (nothing_arrived got timeout s)
unfolding nothing_arrived packets_of
nothing_arrived-Outcome room got none s c e = record {
  untimed = e;
  no_failure = tt;
  too_few = omega arith;
}
nothing_arrived-Outcome room got (some ms) s c e =
    nothing_read (suc room) got [] s c (inr (refl, λ h. ground arith))

kept-Outcome :
    (room got : ℕ) (bytes : List ℕ) (rest : List Arrival) (s : NetPacketIo) (packet : Packet)
    (o : Poll)
    → decode_frame (take s.max_datagram_bytes bytes) ≡ ok packet
    → Outcome room (got + 1) rest (kept packet s) o
    → Outcome (suc room) got (datagram bytes ∷ rest) s o
unfolding packets_of
kept-Outcome room got bytes rest s packet none e w = record {
  untimed = w.untimed;
  no_failure = ((bytes, refl), w.no_failure);
  too_few =
      let size = s.max_datagram_bytes in
      let n = ap (λ d. length (add_decoded d (packets_of size rest))) e in
      let h = w.too_few in omega arith;
}
kept-Outcome room got bytes rest s packet (some answer) e w =
    kept-Polled room got bytes rest s packet answer e w

skipped-Outcome :
    (room got : ℕ) (bytes : List ℕ) (rest : List Arrival) (s : NetPacketIo) (x : ProtocolError)
    (o : Poll)
    → decode_frame (take s.max_datagram_bytes bytes) ≡ err x
    → Outcome room got rest (skipped s) o
    → Outcome room got (datagram bytes ∷ rest) s o
unfolding packets_of
skipped-Outcome room got bytes rest s x none e w = record {
  untimed = w.untimed;
  no_failure = ((bytes, refl), w.no_failure);
  too_few =
      let size = s.max_datagram_bytes in
      let n = ap (λ d. length (add_decoded d (packets_of size rest))) e in
      let h = w.too_few in omega arith;
}
skipped-Outcome room got bytes rest s x (some answer) e w =
    skipped-Polled room got bytes rest s x answer e w

recv_loop-Outcome :
    (room got : ℕ) (arrivals : List Arrival) (s : NetPacketIo)
    → Counts s
    → Outcome room got arrivals s (recv_loop room got arrivals s)
unfolding recv_loop
recv_loop-Outcome zero got arrivals s c = nothing_read zero got arrivals s c (inl refl)
recv_loop-Outcome (suc room) got [] s c = nothing_arrived-Outcome room got s.read_timeout s c refl
recv_loop-Outcome (suc room) got (failed would_block ∷ rest) s c =
    stops (suc room) got would_block rest s (ok got) c (inl refl)
recv_loop-Outcome (suc room) got (failed timed_out ∷ rest) s c =
    stops (suc room) got timed_out rest s (ok got) c (inl refl)
recv_loop-Outcome (suc room) got (failed (other e) ∷ rest) s c =
    stops (suc room) got (other e) rest s (err (io (other e))) c (inr (e, refl, refl))
recv_loop-Outcome (suc room) got (datagram bytes ∷ rest) s c =
    elim (Result-cases (decode_frame (take s.max_datagram_bytes bytes))) [
      | inl (packet, e) ↦
          let d : Counts (kept packet s) = record {
            received = omega arith;
            decode_errors = c.decode_errors;
          } in
          subst (Outcome (suc room) got (datagram bytes ∷ rest) s)
            (sym (recv_loop-kept room got bytes rest s packet e))
            (kept-Outcome room got bytes rest s packet
              (recv_loop room (got + 1) rest (kept packet s)) e
              (recv_loop-Outcome room (got + 1) rest (kept packet s) d))
      | inr (x, e) ↦
          let d : Counts (skipped s) = record {
            received = c.received;
            decode_errors = omega arith;
          } in
          subst (Outcome (suc room) got (datagram bytes ∷ rest) s)
            (sym (recv_loop-skipped room got bytes rest s x e))
            (skipped-Outcome (suc room) got bytes rest s x
              (recv_loop (suc room) got rest (skipped s)) e
              (recv_loop-Outcome (suc room) got rest (skipped s) d))
    ]

recv_loop-none :
    (room got : ℕ) (arrivals : List Arrival) (s : NetPacketIo)
    → Waits room arrivals s
    → recv_loop room got arrivals s ≡ none
unfolding recv_loop nothing_arrived packets_of
recv_loop-none zero got arrivals s w = absurd (let h = w.too_few in omega arith)
recv_loop-none (suc room) got [] s w = ap (λ t. nothing_arrived got t s) w.untimed
recv_loop-none (suc room) got (failed e ∷ rest) s w =
    absurd (let h = w.no_failure.0.1 in ground arith)
recv_loop-none (suc room) got (datagram bytes ∷ rest) s w =
    let size = s.max_datagram_bytes in
    elim (Result-cases (decode_frame (take size bytes))) [
      | inl (packet, e) ↦
          let n = ap (λ d. length (add_decoded d (packets_of size rest))) e in
          let h = w.too_few in
          recv_loop-kept room got bytes rest s packet e
          ∙ recv_loop-none room (got + 1) rest (kept packet s)
              (record { untimed = w.untimed; no_failure = w.no_failure.1; too_few = omega arith })
      | inr (x, e) ↦
          let n = ap (λ d. length (add_decoded d (packets_of size rest))) e in
          let h = w.too_few in
          recv_loop-skipped room got bytes rest s x e
          ∙ recv_loop-none (suc room) got rest (skipped s)
              (record { untimed = w.untimed; no_failure = w.no_failure.1; too_few = omega arith })
    ]

-- Let the counters be below 2^64. A poll fails to return exactly on a socket without a read timeout where
-- only datagrams arrive, with fewer than `limit` packets. A poll that returns has read a prefix of what arrives, at most `limit`
-- packets of it; it queues exactly the packets of that prefix in order, and counts them and the datagrams
-- that hold none, modulo 2^64. It ends with `limit` packets, with nothing left to read under a timeout,
-- or after a failed call, and answers with the number of packets, or with the error of the call that
-- ended it, which is no timeout.
pub poll_rx-Outcome :
    (limit : ℕ) (s : NetPacketIo)
    → s.received < 2 ^ 64
    → s.decode_errors < 2 ^ 64
    → ((poll_rx limit s ≡ none) ↔ Waits limit s.sock s) × Outcome limit 0 s.sock s (poll_rx limit s)
unfolding poll_rx
poll_rx-Outcome limit s r d =
    let outcome = recv_loop-Outcome limit 0 s.sock s (record { received = r; decode_errors = d }) in
    ((λ e. subst (Outcome limit 0 s.sock s) e outcome, recv_loop-none limit 0 s.sock s), outcome)
