-- ===== src/Net/Polling.antt =====
-- What a call of `poll_rx` of crates/net-io/src/lib.rs reads from its socket.
use aether_radio_sim.Base.{
  ℕ, suc, ◌+◌, ◌%◌, ◌^◌, ◌≤◌, ◌<◌, ◌≡◌, ◌≢◌, ◌⊎◌, none, inl, inr, refl, sym, ap, ◌∙◌, List, [], ◌∷◌,
  ◌++◌, Result, ok, err, length, take, append_assoc, append-nil, arith,
}
use aether_radio_sim.Types.{Packet}
use aether_radio_sim.Protocol.{ProtocolError, decode_frame}
use aether_radio_sim.Net.{
  Arrival, datagram, failed, IoError, other, NetIoError, io, NetPacketIo, kept, skipped,
}

abbrev pub add_decoded : Result ProtocolError Packet → List Packet → List Packet
add_decoded (ok packet) packets = packet ∷ packets
add_decoded (err _) packets = packets

-- the packets in the datagrams that a buffer of `size` bytes receives
unfoldable pub packets_of : ℕ → List Arrival → List Packet
packets_of size [] = []
packets_of size (failed e ∷ rest) = packets_of size rest
packets_of size (datagram bytes ∷ rest) =
    add_decoded (decode_frame (take size bytes)) (packets_of size rest)

abbrev add_error : Result ProtocolError Packet → ℕ → ℕ
add_error (ok _) n = n
add_error (err _) n = suc n

-- the number of datagrams that hold no packet
unfoldable pub errors_of : ℕ → List Arrival → ℕ
errors_of size [] = 0
errors_of size (failed e ∷ rest) = errors_of size rest
errors_of size (datagram bytes ∷ rest) =
    add_error (decode_frame (take size bytes)) (errors_of size rest)

-- What the loop with `room` for more packets reads: `consumed`, up to a failed call or until there is
-- no room or nothing that has arrived.
pub record Polled (room got : ℕ) (arrivals : List Arrival) (s : NetPacketIo)
    (answer : NetPacketIo × Result NetIoError ℕ) : Type 0 where
  pub consumed : List Arrival
  pub read : arrivals ≡ consumed ++ answer.0.sock
  pub rx : answer.0.rx ≡ s.rx ++ packets_of s.max_datagram_bytes consumed
  pub received :
      answer.0.received ≡ (s.received + length (packets_of s.max_datagram_bytes consumed)) % 2 ^ 64
  pub errors :
      answer.0.decode_errors ≡ (s.decode_errors + errors_of s.max_datagram_bytes consumed) % 2 ^ 64
  pub within : length (packets_of s.max_datagram_bytes consumed) ≤ room
  pub ended :
      (length (packets_of s.max_datagram_bytes consumed) ≡ room)
      ⊎ (((answer.0.sock ≡ []) × (s.read_timeout ≢ none))
          ⊎ ((before : List Arrival) × (e : IoError) × (consumed ≡ before ++ (failed e ∷ []))))
  pub verdict :
      (answer.1 ≡ ok (got + length (packets_of s.max_datagram_bytes consumed)))
      ⊎ ((before : List Arrival) × (e : ℕ) × (consumed ≡ before ++ (failed (other e) ∷ []))
          × (answer.1 ≡ err (io (other e))))

pub record Counts (s : NetPacketIo) : Type 0 where
  pub received : s.received < 2 ^ 64
  pub decode_errors : s.decode_errors < 2 ^ 64

pub stops :
    (room got : ℕ) (e : IoError) (rest : List Arrival) (s : NetPacketIo) (r : Result NetIoError ℕ)
    → Counts s
    → (r ≡ ok got) ⊎ ((x : ℕ) × (e ≡ other x) × (r ≡ err (io (other x))))
    → Polled room got (failed e ∷ rest) s (record s { sock = rest }, r)
unfolding packets_of errors_of
stops room got e rest s r c v = record {
  consumed = failed e ∷ [];
  read = refl;
  rx = sym (append-nil s.rx);
  received = let h = c.received in omega arith;
  errors = let h = c.decode_errors in omega arith;
  within = omega arith;
  ended = inr (inr ([], e, refl));
  verdict = elim v [
    | inl h ↦ inl (h ∙ ap ok (omega arith))
    | inr (x, h, g) ↦ inr ([], x, ap (λ y. failed y ∷ []) h, g)
  ];
}

pub nothing_read :
    (room got : ℕ) (arrivals : List Arrival) (s : NetPacketIo)
    → Counts s
    → (0 ≡ room) ⊎ ((arrivals ≡ []) × (s.read_timeout ≢ none))
    → Polled room got arrivals s (record s { sock = arrivals }, ok got)
unfolding packets_of errors_of
nothing_read room got arrivals s c d = record {
  consumed = [];
  read = refl;
  rx = sym (append-nil s.rx);
  received = let h = c.received in omega arith;
  errors = let h = c.decode_errors in omega arith;
  within = omega arith;
  ended = elim d [ inl e ↦ inl e | inr e ↦ inr (inl e) ];
  verdict = inl (ap ok (omega arith));
}

pub kept-Polled :
    (room got : ℕ) (bytes : List ℕ) (rest : List Arrival) (s : NetPacketIo) (packet : Packet)
    (answer : NetPacketIo × Result NetIoError ℕ)
    → decode_frame (take s.max_datagram_bytes bytes) ≡ ok packet
    → Polled room (got + 1) rest (kept packet s) answer
    → Polled (suc room) got (datagram bytes ∷ rest) s answer
unfolding packets_of errors_of
kept-Polled room got bytes rest s packet answer e p =
    let size = s.max_datagram_bytes in
    let all = datagram bytes ∷ p.consumed in
    let packets : packets_of size all ≡ packet ∷ packets_of size p.consumed =
      ap (λ o. add_decoded o (packets_of size p.consumed)) e in
    let count : length (packets_of size all) ≡ suc (length (packets_of size p.consumed)) =
      ap length packets in
    let wrong : errors_of size all ≡ errors_of size p.consumed =
      ap (λ o. add_error o (errors_of size p.consumed)) e in
    record {
      consumed = all;
      read = ap (λ xs. datagram bytes ∷ xs) p.read;
      rx =
          p.rx
          ∙ append_assoc s.rx (packet ∷ []) (packets_of size p.consumed)
          ∙ ap (λ xs. s.rx ++ xs) (sym packets);
      received = let h = p.received in omega arith;
      errors = let h = p.errors in omega arith;
      within = let h = p.within in omega arith;
      ended = elim p.ended [
        | inl h ↦ inl (omega arith)
        | inr (inl h) ↦ inr (inl h)
        | inr (inr (before, x, h)) ↦
            inr (inr (datagram bytes ∷ before, x, ap (λ xs. datagram bytes ∷ xs) h))
      ];
      verdict = elim p.verdict [
        | inl h ↦ inl (h ∙ ap ok (omega arith))
        | inr (before, y, h, g) ↦
            inr (datagram bytes ∷ before, y, ap (λ xs. datagram bytes ∷ xs) h, g)
      ];
    }

pub skipped-Polled :
    (room got : ℕ) (bytes : List ℕ) (rest : List Arrival) (s : NetPacketIo) (x : ProtocolError)
    (answer : NetPacketIo × Result NetIoError ℕ)
    → decode_frame (take s.max_datagram_bytes bytes) ≡ err x
    → Polled room got rest (skipped s) answer
    → Polled room got (datagram bytes ∷ rest) s answer
unfolding packets_of errors_of
skipped-Polled room got bytes rest s x answer e p =
    let size = s.max_datagram_bytes in
    let all = datagram bytes ∷ p.consumed in
    let packets : packets_of size all ≡ packets_of size p.consumed =
      ap (λ o. add_decoded o (packets_of size p.consumed)) e in
    let count : length (packets_of size all) ≡ length (packets_of size p.consumed) =
      ap length packets in
    let wrong : errors_of size all ≡ suc (errors_of size p.consumed) =
      ap (λ o. add_error o (errors_of size p.consumed)) e in
    record {
      consumed = all;
      read = ap (λ xs. datagram bytes ∷ xs) p.read;
      rx = p.rx ∙ ap (λ xs. s.rx ++ xs) (sym packets);
      received = let h = p.received in omega arith;
      errors = let h = p.errors in omega arith;
      within = let h = p.within in omega arith;
      ended = elim p.ended [
        | inl h ↦ inl (omega arith)
        | inr (inl h) ↦ inr (inl h)
        | inr (inr (before, y, h)) ↦
            inr (inr (datagram bytes ∷ before, y, ap (λ xs. datagram bytes ∷ xs) h))
      ];
      verdict = elim p.verdict [
        | inl h ↦ inl (h ∙ ap ok (omega arith))
        | inr (before, y, h, g) ↦
            inr (datagram bytes ∷ before, y, ap (λ xs. datagram bytes ∷ xs) h, g)
      ];
    }
