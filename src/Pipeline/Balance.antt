-- ===== src/Pipeline/Balance.antt =====
-- The books of a whole run of crates/benchmark/src/pipeline.rs, and its end.
use aether_radio_sim.Base.{
  ℕ, zero, suc, ◌+◌, ◌%◌, ◌<◌, List, [], ◌∷◌, Option, none, some, Bool, true, false, Result, ok,
  err, ◌≡◌, refl, subst, length, length-append, if◌then◌else◌, max, arith, u64_mod,
}
use aether_radio_sim.Base.Floats.{Float64, Float32}
use aether_radio_sim.Base.Machine.{Method, ◌>>=◌, pure, Post, >>=_Post, >>=_keeps}
use aether_radio_sim.Base.Text.{bytes_of, to_ascii_lowercase, text_eq}
use aether_radio_sim.Types.{Packet}
use aether_radio_sim.Transport.{TransportError}
use aether_radio_sim.Transport.Sim.{
  SimTransportEngine, create_stream, start_stream, link_up, change_state,
}
use aether_radio_sim.Transport.Sim
use aether_radio_sim.Ethernet.{EthernetModelConfig}
use aether_radio_sim.Fault.{FaultInjectionConfig, FaultInjector, injector_new, push, flush}
use aether_radio_sim.Fpga.{RadioTimingConfig, FpgaEmulator, emulator_new, emit_symbol}
use aether_radio_sim.Metrics.{MetricsEngine, sampled, record_drop, set_memory_buffers, set_link_up}
use aether_radio_sim.Metrics
use aether_radio_sim.Bench.{BenchReport}
use aether_radio_sim.Pipeline.{BenchProfile, PipelineBenchError, PipelineState, process_one}
use aether_radio_sim.Pipeline.Accounts.{
  Ledger, book_gap, book_late, book_receipt, book_delivery, ledger, process_one-Books,
}
use aether_radio_sim.Pipeline.Run.{
  Loaded, started, open_stream, open_streams, process_all, emit_round, emit_symbols, flush_loop,
  while_some, stream_through, record_drops, report_of, closed, streamed, run,
}

-- What every booked event keeps, the loops keep.
module _ (F : Float64) (P : Ledger → Type 0) (gap : (l : Ledger) → P l → P (book_gap l))
    (late : (l : Ledger) → P l → P (book_late l))
    (delivery : (bytes e2e : ℕ) (missed : Bool) (l : Ledger)
      → P l
      → P (book_delivery e2e missed (book_receipt bytes l)))
    (G : Float32) (p : BenchProfile) (eth : EthernetModelConfig F)
    (fault : FaultInjectionConfig F) where
  abbrev Booked : PipelineState F → Type 0
  Booked s = P (ledger F s)

  abbrev Keeps : {A : Type 0} → Method (PipelineState F) PipelineBenchError A → Type 0
  Keeps {A} m = (s : PipelineState F) → Booked s → Post {A = A} (λ _ t. Booked t) (m s)

  Keeps->>= :
      {A B : Type 0} (m : Method (PipelineState F) PipelineBenchError A)
      (f : A → Method (PipelineState F) PipelineBenchError B)
      → Keeps m
      → ((a : A) → Keeps (f a))
      → Keeps (m >>= f)
  Keeps->>= m f h k s v = >>=_Post (λ _. Booked) (λ _. Booked) m f s (h s v) (λ a. k a)

  process_one-Keeps : (packet : Packet) → Keeps (process_one F p eth fault packet)
  process_one-Keeps packet = process_one-Books F P gap late delivery p eth fault packet

  process_all-Keeps : (packets : List Packet) → Keeps (process_all F G p eth fault packets)
  unfolding process_all
  process_all-Keeps [] s v = v
  process_all-Keeps (packet ∷ rest) s v =
      Keeps->>= (process_one F p eth fault packet) (λ _. process_all F G p eth fault rest)
        (process_one-Keeps packet) (λ _. process_all-Keeps rest) s v

  emit_round-Keeps :
      (fpgas : List (FpgaEmulator G)) (injector : FaultInjector F)
      → Keeps (emit_round F G p eth fault fpgas injector)
  unfolding emit_round
  emit_round-Keeps [] injector s v = v
  emit_round-Keeps (fpga ∷ fpgas) injector s v =
      let (fpga', emitted) = emit_symbol G fpga in
      let (injector', out) = push F emitted injector in
      Keeps->>= (process_all F G p eth fault out)
        (λ _. emit_round F G p eth fault fpgas injector' >>= λ x. pure (fpga' ∷ x.0, x.1))
        (process_all-Keeps out)
        (λ _.
          Keeps->>= (emit_round F G p eth fault fpgas injector') (λ x. pure (fpga' ∷ x.0, x.1))
            (emit_round-Keeps fpgas injector') (λ _ _ v. v))
        s v

  emit_symbols-Keeps :
      (n : ℕ) (fpgas : List (FpgaEmulator G)) (injector : FaultInjector F)
      → Keeps (emit_symbols F G p eth fault n fpgas injector)
  unfolding emit_symbols
  emit_symbols-Keeps zero fpgas injector s v = v
  emit_symbols-Keeps (suc n) fpgas injector s v =
      Keeps->>= (emit_round F G p eth fault fpgas injector)
        (λ x. emit_symbols F G p eth fault n x.0 x.1) (emit_round-Keeps fpgas injector)
        (λ x. emit_symbols-Keeps n x.0 x.1) s v

  while_some-Keeps :
      {A : Type 0} (held : Option Packet) (end : Method (PipelineState F) PipelineBenchError A)
      (body : Packet → Method (PipelineState F) PipelineBenchError A)
      → Keeps end
      → ((packet : Packet) → Keeps (body packet))
      → Keeps (while_some F G p eth fault held end body)
  while_some-Keeps none end body h k = h
  while_some-Keeps (some packet) end body h k = k packet

  flush_loop-Keeps :
      (fuel : ℕ) (injector : FaultInjector F) → Keeps (flush_loop F G p eth fault fuel injector)
  unfolding flush_loop
  flush_loop-Keeps zero injector s v = v
  flush_loop-Keeps (suc fuel) injector s v =
      let (injector', held) = flush F injector in
      let again = flush_loop F G p eth fault fuel injector' in
      while_some-Keeps held (pure (some injector'))
        (λ packet. process_one F p eth fault packet >>= λ _. again) (λ _ w. w)
        (λ packet.
          Keeps->>= (process_one F p eth fault packet) (λ _. again) (process_one-Keeps packet)
            (λ _. flush_loop-Keeps fuel injector'))
        s v

  pub stream_through-Keeps :
      (fpgas : List (FpgaEmulator G)) → Keeps (stream_through F G p eth fault fpgas)
  unfolding stream_through
  stream_through-Keeps fpgas =
      Keeps->>= (emit_symbols F G p eth fault p.symbol_count fpgas (injector_new F fault))
        (flush_loop F G p eth fault 2)
        (emit_symbols-Keeps p.symbol_count fpgas (injector_new F fault)) (flush_loop-Keeps 2)

-- The counters that are kept of the same events agree.
pub record Balanced (l : Ledger) : Type 0 where
  pub counted : l.packets ≡ length l.latencies % u64_mod
  pub samples : l.transport.latency_samples ≡ l.packets
  pub symbols : l.radio.symbol_received ≡ l.packets
  pub sent : l.transport.tx_packets ≡ l.packets
  pub received : l.transport.rx_packets ≡ (l.packets + l.packets) % u64_mod
  pub gaps : l.transport.gap_count ≡ l.sequence_gaps
  pub lates : l.transport.late_packet ≡ l.late_packets
  pub misses : l.radio.deadline_miss ≡ (l.symbol_miss + l.late_packets) % u64_mod
  pub small : l.late_packets < u64_mod

pub book_gap-Balanced : (l : Ledger) → Balanced l → Balanced (book_gap l)
unfolding book_gap
book_gap-Balanced l v = ground arith

pub book_late-Balanced : (l : Ledger) → Balanced l → Balanced (book_late l)
unfolding book_late
book_late-Balanced l v = ground arith

pub book_delivery-Balanced :
    (bytes e2e : ℕ) (missed : Bool) (l : Ledger)
    → Balanced l
    → Balanced (book_delivery e2e missed (book_receipt bytes l))
unfolding book_delivery book_receipt
book_delivery-Balanced bytes e2e true l v = ground (arith, length-append l.latencies (e2e ∷ []))
book_delivery-Balanced bytes e2e false l v = ground (arith, length-append l.latencies (e2e ∷ []))

-- Opening streams counts nothing.
abbrev Uncounted : SimTransportEngine → Type 0
Uncounted m = (m.sequence_gaps ≡ 0) × (m.late_packets ≡ 0)

module _ (F : Float64) where
  open_stream-Uncounted :
      (deadline_ns s : ℕ) (m : SimTransportEngine)
      → Uncounted m
      → Uncounted (open_stream F deadline_ns s m).0
  unfolding open_stream create_stream start_stream
  open_stream-Uncounted deadline_ns s m v = (ground arith, ground arith)

  pub open_streams-Uncounted :
      (G : Float32) (deadline_ns : ℕ) (timing : RadioTimingConfig) (s n : ℕ)
      (m : SimTransportEngine)
      → Uncounted m
      → Uncounted (open_streams F G deadline_ns timing s n m).0
  unfolding open_streams
  open_streams-Uncounted G deadline_ns timing s zero m v = v
  open_streams-Uncounted G deadline_ns timing s (suc n) m v =
      >>=_keeps Uncounted Uncounted (open_stream F deadline_ns s)
        (λ _. open_streams F G deadline_ns timing (s + 1) n >>= λ rest.
          pure (emulator_new G timing s ∷ rest))
        m (open_stream-Uncounted deadline_ns s m v) (λ _ w. w)
        (λ _ t w.
          >>=_keeps Uncounted Uncounted (open_streams F G deadline_ns timing (s + 1) n)
            (λ rest. pure (emulator_new G timing s ∷ rest)) t
            (open_streams-Uncounted G deadline_ns timing (s + 1) n t w) (λ _ u. u) (λ _ _ u. u))

  pub started-Balanced :
      (l : Loaded F) (m : SimTransportEngine) → Uncounted m → Balanced (ledger F (started F l m))
  unfolding started ledger set_memory_buffers set_link_up Metrics.new
  started-Balanced l m v = ground arith

  -- The report and the metrics agree.
  pub record Agrees (report : BenchReport F) (metrics : MetricsEngine F) : Type 0 where
    pub samples : metrics.layered.transport.latency_samples ≡ report.packets
    pub symbols : metrics.layered.radio.symbol_received ≡ report.packets
    pub sent : metrics.layered.transport.tx_packets ≡ report.packets
    pub received :
        metrics.layered.transport.rx_packets ≡ (report.packets + report.packets) % u64_mod
    pub gaps : metrics.layered.transport.gap_count ≡ report.sequence_gaps
    pub lates : metrics.layered.transport.late_packet ≡ report.late_packets
    pub misses :
        metrics.layered.radio.deadline_miss
        ≡ (report.radio.symbol_miss + report.late_packets) % u64_mod

  record_drops-Agrees :
      (n : ℕ) (report : BenchReport F) (metrics : MetricsEngine F)
      → Agrees report metrics
      → Agrees report (record_drops F n metrics)
  unfolding record_drops record_drop
  record_drops-Agrees zero report metrics v = v
  record_drops-Agrees (suc n) report metrics v =
      record_drops-Agrees n report (record_drop F metrics) (record {
        samples = v.samples;
        symbols = v.symbols;
        sent = v.sent;
        received = v.received;
        gaps = v.gaps;
        lates = v.lates;
        misses = v.misses;
      })

  report_of-Agrees :
      (s : PipelineState F) → Balanced (ledger F s) → Agrees (report_of F s) s.metrics
  unfolding report_of ledger
  report_of-Agrees s v = record {
    samples = v.samples;
    symbols = v.symbols;
    sent = v.sent;
    received = v.received;
    gaps = v.gaps;
    lates = v.lates;
    misses = v.misses;
  }

  -- What a run answers is in agreement, where it is a report.
  abbrev InAgreement : Option (Result PipelineBenchError (BenchReport F × MetricsEngine F)) → Type 0
  InAgreement (some (ok (report, metrics))) = Agrees report metrics
  InAgreement (some (err _)) = Unit
  InAgreement none = Unit

  InAgreement-if :
      (b : Bool) (e : PipelineBenchError)
      (x : Option (Result PipelineBenchError (BenchReport F × MetricsEngine F)))
      → InAgreement x
      → InAgreement (if b then some (err e) else x)
  InAgreement-if true e x v = tt
  InAgreement-if false e x v = v

  closed-InAgreement :
      (x : PipelineState F × Result PipelineBenchError (Option (FaultInjector F)))
      → Post (λ _ s. Balanced (ledger F s)) x
      → InAgreement (closed F x)
  unfolding closed
  closed-InAgreement (s, err e) v = tt
  closed-InAgreement (s, ok none) v = tt
  closed-InAgreement (s, ok (some injector)) v =
      record_drops-Agrees injector.dropped (report_of F s) s.metrics (report_of-Agrees s v)

  module _ (G : Float32) (p : BenchProfile) (l : Loaded F) where
    streamed-InAgreement :
        (x : SimTransportEngine × Result TransportError (List (FpgaEmulator G)))
        → Uncounted x.0
        → InAgreement (streamed F G p l x)
    unfolding streamed
    streamed-InAgreement (m, err e) v = tt
    streamed-InAgreement (m, ok fpgas) v =
        closed-InAgreement (stream_through F G p l.eth l.fault fpgas (started F l m)) (
          stream_through-Keeps F Balanced book_gap-Balanced book_late-Balanced
            book_delivery-Balanced G p l.eth l.fault fpgas (started F l m) (started-Balanced l m v))

    run-InAgreement : InAgreement (run F G p l)
    unfolding run Sim.new link_up
    run-InAgreement =
        let engine = link_up (Sim.new l.deadline) in
        let opened = open_streams F G p.latency_budget_ns l.timing 1 (max p.streams 1) engine in
        InAgreement-if (text_eq (to_ascii_lowercase p.gpu_backend) (bytes_of "cuda")) _
          (streamed F G p l opened)
          (streamed-InAgreement opened (
            open_streams-Uncounted G p.latency_budget_ns l.timing 1 (max p.streams 1) engine
              (refl, refl)))

    -- Where a run ends with a report, the counters in it and in the metrics agree: a sample, a symbol
    -- and a sent packet for each delivered packet, but two received ones; the gaps and late packets of
    -- the transport; and a deadline miss for each symbol missed and each late packet.
    pub run-Agrees :
        (report : BenchReport F) (metrics : MetricsEngine F)
        → run F G p l ≡ some (ok (report, metrics))
        → Agrees report metrics
    run-Agrees report metrics e = subst InAgreement e run-InAgreement
