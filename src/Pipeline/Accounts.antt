-- ===== src/Pipeline/Accounts.antt =====
-- The books of `PipelineBench::run` of crates/benchmark/src/pipeline.rs: the counters that the pipeline,
-- its transport and its metrics keep of the same events, and how a packet changes them.
use aether_radio_sim.Base.{
  ℕ, max, Option, ◌∙◌, ap, ap₂, sym, subst, List, [], ◌∷◌, ◌++◌, none, some, Bool, true, false,
  Result, ok, err, ◌≡◌, refl, length, ltb, if◌then◌else◌, wrapping_add, saturating_add,
  saturating_sub, arith, Bool-cases, inl, inr,
}
use aether_radio_sim.Base.Floats.{Float64}
use aether_radio_sim.Base.Machine.{pure, Post, >>=_Post}
use aether_radio_sim.Types.{Packet}
use aether_radio_sim.Transport.{TransportError, sequence_gap, late_packet}
use aether_radio_sim.Transport.Check.{check_sequence, check_timestamp}
use aether_radio_sim.Transport.Sim.{
  SimTransportEngine, ingest, receive, recover_sequence, admit, settle,
}
use aether_radio_sim.Layers.{TransportLayerMetrics, RadioLayerMetrics}
use aether_radio_sim.Ethernet.{EthernetModelConfig}
use aether_radio_sim.Fault.{FaultInjectionConfig, kernel_delay_ns}
use aether_radio_sim.Metrics.{
  sampled, record_rx, record_tx, record_sequence_gap, record_late_packet, record_deadline_miss,
  set_ring_occupancy, record_buffer_full, set_memory_buffers, record_rx_bytes,
  record_latency_sample, record_symbol, record_kernel_ns,
}
use aether_radio_sim.Base.Text.{bytes_of}
use aether_radio_sim.Pipeline.{
  recover, BenchProfile, PipelineBenchError, PipelineState, retried, taken, take_in, kernel,
  kernel_done, begun, on_gpu, depart, after_dma, at_once, through_nic, account, gpu_done, deliver,
  deliver_all, received, arrive_host, process_one,
}
use aether_radio_sim.Nic.{Cx5Nic, Cx5Error, advance_time, submit_rx, submit_rx_ready_at}
use aether_radio_sim.Trace.{stamp, host_ready, gpu_enqueue}
use aether_radio_sim.GpuRing.{
  GpuRingBuffer, GpuError, not_found, ring_full, invalid_transition, no_slot, payload_too_large,
  begin_receive, occupied,
}

pub record Ledger : Type 0 where
  pub transport : TransportLayerMetrics
  pub radio : RadioLayerMetrics
  pub sequence_gaps : ℕ
  pub late_packets : ℕ
  pub latencies : List ℕ
  pub packets : ℕ
  pub symbol_miss : ℕ

-- The three events that are booked.
unfoldable pub book_gap : Ledger → Ledger
book_gap l = record l {
  transport = record l.transport { gap_count = wrapping_add l.transport.gap_count 1 };
  sequence_gaps = wrapping_add l.sequence_gaps 1;
}

abbrev pub missed_once : RadioLayerMetrics → RadioLayerMetrics
missed_once r = record r {
  deadline_miss = wrapping_add r.deadline_miss 1;
  slot_deadline_miss = wrapping_add r.slot_deadline_miss 1;
}

unfoldable pub book_late : Ledger → Ledger
book_late l = record l {
  transport = record l.transport { late_packet = wrapping_add l.transport.late_packet 1 };
  radio = missed_once l.radio;
  late_packets = wrapping_add l.late_packets 1;
}

-- A packet of so many bytes comes out of the NIC, and is delivered `e2e` after it was sent.
unfoldable pub book_receipt : ℕ → Ledger → Ledger
book_receipt bytes l = record l {
  transport = record l.transport {
    rx_packets = wrapping_add (wrapping_add l.transport.rx_packets 1) 1;
    rx_bytes = saturating_add l.transport.rx_bytes bytes;
  };
}

abbrev pub one_symbol : RadioLayerMetrics → RadioLayerMetrics
one_symbol r = record r {
  symbol_received = wrapping_add r.symbol_received 1;
  slot_received = wrapping_add r.slot_received 1;
  slot_processed = wrapping_add r.slot_processed 1;
}

unfoldable pub book_delivery : ℕ → Bool → Ledger → Ledger
unfolding sampled
book_delivery e2e missed l =
    let t = sampled e2e l.transport in
    record l {
      transport = record t { tx_packets = wrapping_add t.tx_packets 1 };
      radio = if missed then missed_once (one_symbol l.radio) else one_symbol l.radio;
      latencies = l.latencies ++ (e2e ∷ []);
      packets = wrapping_add l.packets 1;
      symbol_miss = if missed then wrapping_add l.symbol_miss 1 else l.symbol_miss;
    }

-- What `ingest` does to the two counters of the engine.
gaps_after : Result TransportError (Unit {0}) → ℕ → ℕ
gaps_after (err (sequence_gap _ _)) n = wrapping_add n 1
gaps_after _ n = n

lates_after : Result TransportError (Unit {0}) → ℕ → ℕ
lates_after (err (late_packet _ _)) n = wrapping_add n 1
lates_after _ n = n

ingest_counts :
    (p : Packet) (m : SimTransportEngine)
    → let (m', r) = ingest p m in
      (m'.sequence_gaps ≡ gaps_after r m.sequence_gaps)
      × (m'.late_packets ≡ lates_after r m.late_packets)
unfolding ingest settle check_sequence check_timestamp admit gaps_after lates_after
ingest_counts p m = (ground arith, ground arith)

recover_counts :
    (id n : ℕ) (m : SimTransportEngine)
    → let m' = recover_sequence id n m in
      (m'.sequence_gaps ≡ m.sequence_gaps) × (m'.late_packets ≡ m.late_packets)
unfolding recover_sequence
recover_counts id n m = (ground arith, ground arith)

receive_counts :
    (m : SimTransportEngine)
    → let m' = (receive m).0 in
      (m'.sequence_gaps ≡ m.sequence_gaps) × (m'.late_packets ≡ m.late_packets)
unfolding receive
receive_counts m = (ground arith, ground arith)

module _ (F : Float64) where
  unfoldable pub ledger : PipelineState F → Ledger
  ledger s = record {
    transport = s.metrics.layered.transport;
    radio = s.metrics.layered.radio;
    sequence_gaps = s.transport.sequence_gaps;
    late_packets = s.transport.late_packets;
    latencies = s.latencies;
    packets = s.packets;
    symbol_miss = s.symbol_miss;
  }

  -- What the kernel does to the books: nothing.
  kernel_done-ledger :
      (s : PipelineState F) (x : GpuRingBuffer × Result GpuError ℕ)
      → ledger (kernel_done F s x).0 ≡ ledger s
  unfolding ledger kernel_done record_kernel_ns
  kernel_done-ledger s (ring, ok latency) = refl
  kernel_done-ledger s (ring, err e) = refl

  begun-ledger :
      (payload : List ℕ) (arrive : ℕ) (s : PipelineState F) (x : GpuRingBuffer × Result GpuError ℕ)
      → ledger (begun F payload arrive s x).0 ≡ ledger s
  unfolding ledger begun set_ring_occupancy record_buffer_full
  begun-ledger payload arrive s (ring, ok idx) =
      let peak = max s.ring_peak (occupied ring) in
      kernel_done-ledger
        (record s { ring_peak = peak; metrics = set_ring_occupancy F peak s.metrics })
        (kernel F idx payload arrive ring)
  begun-ledger payload arrive s (ring, err ring_full) = refl
  begun-ledger payload arrive s (ring, err (not_found n)) = refl
  begun-ledger payload arrive s (ring, err (invalid_transition a b)) = refl
  begun-ledger payload arrive s (ring, err (no_slot a)) = refl
  begun-ledger payload arrive s (ring, err (GpuError.config c)) = refl
  begun-ledger payload arrive s (ring, err payload_too_large) = refl

  pub on_gpu-ledger :
      (payload : List ℕ) (arrive : ℕ) (s : PipelineState F)
      → ledger (on_gpu F payload arrive s).0 ≡ ledger s
  unfolding on_gpu
  on_gpu-ledger payload arrive s = begun-ledger payload arrive s (begin_receive arrive s.ring)

module _ (F : Float64) where
  either_ledger :
      (b : Bool) (x y : PipelineState F × Result PipelineBenchError ℕ) (l : Ledger)
      → ledger F x.0 ≡ l
      → ledger F y.0 ≡ l
      → ledger F (if b then x else y).0 ≡ l
  either_ledger true x y l h k = h
  either_ledger false x y l h k = k

-- What every booked event keeps, a packet keeps where it is processed without an error.
module _ (F : Float64) (P : Ledger → Type 0) (gap : (l : Ledger) → P l → P (book_gap l))
    (late : (l : Ledger) → P l → P (book_late l))
    (delivery : (bytes e2e : ℕ) (missed : Bool) (l : Ledger)
      → P l
      → P (book_delivery e2e missed (book_receipt bytes l))) where
  -- the books of a state
  abbrev Booked : PipelineState F → Type 0
  Booked s = P (ledger F s)

  abbrev Books : {A : Type 0} → PipelineState F × Result PipelineBenchError A → Type 0
  Books {A} = Post {A = A} (λ _ s. Booked s)

  -- Both branches keep the books.
  Books-if :
      {A : Type 0} (b : Bool) (x y : PipelineState F × Result PipelineBenchError A)
      → Books x
      → Books y
      → Books (if b then x else y)
  Books-if true x y h k = h
  Books-if false x y h k = k

  -- The same books, with the engine's counters read from another one.
  moved :
      (l : Ledger) (g n : ℕ)
      → g ≡ l.sequence_gaps
      → n ≡ l.late_packets
      → P l
      → P (record l { sequence_gaps = g; late_packets = n })
  moved l g n eg en h =
      subst P (sym (ap₂ (λ x y. record l { sequence_gaps = x; late_packets = y }) eg en)) h

  retried-Books :
      (s : PipelineState F) (m0 : SimTransportEngine)
      (x : SimTransportEngine × Result TransportError (Unit {0}))
      → x.0.sequence_gaps ≡ gaps_after x.1 m0.sequence_gaps
      → x.0.late_packets ≡ lates_after x.1 m0.late_packets
      → Booked (record s { transport = m0 })
      → Books (retried F s x)
  unfolding retried gaps_after lates_after ledger
  retried-Books s m0 (m, ok _) g l h =
      moved (ledger F (record s { transport = m0 })) m.sequence_gaps m.late_packets g l h
  retried-Books s m0 (m, err e) g l h = tt

  taken-Books :
      (packet : Packet) (s : PipelineState F)
      (x : SimTransportEngine × Result TransportError (Unit {0}))
      → x.0.sequence_gaps ≡ gaps_after x.1 s.transport.sequence_gaps
      → x.0.late_packets ≡ lates_after x.1 s.transport.late_packets
      → Booked s
      → Books (taken F packet s x)
  unfolding taken gaps_after lates_after ledger book_gap book_late record_sequence_gap
      record_late_packet record_deadline_miss
  taken-Books packet s (m, ok _) g l h = moved (ledger F s) m.sequence_gaps m.late_packets g l h
  taken-Books packet s (m, err (sequence_gap want got)) g l h =
      let m' = recover_sequence packet.stream_id got m in
      let (same_gaps, same_lates) = recover_counts packet.stream_id got m in
      let (gaps, lates) = ingest_counts packet m' in
      retried-Books
        (record s {
          recovery = recover F (bytes_of "sequence_gap") s.recovery;
          metrics = record_sequence_gap F s.metrics;
        })
        m' (ingest packet m') gaps lates
        (moved (book_gap (ledger F s)) m'.sequence_gaps m'.late_packets (same_gaps ∙ g)
          (same_lates ∙ l) (gap (ledger F s) h))
  taken-Books packet s (m, err (late_packet a b)) g l h =
      moved (book_late (ledger F s)) m.sequence_gaps m.late_packets g l (late (ledger F s) h)
  taken-Books packet s (m, err _) g l h = tt

  take_in-Books : (packet : Packet) (s : PipelineState F) → Booked s → Books (take_in F packet s)
  unfolding take_in
  take_in-Books packet s h =
      let (gaps, lates) = ingest_counts packet s.transport in
      taken-Books packet s (ingest packet s.transport) gaps lates h

  module _ (p : BenchProfile) (eth : EthernetModelConfig F) (fault : FaultInjectionConfig F) where
    account-ledger :
        (tid : ℕ) (d : Packet) (latency : ℕ) (s : PipelineState F)
        → (e2e : ℕ) × (missed : Bool) × (ledger F (account F p eth fault tid d latency s)
            ≡ book_delivery e2e missed (ledger F s))
    unfolding ledger account book_delivery record_tx record_deadline_miss set_memory_buffers
        record_symbol record_latency_sample
    account-ledger tid d latency s =
        let now = saturating_add s.now_ns (saturating_add latency (kernel_delay_ns F fault)) in
        let e2e = saturating_sub now d.timestamp in
        elim (Bool-cases (ltb p.latency_budget_ns e2e)) [
          | inl late ↦ (e2e, true, rw late refl)
          | inr quick ↦ (e2e, false, rw quick refl)
        ]

    gpu_done-Books :
        (tid : ℕ) (d : Packet) (s : PipelineState F)
        (x : PipelineState F × Result PipelineBenchError ℕ)
        → ledger F x.0 ≡ book_receipt (length d.payload) (ledger F s)
        → Booked s
        → Books (gpu_done F p eth fault tid d x)
    unfolding gpu_done
    gpu_done-Books tid d s (s', ok latency) e h =
        let (e2e, missed, after) = account-ledger tid d latency s' in
        subst P (sym (after ∙ ap (book_delivery e2e missed) e))
          (delivery (length d.payload) e2e missed (ledger F s) h)
    gpu_done-Books tid d s (s', err e) e' h = tt

    deliver-Books :
        (tid : ℕ) (d : Packet) (s : PipelineState F)
        → Booked s
        → Books (deliver F p eth fault tid d s)
    unfolding deliver ledger book_receipt record_rx_bytes record_rx
    deliver-Books tid d s h =
        let arrive = s.now_ns in
        let s' : PipelineState F = record s {
          metrics = record_rx_bytes F (length d.payload) (record_rx F s.metrics);
          tracer = stamp tid gpu_enqueue arrive (stamp tid host_ready arrive s.tracer);
        } in
        let quick : PipelineState F × Result PipelineBenchError ℕ = (s', ok 0) in
        gpu_done-Books tid d s
          (if p.include_gpu_kernel then on_gpu F d.payload arrive s' else quick)
          (either_ledger F p.include_gpu_kernel (on_gpu F d.payload arrive s') quick
            (book_receipt (length d.payload) (ledger F s)) (on_gpu-ledger F d.payload arrive s')
            refl)
          h

    deliver_all-Books :
        (tid : ℕ) (ds : List Packet) (s : PipelineState F)
        → Booked s
        → Books (deliver_all F p eth fault tid ds s)
    unfolding deliver_all
    deliver_all-Books tid [] s h = h
    deliver_all-Books tid (d ∷ ds) s h =
        >>=_Post (λ _. Booked) (λ _. Booked) (deliver F p eth fault tid d)
          (λ _. deliver_all F p eth fault tid ds) s (deliver-Books tid d s h)
          (λ _. deliver_all-Books tid ds)

    after_dma-Books :
        (tid : ℕ) (s : PipelineState F) (x : Cx5Nic F × Result Cx5Error (Unit {0}))
        → Booked s
        → Books (after_dma F p eth fault tid s x)
    unfolding after_dma ledger
    after_dma-Books tid s (nic, ok _) h = h
    after_dma-Books tid s (nic, err e) h = tt

    at_once-Books :
        (tid : ℕ) (s : PipelineState F) (x : Cx5Nic F × Result Cx5Error (Unit {0}))
        → Booked s
        → Books (at_once F p eth fault tid s x)
    unfolding at_once ledger
    at_once-Books tid s (nic, ok _) h = h
    at_once-Books tid s (nic, err e) h = tt

    through_nic-Books :
        (tid : ℕ) (packet : Packet) (s : PipelineState F)
        → Booked s
        → Books (through_nic F p eth fault tid packet s)
    unfolding through_nic
    through_nic-Books tid packet s h =
        let nic = advance_time F s.now_ns s.nic in
        Books-if p.include_nic_dma (after_dma F p eth fault tid s (submit_rx F packet nic))
          (at_once F p eth fault tid s (submit_rx_ready_at F packet s.now_ns nic))
          (after_dma-Books tid s (submit_rx F packet nic) h)
          (at_once-Books tid s (submit_rx_ready_at F packet s.now_ns nic) h)

    received-Books :
        (tid : ℕ) (s : PipelineState F)
        (x : SimTransportEngine × Result TransportError (Option Packet))
        → x.0.sequence_gaps ≡ s.transport.sequence_gaps
        → x.0.late_packets ≡ s.transport.late_packets
        → Booked s
        → Books (received F p eth fault tid s x)
    unfolding received ledger
    received-Books tid s (m, ok none) g l h =
        moved (ledger F s) m.sequence_gaps m.late_packets g l h
    received-Books tid s (m, ok (some packet)) g l h =
        >>=_Post (λ _. Booked) (λ _. Booked) (through_nic F p eth fault tid packet)
          (deliver_all F p eth fault tid) (record s { transport = m })
          (through_nic-Books tid packet (record s { transport = m })
            (moved (ledger F s) m.sequence_gaps m.late_packets g l h))
          (λ ds. deliver_all-Books tid ds)
    received-Books tid s (m, err e) g l h = tt

    -- after a packet's departure the books are as before
    depart-Books :
        (packet : Packet) (s : PipelineState F)
        → Booked s
        → Booked (depart F p eth fault packet s).0
    unfolding depart ledger
    depart-Books packet s h = h

    pub process_one-Books :
        (packet : Packet) (s : PipelineState F)
        → Booked s
        → Books (process_one F p eth fault packet s)
    unfolding process_one arrive_host
    process_one-Books packet s h =
        let (s', tid) = depart F p eth fault packet s in
        >>=_Post (λ _. Booked) (λ _. Booked) (take_in F packet)
          (λ accepted. if accepted then arrive_host F p eth fault tid else pure tt) s'
          (take_in-Books packet s' (depart-Books packet s h))
          (λ accepted t k. elim (Bool-cases accepted) [
            | inl e ↦ rw e (
                let (gaps, lates) = receive_counts t.transport in
                received-Books tid t (receive t.transport) gaps lates k)
            | inr e ↦ rw e k
          ])
