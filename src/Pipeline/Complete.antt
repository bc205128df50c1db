-- ===== src/Pipeline/Complete.antt =====
-- What `PipelineBench::run` of crates/benchmark/src/pipeline.rs guarantees of a configuration that fits:
-- it reports, and every emitted packet is in the report or in the metrics.
use aether_radio_sim.Base.{
  ℕ, zero, suc, ◌+◌, ◌*◌, ◌%◌, ◌^◌, ◌<◌, ◌≤◌, ◌≡◌, refl, ap, ◌∙◌, subst, List, [], ◌∷◌, some, Bool,
  false, ok, err, length, length-replicate, All, replicate, if◌then◌else◌, max, arith, u64_mod,
}
use aether_radio_sim.Base.Floats.{Float64, Float32}
use aether_radio_sim.Base.Machine.{Post}
use aether_radio_sim.Base.Assoc.{lookup}
use aether_radio_sim.Base.Text.{bytes_of, to_ascii_lowercase, text_eq}
use aether_radio_sim.Types.{StreamId}
use aether_radio_sim.Transport.{is_open}
use aether_radio_sim.Transport.Sim.{SimTransportEngine, link_up}
use aether_radio_sim.Transport.Sim
use aether_radio_sim.Nic.{nic_new}
use aether_radio_sim.GpuRing.{free, RingSlot, empty}
use aether_radio_sim.GpuRing
use aether_radio_sim.Fpga.{FpgaEmulator}
use aether_radio_sim.Metrics.{MetricsEngine, sampled, record_drop, set_memory_buffers, set_link_up}
use aether_radio_sim.Metrics
use aether_radio_sim.Bench.{BenchReport}
use aether_radio_sim.Pipeline.{BenchProfile, PipelineState}
use aether_radio_sim.Pipeline.Accounts.{
  Ledger, book_gap, book_late, book_receipt, book_delivery, ledger,
}
use aether_radio_sim.Pipeline.Run.{
  Loaded, started, open_streams, stream_through, record_drops, report_of, closed, streamed,
  without_cuda, run,
}
use aether_radio_sim.Pipeline.Balance.{
  stream_through-Keeps, Balanced, book_gap-Balanced, book_late-Balanced, book_delivery-Balanced,
  started-Balanced, open_streams-Uncounted,
}
use aether_radio_sim.Pipeline.Opening.{Emits, Opens, open_streams-Opens}
use aether_radio_sim.Pipeline.Conservation.{Idle, Handles, Conserves, EmitsFitting, stream_handled}

-- Nothing but the injector's drops is counted as dropped.
abbrev Undropped : Ledger → Type 0
Undropped l = l.transport.drop ≡ 0

book_delivery-Undropped :
    (bytes e2e : ℕ) (missed : Bool) (l : Ledger)
    → Undropped l
    → Undropped (book_delivery e2e missed (book_receipt bytes l))
unfolding book_delivery book_receipt
book_delivery-Undropped bytes e2e missed l v = v

replicate-free : (n : ℕ) → All (λ s. s.state ≡ free) (replicate n empty)
replicate-free zero = tt
replicate-free (suc n) = (refl, replicate-free n)

module _ (F : Float64) where
  record_drops-drop :
      (n : ℕ) (m : MetricsEngine F)
      → m.layered.transport.drop < u64_mod
      → (record_drops F n m).layered.transport.drop ≡ (m.layered.transport.drop + n) % u64_mod
  unfolding record_drops record_drop
  record_drops-drop zero m h = omega (arith, h)
  record_drops-drop (suc n) m h = omega (arith, record_drops-drop n (record_drop F m) (omega arith))

  module _ (G : Float32) (p : BenchProfile) (l : Loaded F)
      (simulated : text_eq (to_ascii_lowercase p.gpu_backend) (bytes_of "cuda") ≡ false)
      (fits : 8 * l.timing.samples_per_symbol ≤ l.ring.slot_bytes)
      (some_slot : 0 < l.ring.slot_count) (some_room : 0 < l.nic.rx_queue_depth) where
    abbrev Mine : StreamId → Type 0
    Mine id = (1 ≤ id) × (id < 1 + max p.streams 1)

    opened : Opens F G l.timing.samples_per_symbol 1 (max p.streams 1) (
        open_streams F G p.latency_budget_ns l.timing 1
          (max p.streams 1)
          (link_up (Sim.new l.deadline)))
    unfolding link_up Sim.new is_open lookup
    opened =
        open_streams-Opens F G p.latency_budget_ns l.timing 1 (max p.streams 1)
          (link_up (Sim.new l.deadline)) (omega arith)
          (record {
            open_link = refl;
            inbox = refl;
            lates = refl;
            runs = λ id low high. absurd (omega (arith, low, high));
            unknown = λ id above. refl;
          })

    engine : SimTransportEngine
    engine =
        (open_streams F G p.latency_budget_ns l.timing 1 (max p.streams 1)
          (link_up (Sim.new l.deadline))).0

    begin-Idle : Idle F p l.eth l.fault Mine l.ring.slot_bytes (started F l engine)
    unfolding engine started nic_new GpuRing.new
    begin-Idle = record {
      inbox = opened.opened.inbox;
      serving = record {
        open_link = opened.opened.open_link;
        runs = λ id mine. opened.opened.runs id mine.0 mine.1;
      };
      nic = record { none_pending = refl; none_ready = refl; some_room = some_room };
      ring = record {
        free_slots = replicate-free l.ring.slot_count;
        some_slot = omega (arith, some_slot, length-replicate l.ring.slot_count empty);
      };
      slot_bytes = refl;
    }

    emitting :
        (fpgas : List (FpgaEmulator G))
        → All (Emits F G (1 + max p.streams 1) l.timing.samples_per_symbol) fpgas
        → All (EmitsFitting F p l.eth l.fault Mine l.ring.slot_bytes G) fpgas
    emitting [] v = tt
    emitting (e ∷ es) v =
        (record { mine = (v.0.low, v.0.high); fits = omega (arith, fits, v.0.iq) }, emitting es v.1)

    uncounted : (engine.sequence_gaps ≡ 0) × (engine.late_packets ≡ 0)
    unfolding engine Sim.new link_up
    uncounted =
        open_streams-Uncounted F G p.latency_budget_ns l.timing 1 (max p.streams 1)
          (link_up (Sim.new l.deadline)) (refl, refl)

    -- Without CUDA a run is what its loops make of the opened streams.
    run_opened :
        run F G p l
        ≡ closed F (stream_through F G p l.eth l.fault opened.fpgas (started F l engine))
    unfolding run streamed engine
    run_opened =
        let x =
          open_streams F G p.latency_budget_ns l.timing 1 (max p.streams 1)
            (link_up (Sim.new l.deadline)) in
        ap (λ b. if b then some (err without_cuda) else streamed F G p l x) simulated
        ∙ ap (λ r. streamed F G p l (x.0, r)) opened.answer

    -- the state behind the loops
    ended : PipelineState F
    ended = (stream_through F G p l.eth l.fault opened.fpgas (started F l engine)).0

    handled :
        Handles F p l.eth l.fault Mine l.ring.slot_bytes
          (Conserves F p l.eth l.fault Mine l.ring.slot_bytes G
            (p.symbol_count * length opened.fpgas))
          (started F l engine)
          (stream_through F G p l.eth l.fault opened.fpgas (started F l engine))
    handled =
        stream_handled F p l.eth l.fault Mine l.ring.slot_bytes G opened.fpgas (started F l engine)
          (emitting opened.fpgas opened.emit) begin-Idle

    loops_end :
        stream_through F G p l.eth l.fault opened.fpgas (started F l engine)
        ≡ (ended, ok (some handled.result.last))
    unfolding ended
    loops_end = λ i. (ended, (handled.answer ∙ ap ok handled.result.ended) i)

    balanced : Balanced (ledger F ended)
    balanced = subst (Post (λ _ t. Balanced (ledger F t))) loops_end (
        stream_through-Keeps F Balanced book_gap-Balanced book_late-Balanced book_delivery-Balanced
          G p l.eth l.fault opened.fpgas (started F l engine)
          (started-Balanced F l engine uncounted))

    undropped : Undropped (ledger F ended)
    unfolding book_gap book_late ledger started Metrics.new set_link_up set_memory_buffers
    undropped = subst (Post (λ _ t. Undropped (ledger F t))) loops_end (
        stream_through-Keeps F Undropped (λ _ v. v) (λ _ v. v) book_delivery-Undropped G p l.eth
          l.fault opened.fpgas (started F l engine) refl)

    -- A run on a simulated GPU whose slots hold a symbol's samples and whose ring and NIC queue have a
    -- place ends with a report, never an error; each symbol that a stream emits is in the report as
    -- delivered or late, or in the metrics as dropped, counted as a `u64` counts.
    pub run_complete :
        (report : BenchReport F) × (metrics : MetricsEngine F) × (run F G p l
          ≡ some (ok (report, metrics)))
        × ((report.packets + report.late_packets + metrics.layered.transport.drop) % 2 ^ 64
            ≡ (p.symbol_count * max p.streams 1) % 2 ^ 64)
    unfolding closed report_of ledger ended started
    run_complete =
        let last = handled.result.last in
        (
          report_of F ended,
          record_drops F last.dropped ended.metrics,
          run_opened ∙ ap (closed F) loops_end,
          omega (
            arith,
            handled.counted,
            handled.result.balance,
            balanced.counted,
            uncounted.1,
            undropped,
            record_drops-drop last.dropped ended.metrics (omega (arith, undropped)),
            ap {B = ℕ} (λ n. p.symbol_count * n) opened.many,
          ),
        )
