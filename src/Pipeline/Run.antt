-- ===== src/Pipeline/Run.antt =====
-- The rest of `PipelineBench::run` of crates/benchmark/src/pipeline.rs: the streams it opens, the loops
-- over symbols, emulators and what the injector lets out, and the report. The files that it loads are
-- the record `Loaded`.
use aether_radio_sim.Base.{
  ℕ, zero, suc, ◌+◌, ◌-◌, ◌*◌, ◌/◌, ◌%◌, List, [], ◌∷◌, Option, none, some, true, Result, ok, err,
  length, if◌then◌else◌, max, u64_mod, u16_max,
}
use aether_radio_sim.Base.Floats.{Float64, Float32}
use aether_radio_sim.Base.Machine.{Method, ◌>>=◌, ◌>>◌, pure}
use aether_radio_sim.Base.Text.{bytes_of, to_ascii_lowercase, text_eq}
use aether_radio_sim.Types.{Packet}
use aether_radio_sim.Transport.{TransportError}
use aether_radio_sim.Transport.Check.{TransportDeadlineConfig}
use aether_radio_sim.Transport.Sim.{SimTransportEngine, link_up, create_stream, start_stream}
use aether_radio_sim.Transport.Sim
use aether_radio_sim.Nic.{NicDmaConfig, nic_new}
use aether_radio_sim.GpuRing.{GpuRingConfig, slot_count}
use aether_radio_sim.GpuRing
use aether_radio_sim.Fault.{FaultInjectionConfig, FaultInjector, injector_new, push, flush}
use aether_radio_sim.Fpga.{RadioTimingConfig, FpgaEmulator, emulator_new, emit_symbol}
use aether_radio_sim.Ethernet.{EthernetModelConfig}
use aether_radio_sim.Recovery.{RecoveryPolicy, RecoveryExecutor, executor_new}
use aether_radio_sim.Trace.{TraceEngine}
use aether_radio_sim.Metrics.{MetricsEngine, set_link_up, set_memory_buffers, record_drop}
use aether_radio_sim.Metrics
use aether_radio_sim.Bench.{BenchReport, from_sorted_ns, from_bytes_and_duration}
use aether_radio_sim.Bench.Percentiles.{sort}
use aether_radio_sim.Pipeline.{
  BenchProfile, PipelineBenchError, config, runtime, in_transport, PipelineState, process_one,
}

-- the error of a build without the feature `cuda`
abbrev pub without_cuda : PipelineBenchError
without_cuda = config (bytes_of "gpu_backend=cuda requires benchmark/cli `--features cuda`")

module _ (F : Float64) where
  -- What `run` reads from files; the trace engine is made of the observability file.
  pub record Loaded : Type 0 where
    pub timing : RadioTimingConfig
    pub eth : EthernetModelConfig F
    pub deadline : TransportDeadlineConfig
    pub nic : NicDmaConfig F
    pub ring : GpuRingConfig F
    pub fault : FaultInjectionConfig F
    pub tracer : TraceEngine
    pub recovery_policy : Option RecoveryPolicy

  -- `recovery_policy.map(RecoveryExecutor::new)`
  abbrev pub executor_of : Option RecoveryPolicy → Option RecoveryExecutor
  executor_of none = none
  executor_of (some policy) = some (executor_new policy)

  -- the state when the loops begin, with the transport whose streams are open
  unfoldable pub started : Loaded → SimTransportEngine → PipelineState F
  started l transport =
      let ring = GpuRing.new F l.ring in
      record {
        now_ns = 0;
        metrics =
            set_memory_buffers F 0 ((slot_count ring * ring.slot_bytes) % u64_mod)
              (set_link_up F true l.eth.bandwidth_gbps (Metrics.new F));
        transport = transport;
        nic = nic_new F l.nic;
        ring = ring;
        tracer = l.tracer;
        recovery = executor_of l.recovery_policy;
        latencies = [];
        bytes = 0;
        packets = 0;
        symbol_miss = 0;
        ring_peak = 0;
      }

  -- one stream of the loop that opens them, `s` from 1 on
  unfoldable pub open_stream : ℕ → ℕ → Method SimTransportEngine TransportError (Unit {0})
  open_stream deadline_ns s =
      create_stream (record {
        stream_id = s;
        carrier = (s - 1) % 4;
        antenna = ((s - 1) / 4) % (u16_max + 1);
        qos = 0;
        deadline_ns = deadline_ns;
      })
      >>= λ _. start_stream s

  -- the loop from the stream `s` on, `n` streams
  unfoldable pub open_streams :
      (G : Float32)
      → ℕ
      → RadioTimingConfig
      → ℕ
      → ℕ
      → Method SimTransportEngine TransportError (List (FpgaEmulator G))
  open_streams G deadline_ns timing s zero = pure []
  open_streams G deadline_ns timing s (suc n) = do
    open_stream deadline_ns s
    rest ← open_streams G deadline_ns timing (s + 1) n
    pure (emulator_new G timing s ∷ rest)

  module _ (G : Float32) (p : BenchProfile) (eth : EthernetModelConfig F)
      (fault : FaultInjectionConfig F) where
    abbrev pub Step : Type 0 → Type 0
    Step A = Method (PipelineState F) PipelineBenchError A

    unfoldable pub process_all : List Packet → Step (Unit {0})
    process_all [] = pure tt
    process_all (packet ∷ rest) = process_one F p eth fault packet >>= λ _. process_all rest

    -- the inner loop: one symbol of every emulator
    unfoldable pub emit_round :
        List (FpgaEmulator G) → FaultInjector F → Step (List (FpgaEmulator G) × FaultInjector F)
    emit_round [] injector = pure ([], injector)
    emit_round (fpga ∷ fpgas) injector =
        let (fpga', emitted) = emit_symbol G fpga in
        let (injector', out) = push F emitted injector in
        process_all out >>= λ _. emit_round fpgas injector' >>= λ x. pure (fpga' ∷ x.0, x.1)

    unfoldable pub emit_symbols :
        ℕ → List (FpgaEmulator G) → FaultInjector F → Step (FaultInjector F)
    emit_symbols zero fpgas injector = pure injector
    emit_symbols (suc n) fpgas injector = emit_round fpgas injector >>= λ x. emit_symbols n x.0 x.1

    -- one turn of a `while let Some(…)`: the end, or the body and the turns after it
    abbrev pub while_some : {A : Type 0} → Option Packet → Step A → (Packet → Step A) → Step A
    while_some none end body = end
    while_some (some packet) end body = body packet

    -- `while let Some(packet) = injector.flush()`, `fuel` turns at most; `none` when they run out
    unfoldable pub flush_loop : ℕ → FaultInjector F → Step (Option (FaultInjector F))
    flush_loop zero injector = pure none
    flush_loop (suc fuel) injector =
        let (injector', held) = flush F injector in
        let again = flush_loop fuel injector' in
        while_some held (pure (some injector'))
          (λ packet. process_one F p eth fault packet >>= λ _. again)

    -- the loops of `run`
    unfoldable pub stream_through : List (FpgaEmulator G) → Step (Option (FaultInjector F))
    stream_through fpgas = emit_symbols p.symbol_count fpgas (injector_new F fault) >>= flush_loop 2

  -- `for _ in 0..injector.dropped { metrics.record_drop() }`
  unfoldable pub record_drops : ℕ → MetricsEngine F → MetricsEngine F
  record_drops zero m = m
  record_drops (suc n) m = record_drops n (record_drop F m)

  abbrev pub actions_of : Option RecoveryExecutor → ℕ
  actions_of none = 0
  actions_of (some ex) = length ex.applied

  -- The report; `1e-12` is 1 / 10^12.
  unfoldable pub report_of : PipelineState F → BenchReport F
  report_of s =
      let duration_s = F.div (F.of_nat s.now_ns) (F.of_nat 1_000_000_000) in
      let least = F.div (F.of_nat 1) (F.of_nat 1_000_000_000_000) in
      record {
        throughput = from_bytes_and_duration F s.bytes (F.fmax duration_s least) s.packets;
        latency = from_sorted_ns F (sort s.latencies);
        radio = record { slot_miss = 0; symbol_miss = s.symbol_miss };
        packets = s.packets;
        bytes = s.bytes;
        sequence_gaps = s.transport.sequence_gaps;
        late_packets = s.transport.late_packets;
        sim_duration_ns = s.now_ns;
        recovery_actions = actions_of s.recovery;
        ring_occupancy_peak = s.ring_peak;
      }

  -- what `run` answers once the loops are done, or have failed
  unfoldable pub closed :
      PipelineState F × Result PipelineBenchError (Option (FaultInjector F))
      → Option (Result PipelineBenchError (BenchReport F × MetricsEngine F))
  closed (s, err e) = some (err e)
  closed (s, ok none) = none
  closed (s, ok (some injector)) = some (ok (report_of s, record_drops injector.dropped s.metrics))

  module _ (G : Float32) (p : BenchProfile) (l : Loaded) where
    -- the part of `run` behind the opening of the streams
    unfoldable pub streamed :
        SimTransportEngine × Result TransportError (List (FpgaEmulator G))
        → Option (Result PipelineBenchError (BenchReport F × MetricsEngine F))
    streamed (m, err e) = some (err (runtime (in_transport e)))
    streamed (m, ok fpgas) = closed (stream_through G p l.eth l.fault fpgas (started l m))

    -- `run` on what it has loaded: the report and the metrics, or the error. `none` would mean that a
    -- loop has run out of fuel.
    unfoldable pub run : Option (Result PipelineBenchError (BenchReport F × MetricsEngine F))
    unfolding text_eq to_ascii_lowercase
    run =
        if text_eq (to_ascii_lowercase p.gpu_backend) (bytes_of "cuda")
        then some (err without_cuda)
        else streamed (
            open_streams G p.latency_budget_ns l.timing 1 (max p.streams 1)
              (link_up (Sim.new l.deadline)))
