-- ===== src/Pipeline/Tests.antt =====
-- A small run of crates/benchmark/src/pipeline.rs: two streams, three symbols, a burst of losses.
use aether_radio_sim.Base.{
  ◌+◌, ◌*◌, ◌%◌, ◌^◌, ◌≡◌, ◌≢◌, refl, List, [], ◌∷◌, none, some, Option, Result, true, false, ok,
  max, length, All, arith, ap, ◌∙◌,
}
use aether_radio_sim.Base.Integers.{pos}
use aether_radio_sim.Base.Floats.{fractions, byte_samples}
use aether_radio_sim.Base.Text.{bytes_of, text_eq, to_ascii_lowercase}
use aether_radio_sim.Types.{Packet, StreamId}
use aether_radio_sim.Transport.{StreamConfig, running, link_running, is_open}
use aether_radio_sim.Transport.Check.{TransportDeadlineConfig}
use aether_radio_sim.Transport.Sim.{SimTransportEngine}
use aether_radio_sim.Nic.{nic_new, NicDmaConfig}
use aether_radio_sim.GpuRing
use aether_radio_sim.Fault.{FaultInjectionConfig, FaultInjector}
use aether_radio_sim.Fpga.{FpgaEmulator, emulator_new}
use aether_radio_sim.Base.Assoc.{lookup}
use aether_radio_sim.Ethernet.{EthernetModelConfig}
use aether_radio_sim.Trace.{engine_new}
use aether_radio_sim.Bench.{BenchReport}
use aether_radio_sim.Metrics.{MetricsEngine}
use aether_radio_sim.Pipeline.{BenchProfile, PipelineBenchError, PipelineState, process_one}
use aether_radio_sim.Fault
use aether_radio_sim.Fpga
use aether_radio_sim.Transport.Sim
use aether_radio_sim.Transport.Check
use aether_radio_sim.Transport
use aether_radio_sim.Nic
use aether_radio_sim.Ethernet
use aether_radio_sim.Pipeline
use aether_radio_sim.Pipeline.Run
use aether_radio_sim.Base.Assoc
use aether_radio_sim.Base.Search
use aether_radio_sim.Pipeline.Run.{Loaded, started, emit_symbols, stream_through, report_of, run}
use aether_radio_sim.Pipeline.Delivery.{IsIdle, Handled, process_one-Handled}
use aether_radio_sim.Pipeline.Balance.{Agrees, run-Agrees}
use aether_radio_sim.Pipeline.Ends.{run-ne-none}
use aether_radio_sim.Pipeline.Conservation.{Handles, Conserves, EmitsFitting, stream_handled}
use aether_radio_sim.Pipeline.Latencies.{report_of-latencies}
use aether_radio_sim.Bench.Percentiles.{Describes}
use aether_radio_sim.Metrics.Counters.{Summarises}
use aether_radio_sim.Pipeline.Complete.{run_complete}

abbrev profile : BenchProfile
profile = record {
  version = "v1";
  id = "bench";
  symbol_count = 3;
  streams = 2;
  latency_budget_ns = 5_000;
  include_ethernet_delay = true;
  include_nic_dma = true;
  include_gpu_kernel = true;
  gpu_backend = bytes_of "simulation";
  report_path = "report.json";
  events_path = "events.jsonl";
  observability_config = "observability.yaml";
  radio_timing_config = "timing.yaml";
  transport_deadline_config = "deadline.yaml";
  ethernet_config = "ethernet.yaml";
  nic_config = "nic.yaml";
  gpu_ring_config = "ring.yaml";
  fault_config = "fault.yaml";
  gpu_cuda_config = none;
}

-- every second number is lost
abbrev loaded : Loaded fractions
loaded = record {
  timing = record {
    version = "v1";
    id = "nr";
    slots_per_sfn = 20;
    symbols_per_slot = 14;
    symbol_duration_ns = 35_714;
    samples_per_symbol = 2;
    max_antennas = 8;
    max_carriers = 4;
  };
  eth = record {
    version = "v1";
    id = "eth";
    bandwidth_gbps = (100, 1);
    mtu = 9000;
    latency_ns = 1000;
    jitter_ns = 0;
    loss_rate = (0, 1);
  };
  deadline = record {
    version = "v1";
    id = "deadline";
    max_latency_ns = 20_000;
    allow_reorder = false;
    start_sequence = 0;
  };
  nic = record {
    version = "v1";
    id = "nic";
    nic_dma_latency_us = (3, 2);
    rx_queue_depth = 4;
    tx_queue_depth = 4;
    completion_queue_depth = 8;
  };
  ring = record {
    version = "v1";
    id = "ring";
    slot_count = 2;
    slot_bytes = 64;
    kernel_delay_us = (2, 1);
  };
  fault = record {
    version = "v1";
    id = "fault";
    enabled = true;
    loss_rate = (1, 2);
    extra_latency_us = (0, 1);
    burst_length = 0;
    kernel_delay_us = (0, 1);
    burst_start = 0;
    reorder_distance = 0;
    sequence_jump = 0;
    timestamp_skew_ns = pos 0;
  };
  tracer = engine_new 16;
  recovery_policy = none;
}

not_cuda : text_eq (to_ascii_lowercase profile.gpu_backend) (bytes_of "cuda") ≡ false
unfolding text_eq to_ascii_lowercase
not_cuda = refl

run_complete_example :
    (report : BenchReport fractions) × (metrics : MetricsEngine fractions) × (run fractions
        byte_samples profile loaded
      ≡ some (ok (report, metrics)))
    × ((report.packets + report.late_packets + metrics.layered.transport.drop) % 2 ^ 64
        ≡ (3 * max 2 1) % 2 ^ 64)
run_complete_example =
    run_complete fractions byte_samples profile loaded not_cuda (omega arith) (omega arith)
      (omega arith)

-- the report and the metrics of this run
abbrev answer :
    (report : BenchReport fractions) × (metrics : MetricsEngine fractions) × (run fractions
        byte_samples profile loaded
      ≡ some (ok (report, metrics)))
    × ((report.packets + report.late_packets + metrics.layered.transport.drop) % 2 ^ 64
        ≡ (3 * max 2 1) % 2 ^ 64)
answer =
    run_complete fractions byte_samples profile loaded not_cuda (omega arith) (omega arith)
      (omega arith)

run-Agrees_example : Agrees fractions answer.0 answer.1
run-Agrees_example = run-Agrees fractions byte_samples profile loaded answer.0 answer.1 answer.2

run-ne-none_example : run fractions byte_samples profile loaded ≢ none
run-ne-none_example = run-ne-none fractions byte_samples profile loaded

-- stream 1 runs and expects number 0
abbrev stream_one : StreamConfig
stream_one = record { stream_id = 1; carrier = 0; antenna = 0; qos = 0; deadline_ns = 5_000 }

abbrev engine : SimTransportEngine
engine = record {
  streams = (1, record { cfg = stream_one; state = running }) ∷ [];
  inbox = [];
  outbox = [];
  link = link_running;
  seq = record { next = (1, 0) ∷ []; start = 0; allow_reorder = false };
  ts = record { max_latency_ns = 20_000 };
  now_ns = 0;
  sequence_gaps = 0;
  late_packets = 0;
}

abbrev fpgas : List (FpgaEmulator byte_samples)
fpgas = emulator_new byte_samples loaded.timing 1 ∷ []

abbrev begin : PipelineState fractions
begin = started fractions loaded engine

abbrev loops :
    PipelineState fractions × Result PipelineBenchError (Option (FaultInjector fractions))
loops = stream_through fractions byte_samples profile loaded.eth loaded.fault fpgas begin

abbrev first : Packet
first = record { stream_id = 1; sequence = 4; timestamp = 7; payload = 1 ∷ 2 ∷ [] }

abbrev Mine : StreamId → Type 0
Mine id = id ≡ 1

begin-IsIdle : IsIdle fractions profile loaded.eth loaded.fault Mine 64 begin
unfolding started is_open lookup nic_new GpuRing.new
begin-IsIdle = record {
  inbox = refl;
  serving = record {
    open_link = refl;
    runs = λ id mine. (record { cfg = stream_one; state = running }, ground (arith, mine), refl);
  };
  nic = record { none_pending = refl; none_ready = refl; some_room = omega arith };
  ring = record { free_slots = (refl, (refl, tt)); some_slot = omega arith };
  slot_bytes = refl;
}

process_one-Handled_example :
    Handled fractions profile loaded.eth loaded.fault Mine 64 begin
      (process_one fractions profile loaded.eth loaded.fault first begin)
process_one-Handled_example =
    process_one-Handled fractions profile loaded.eth loaded.fault Mine 64 first (omega arith) begin
      refl begin-IsIdle

fpgas-EmitsFitting :
    All (EmitsFitting fractions profile loaded.eth loaded.fault Mine 64 byte_samples) fpgas
unfolding emulator_new
fpgas-EmitsFitting = (record { mine = refl; fits = omega arith }, tt)

handled :
    Handles fractions profile loaded.eth loaded.fault Mine 64
      (Conserves fractions profile loaded.eth loaded.fault Mine 64 byte_samples 3)
      begin
      loops
handled =
    stream_handled fractions profile loaded.eth loaded.fault Mine 64 byte_samples fpgas begin
      fpgas-EmitsFitting begin-IsIdle

one_latency : length loops.0.latencies ≡ 1
unfolding Fault.should_drop_deterministic Fault.should_drop_burst Fault.should_drop
    Fault.extra_latency_ns Fault.mutate_packet Fault.injector_new Fault.pass Fault.push Fault.flush
    Fpga.generator_new Fpga.current Fpga.ticked Fpga.tick_symbol Fpga.next_sequence Fpga.next_symbol
    Fpga.indexed Fpga.generate Fpga.sample_bytes Fpga.packetize Fpga.emulator_new Fpga.emit_symbol
    Sim.admit Sim.settle Sim.ingest Sim.recover_sequence Sim.receive Check.expected Check.resync
    Check.check_sequence Check.check_timestamp Transport.is_running Transport.is_open
    Nic.dma_latency_ns Nic.poll_from Nic.nic_new Nic.poll_completions Nic.advance_time
    Nic.submit_rx_ready_at Nic.submit_rx Nic.rx_burst GpuRing.new GpuRing.begin_receive
    GpuRing.complete_receive GpuRing.begin_process GpuRing.complete_process GpuRing.release
    Ethernet.serialize_delay_ns Ethernet.wire_delay_ns Pipeline.taken Pipeline.take_in
    Pipeline.kernel Pipeline.begun Pipeline.on_gpu Pipeline.after_dma Pipeline.through_nic
    Pipeline.gpu_done Pipeline.deliver Pipeline.deliver_all Pipeline.received Pipeline.arrive_host
    Pipeline.process_one Run.started Run.process_all Run.emit_round Run.emit_symbols Run.flush_loop
    Run.stream_through Assoc.lookup Assoc.insert Search.position
one_latency = refl

report_of-latencies_example :
    let s = loops.0 in
    Describes fractions s.latencies (report_of fractions s).latency
    × Summarises s.latencies s.metrics.layered.transport
    × ((report_of fractions s).latency.min_ns ≡ s.metrics.layered.transport.latency_min_ns)
    × ((report_of fractions s).latency.max_ns ≡ s.metrics.layered.transport.latency_max_ns)
report_of-latencies_example =
    report_of-latencies fractions byte_samples profile loaded fpgas engine loops.0
      (some handled.result.last) (λ i. (loops.0, (handled.answer ∙ ap ok handled.result.ended) i))
      (omega (arith, one_latency))
