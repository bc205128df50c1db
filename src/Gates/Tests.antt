-- ===== src/Gates/Tests.antt =====
-- Concrete profiles of crates/benchmark/src/soak.rs and acceptance.rs.
use aether_radio_sim.Base.{
  ℕ, ◌+◌, ◌≡◌, ◌↔◌, refl, none, some, Bool, true, false, Result, ok, err, arith,
}
use aether_radio_sim.Base.Floats.{fractions}
use aether_radio_sim.Base.Text.{bytes_of}
use aether_radio_sim.Bench.{BenchReport}
use aether_radio_sim.Ethernet.{EthernetModelConfig}
use aether_radio_sim.Health.{HealthThresholds, manager_new, evaluate}
use aether_radio_sim.Metrics
use aether_radio_sim.Metrics.{MetricsEngine}
use aether_radio_sim.Pipeline.{BenchProfile, PipelineBenchError}
use aether_radio_sim.Gates.{
  SoakProfile, SoakReport, failed, soak_gates, soak_run, AcceptanceProfile, AcceptanceReport,
  not_accepted, acceptance_gates, accept,
}
use aether_radio_sim.Gates.Acceptance.{Meets, accept_iff}
use aether_radio_sim.Gates.Rounds.{after}
use aether_radio_sim.Gates.Soak.{MeetsSoak, soak_run_iff}

abbrev limits : HealthThresholds fractions
limits = record {
  max_loss_rate = (1, 1000);
  max_seq_gap_per_window = 0;
  max_latency_p99_ns = 50_000;
  max_jitter_ns = 5_000;
  max_symbol_deadline_miss_per_window = 8;
  max_gpu_stall_ns = 100_000;
  window_ms = 1000;
}

abbrev bench_report : ℕ → BenchReport fractions
bench_report packets = record {
  throughput = record { gbps = (40, 1); gbs = (5, 1); pps = (1000, 1) };
  latency = record { min_ns = 100; p50_ns = 200; p99_ns = 900; p999_ns = 950; max_ns = 1000 };
  radio = record { slot_miss = 0; symbol_miss = 1 };
  packets = packets;
  bytes = 6400;
  sequence_gaps = 0;
  late_packets = 0;
  sim_duration_ns = 500_000;
  recovery_actions = 0;
  ring_occupancy_peak = 2;
}

abbrev ethernet : EthernetModelConfig fractions
ethernet = record {
  version = "v1";
  id = "eth";
  bandwidth_gbps = (100, 1);
  mtu = 9000;
  latency_ns = 1000;
  jitter_ns = 0;
  loss_rate = (0, 1);
}

abbrev acceptance : AcceptanceProfile fractions
acceptance = record {
  version = "v1";
  id = "acceptance";
  bench_profile = "bench.yaml";
  ethernet_config = "ethernet.yaml";
  min_model_bandwidth_gbps = (100, 1);
  max_p99_latency_ns = 1_000;
  max_sequence_gaps = 0;
  max_late_packets = 0;
  max_symbol_miss = 1;
  min_packets = 10;
  report_path = "report.json";
  health_policy = "health.yaml";
  require_health_normal = true;
}

accept_iff_example :
    let metrics = Metrics.new fractions in
    let bench = bench_report 100 in
    let health = (evaluate fractions metrics.layered (manager_new fractions limits)).0.state in
    let report : Bool → AcceptanceReport fractions = λ b. record {
      profile_id = acceptance.id;
      passed = b;
      gates = acceptance_gates fractions acceptance ethernet bench health;
      bench = bench;
      health = health;
    } in
    ((accept fractions acceptance ethernet limits (ok (bench, metrics)) ≡ ok (report true))
      ↔ Meets fractions acceptance ethernet bench health)
    × ((accept fractions acceptance ethernet limits (ok (bench, metrics))
          ≡ err (not_accepted (report false)))
        ↔ (¬ Meets fractions acceptance ethernet bench health))
accept_iff_example =
    accept_iff fractions acceptance ethernet limits (bench_report 100) (Metrics.new fractions)

abbrev soak : SoakProfile fractions
soak = record {
  version = "v1";
  id = "soak";
  bench_profile = "bench.yaml";
  fault_config = none;
  symbol_count_override = some 10;
  streams_override = none;
  report_path = "soak.json";
  events_path = none;
  max_sequence_gaps = 0;
  max_deadline_miss_ratio = (1, 50);
  min_packets = 300;
  health_policy = "health.yaml";
  rounds = 3;
  require_health_normal = true;
  round_interval_ms = 0;
}

abbrev base : BenchProfile
base = record {
  version = "v1";
  id = "bench";
  symbol_count = 3;
  streams = 2;
  latency_budget_ns = 5_000;
  include_ethernet_delay = true;
  include_nic_dma = true;
  include_gpu_kernel = true;
  gpu_backend = bytes_of "simulation";
  report_path = "report.json";
  events_path = "events.jsonl";
  observability_config = "observability.yaml";
  radio_timing_config = "timing.yaml";
  transport_deadline_config = "deadline.yaml";
  ethernet_config = "ethernet.yaml";
  nic_config = "nic.yaml";
  gpu_ring_config = "ring.yaml";
  fault_config = "fault.yaml";
  gpu_cuda_config = none;
}

-- more packets in every round
abbrev answer : ℕ → BenchReport fractions × MetricsEngine fractions
answer r = (bench_report (100 + r), Metrics.new fractions)

abbrev bench :
    ℕ → BenchProfile → Result PipelineBenchError (BenchReport fractions × MetricsEngine fractions)
bench r p = ok (answer r)

soak_run_iff_example :
    let last = after fractions limits answer 3 in
    let report : Bool → SoakReport fractions = λ b. record {
      profile_id = soak.id;
      passed = b;
      gates = soak_gates fractions soak 3 last;
      bench = last.aggregate;
      health = last.last_health;
      rounds = 3;
      round_health = last.round_health;
      fault_config = soak.fault_config;
      recovery_actions = last.aggregate.recovery_actions;
      round_interval_ms = soak.round_interval_ms;
    } in
    ((soak_run fractions bench soak base limits ≡ ok (report true))
      ↔ MeetsSoak fractions limits answer soak 3)
    × ((soak_run fractions bench soak base limits ≡ err (failed (report false)))
        ↔ (¬ MeetsSoak fractions limits answer soak 3))
soak_run_iff_example =
    soak_run_iff fractions limits answer bench soak base (omega arith) (λ r g l. refl)
