-- ===== src/Health/Tests.antt =====
-- A concrete manager of crates/metrics-engine/src/health.rs.
use aether_radio_sim.Base.{◌≡◌, refl, true}
use aether_radio_sim.Base.Floats.{fractions}
use aether_radio_sim.Layers.{LayeredMetricsSnapshot}
use aether_radio_sim.Health.{
  normal, degraded, recovery, state_eq, HealthThresholds, HealthManager, is_failing, is_strained,
  evaluate,
}
use aether_radio_sim.Health.Moves.{Moved, evaluate_lem}
use aether_radio_sim.Health.Recovery.{IsClean, evaluate-IsClean}

-- the defaults
abbrev limits : HealthThresholds fractions
limits = record {
  max_loss_rate = (1, 1000);
  max_seq_gap_per_window = 0;
  max_latency_p99_ns = 50_000;
  max_jitter_ns = 5_000;
  max_symbol_deadline_miss_per_window = 8;
  max_gpu_stall_ns = 100_000;
  window_ms = 1000;
}

abbrev quiet : LayeredMetricsSnapshot fractions
quiet = record {
  physical = record {
    link_up = true;
    link_speed_gbps = (100, 1);
    mtu = 9000;
    crc_error = 0;
    fec_corrected = 0;
    fec_uncorrected = 0;
  };
  transport = record {
    tx_packets = 0;
    rx_packets = 10;
    tx_bytes = 0;
    rx_bytes = 640;
    gap_count = 0;
    duplicate_count = 0;
    out_of_order_count = 0;
    late_packet = 0;
    drop = 0;
    latency_min_ns = 100;
    latency_max_ns = 900;
    latency_last_ns = 300;
    latency_sum_ns = 4000;
    latency_samples = 10;
    jitter_ns = 20;
  };
  radio = record {
    slot_received = 1;
    slot_processed = 1;
    slot_lost = 0;
    slot_deadline_miss = 0;
    symbol_received = 14;
    symbol_gap = 0;
    symbol_latency_ns = 0;
    iq_loss = 0;
    deadline_miss = 2;
  };
  memory = record {
    host_buffer_used = 0;
    gpu_buffer_used = 0;
    buffer_full = 0;
    overflow = 0;
    underflow = 0;
    ring_occupancy = 0;
    ring_stall_ns = 0;
  };
  compute = record {
    kernel_latency_ns = 0;
    kernel_executions = 0;
    cuda_stream_idle = 0;
    gpu_utilization_pct = (0, 1);
  };
}

abbrev manager : HealthManager fractions
manager = record { thresholds = limits; state = degraded; transitions = 3 }

evaluate_lem_example : Moved fractions quiet manager (evaluate fractions quiet manager)
evaluate_lem_example = evaluate_lem fractions quiet manager

quiet-IsClean : IsClean fractions limits quiet
unfolding is_failing is_strained
quiet-IsClean = record { not_failing = refl; not_strained = refl }

evaluate-IsClean_example :
    let m1 = (evaluate fractions quiet manager).0 in
    let m2 = (evaluate fractions quiet m1).0 in (m1.state ≡ recovery) × (m2.state ≡ normal)
unfolding state_eq
evaluate-IsClean_example =
    evaluate-IsClean fractions quiet quiet manager quiet-IsClean quiet-IsClean
