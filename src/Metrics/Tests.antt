-- ===== src/Metrics/Tests.antt =====
-- Concrete calls of crates/metrics-engine/src/lib.rs.
use aether_radio_sim.Base.{◌≡◌, refl, List, [], ◌∷◌, true, arith}
use aether_radio_sim.Base.Floats.{fractions}
use aether_radio_sim.Metrics.{
  new, record_rx, record_rx_bytes, record_latency_sample, set_link_up, no_transport,
}
use aether_radio_sim.Metrics.Counters.{
  MetricsOp, rx, rx_bytes, latency, link, step, run, samples_of, received, Agrees, run-new,
}

abbrev some_ops : List (MetricsOp fractions)
some_ops = link true (100, 1) ∷ rx ∷ rx_bytes 64 ∷ latency 1000 ∷ latency 3000 ∷ latency 2500 ∷ []

run-new_example :
    Agrees fractions
      (samples_of fractions some_ops)
      (received fractions some_ops)
      (run fractions some_ops (new fractions))
run-new_example = run-new fractions some_ops (omega arith)

-- One packet, recorded with `record_rx` and `record_rx_bytes` as the pipeline does, counts twice.
three_samples : (run fractions some_ops (new fractions)).layered.transport ≡ record no_transport {
  rx_packets = 2;
  rx_bytes = 64;
  latency_min_ns = 1000;
  latency_max_ns = 3000;
  latency_last_ns = 2500;
  latency_sum_ns = 6500;
  latency_samples = 3;
  jitter_ns = 500;
}
unfolding run step new record_rx record_rx_bytes record_latency_sample set_link_up
three_samples = refl
