-- ===== src/Metrics.antt =====
-- The metrics engine of crates/metrics-engine/src/lib.rs: counters and latency figures over the layers
-- of Layers, and the flat snapshot. A method that the type and its trait both have is one function. The
-- JSON texts are left out.
pub mod Counters
mod Tests
use aether_radio_sim.Base.{
  ℕ, ◌+◌, ◌-◌, Bool, false, ltb, ◌==◌, if◌then◌else◌, min, max, wrapping_add, saturating_add,
}
use aether_radio_sim.Base.Floats.{Float64}
use aether_radio_sim.Layers.{
  TransportLayerMetrics, RadioLayerMetrics, MemoryLayerMetrics, PhysicalMetrics,
  ComputeLayerMetrics, LayeredMetricsSnapshot,
}

pub record TransportMetrics : Type 0 where
  pub sequence_gap : ℕ
  pub late_packet : ℕ
  pub jitter_ns : ℕ
  pub latency_ns : ℕ

pub record RadioMetrics : Type 0 where
  pub slot_latency_ns : ℕ
  pub symbol_latency_ns : ℕ
  pub deadline_miss : ℕ

-- `abs_diff`
abbrev pub abs_diff : ℕ → ℕ → ℕ
abs_diff a b = (a - b) + (b - a)

-- `record_latency_sample` on the transport layer
unfoldable pub sampled : ℕ → TransportLayerMetrics → TransportLayerMetrics
sampled latency_ns t =
    let first = t.latency_samples == 0 in
    record t {
      latency_min_ns = if first then latency_ns else min t.latency_min_ns latency_ns;
      latency_max_ns = if first then latency_ns else max t.latency_max_ns latency_ns;
      jitter_ns =
          if first
          then t.jitter_ns
          else if ltb 0 t.latency_last_ns
          then abs_diff latency_ns t.latency_last_ns
          else t.jitter_ns;
      latency_last_ns = latency_ns;
      latency_sum_ns = saturating_add t.latency_sum_ns latency_ns;
      latency_samples = wrapping_add t.latency_samples 1;
    }

-- `default`
abbrev pub no_transport : TransportLayerMetrics
no_transport = record {
  tx_packets = 0;
  rx_packets = 0;
  tx_bytes = 0;
  rx_bytes = 0;
  gap_count = 0;
  duplicate_count = 0;
  out_of_order_count = 0;
  late_packet = 0;
  drop = 0;
  latency_min_ns = 0;
  latency_max_ns = 0;
  latency_last_ns = 0;
  latency_sum_ns = 0;
  latency_samples = 0;
  jitter_ns = 0;
}

abbrev pub no_radio : RadioLayerMetrics
no_radio = record {
  slot_received = 0;
  slot_processed = 0;
  slot_lost = 0;
  slot_deadline_miss = 0;
  symbol_received = 0;
  symbol_gap = 0;
  symbol_latency_ns = 0;
  iq_loss = 0;
  deadline_miss = 0;
}

abbrev pub no_memory : MemoryLayerMetrics
no_memory = record {
  host_buffer_used = 0;
  gpu_buffer_used = 0;
  buffer_full = 0;
  overflow = 0;
  underflow = 0;
  ring_occupancy = 0;
  ring_stall_ns = 0;
}

module _ (F : Float64) where
  pub record LinkMetrics : Type 0 where
    pub rx_packets : ℕ
    pub tx_packets : ℕ
    pub bandwidth_bps : F.Num
    pub drop : ℕ
    pub error : ℕ

  pub record MetricsSnapshot : Type 0 where
    pub link : LinkMetrics
    pub transport : TransportMetrics
    pub radio : RadioMetrics

  pub record MetricsEngine : Type 0 where
    pub layered : LayeredMetricsSnapshot F
    pub last_latency_ns : ℕ

  unfoldable pub new : MetricsEngine
  new = record {
    layered = record {
      physical = record {
        link_up = false;
        link_speed_gbps = F.of_nat 0;
        mtu = 0;
        crc_error = 0;
        fec_corrected = 0;
        fec_uncorrected = 0;
      };
      transport = no_transport;
      radio = no_radio;
      memory = no_memory;
      compute = record {
        kernel_latency_ns = 0;
        kernel_executions = 0;
        cuda_stream_idle = 0;
        gpu_utilization_pct = F.of_nat 0;
      };
    };
    last_latency_ns = 0;
  }

  -- a change of one layer
  abbrev pub on_physical : (PhysicalMetrics F → PhysicalMetrics F) → MetricsEngine → MetricsEngine
  on_physical f m = record m { layered = record m.layered { physical = f m.layered.physical } }

  abbrev pub on_transport :
      (TransportLayerMetrics → TransportLayerMetrics) → MetricsEngine → MetricsEngine
  on_transport f m = record m { layered = record m.layered { transport = f m.layered.transport } }

  abbrev pub on_radio : (RadioLayerMetrics → RadioLayerMetrics) → MetricsEngine → MetricsEngine
  on_radio f m = record m { layered = record m.layered { radio = f m.layered.radio } }

  abbrev pub on_memory : (MemoryLayerMetrics → MemoryLayerMetrics) → MetricsEngine → MetricsEngine
  on_memory f m = record m { layered = record m.layered { memory = f m.layered.memory } }

  abbrev pub on_compute :
      (ComputeLayerMetrics F → ComputeLayerMetrics F) → MetricsEngine → MetricsEngine
  on_compute f m = record m { layered = record m.layered { compute = f m.layered.compute } }

  unfoldable pub record_rx : MetricsEngine → MetricsEngine
  record_rx = on_transport (λ t. record t { rx_packets = wrapping_add t.rx_packets 1 })

  unfoldable pub record_tx : MetricsEngine → MetricsEngine
  record_tx = on_transport (λ t. record t { tx_packets = wrapping_add t.tx_packets 1 })

  unfoldable pub record_drop : MetricsEngine → MetricsEngine
  record_drop = on_transport (λ t. record t { drop = wrapping_add t.drop 1 })

  unfoldable pub record_sequence_gap : MetricsEngine → MetricsEngine
  record_sequence_gap = on_transport (λ t. record t { gap_count = wrapping_add t.gap_count 1 })

  unfoldable pub record_late_packet : MetricsEngine → MetricsEngine
  record_late_packet = on_transport (λ t. record t { late_packet = wrapping_add t.late_packet 1 })

  unfoldable pub record_deadline_miss : MetricsEngine → MetricsEngine
  record_deadline_miss = on_radio (λ r. record r {
    deadline_miss = wrapping_add r.deadline_miss 1;
    slot_deadline_miss = wrapping_add r.slot_deadline_miss 1;
  })

  unfoldable pub record_error : MetricsEngine → MetricsEngine
  record_error = on_physical (λ p. record p { crc_error = wrapping_add p.crc_error 1 })

  unfoldable pub set_ring_occupancy : ℕ → MetricsEngine → MetricsEngine
  set_ring_occupancy occupancy = on_memory (λ m. record m { ring_occupancy = occupancy })

  unfoldable pub record_buffer_full : MetricsEngine → MetricsEngine
  record_buffer_full = on_memory (λ m. record m {
    buffer_full = saturating_add m.buffer_full 1;
    overflow = saturating_add m.overflow 1;
  })

  unfoldable pub set_memory_buffers : ℕ → ℕ → MetricsEngine → MetricsEngine
  set_memory_buffers host_used gpu_used =
      on_memory (λ m. record m { host_buffer_used = host_used; gpu_buffer_used = gpu_used })

  unfoldable pub record_rx_bytes : ℕ → MetricsEngine → MetricsEngine
  record_rx_bytes bytes = on_transport (λ t. record t {
    rx_packets = wrapping_add t.rx_packets 1;
    rx_bytes = saturating_add t.rx_bytes bytes;
  })

  unfoldable pub record_tx_bytes : ℕ → MetricsEngine → MetricsEngine
  record_tx_bytes bytes = on_transport (λ t. record t {
    tx_packets = wrapping_add t.tx_packets 1;
    tx_bytes = saturating_add t.tx_bytes bytes;
  })

  unfoldable pub record_latency_sample : ℕ → MetricsEngine → MetricsEngine
  unfolding sampled
  record_latency_sample latency_ns m = record (on_transport (sampled latency_ns) m) {
    last_latency_ns = latency_ns;
  }

  unfoldable pub record_symbol : MetricsEngine → MetricsEngine
  record_symbol = on_radio (λ r. record r {
    symbol_received = wrapping_add r.symbol_received 1;
    slot_received = wrapping_add r.slot_received 1;
    slot_processed = wrapping_add r.slot_processed 1;
  })

  unfoldable pub record_kernel_ns : ℕ → MetricsEngine → MetricsEngine
  record_kernel_ns ns = on_compute (λ c. record c {
    kernel_latency_ns = ns;
    kernel_executions = wrapping_add c.kernel_executions 1;
  })

  unfoldable pub set_link_up : Bool → F.Num → MetricsEngine → MetricsEngine
  set_link_up up speed_gbps =
      on_physical (λ p. record p { link_up = up; link_speed_gbps = speed_gbps })

  unfoldable pub snapshot : MetricsEngine → MetricsSnapshot
  snapshot m =
      let t = m.layered.transport in
      record {
        link = record {
          rx_packets = t.rx_packets;
          tx_packets = t.tx_packets;
          bandwidth_bps = F.of_nat 0;
          drop = t.drop;
          error = m.layered.physical.crc_error;
        };
        transport = record {
          sequence_gap = t.gap_count;
          late_packet = t.late_packet;
          jitter_ns = t.jitter_ns;
          latency_ns = m.last_latency_ns;
        };
        radio = record {
          slot_latency_ns = 0;
          symbol_latency_ns = m.layered.radio.symbol_latency_ns;
          deadline_miss = m.layered.radio.deadline_miss;
        };
      }
