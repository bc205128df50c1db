-- ===== src/Layers.antt =====
-- The five metric layers of crates/metrics-engine/src/layers.rs. A ratio or a speed is an `f64`.
use aether_radio_sim.Base.{ℕ, Bool}
use aether_radio_sim.Base.Floats.{Float64}

pub record TransportLayerMetrics : Type 0 where
  pub tx_packets : ℕ
  pub rx_packets : ℕ
  pub tx_bytes : ℕ
  pub rx_bytes : ℕ
  pub gap_count : ℕ
  pub duplicate_count : ℕ
  pub out_of_order_count : ℕ
  pub late_packet : ℕ
  pub drop : ℕ
  pub latency_min_ns : ℕ
  pub latency_max_ns : ℕ
  pub latency_last_ns : ℕ
  pub latency_sum_ns : ℕ
  pub latency_samples : ℕ
  pub jitter_ns : ℕ

pub record RadioLayerMetrics : Type 0 where
  pub slot_received : ℕ
  pub slot_processed : ℕ
  pub slot_lost : ℕ
  pub slot_deadline_miss : ℕ
  pub symbol_received : ℕ
  pub symbol_gap : ℕ
  pub symbol_latency_ns : ℕ
  pub iq_loss : ℕ
  pub deadline_miss : ℕ

pub record MemoryLayerMetrics : Type 0 where
  pub host_buffer_used : ℕ
  pub gpu_buffer_used : ℕ
  pub buffer_full : ℕ
  pub overflow : ℕ
  pub underflow : ℕ
  pub ring_occupancy : ℕ
  pub ring_stall_ns : ℕ

module _ (F : Float64) where
  pub record PhysicalMetrics : Type 0 where
    pub link_up : Bool
    pub link_speed_gbps : F.Num
    pub mtu : ℕ
    pub crc_error : ℕ
    pub fec_corrected : ℕ
    pub fec_uncorrected : ℕ

  pub record ComputeLayerMetrics : Type 0 where
    pub kernel_latency_ns : ℕ
    pub kernel_executions : ℕ
    pub cuda_stream_idle : ℕ
    pub gpu_utilization_pct : F.Num

  pub record LayeredMetricsSnapshot : Type 0 where
    pub physical : PhysicalMetrics
    pub transport : TransportLayerMetrics
    pub radio : RadioLayerMetrics
    pub memory : MemoryLayerMetrics
    pub compute : ComputeLayerMetrics
