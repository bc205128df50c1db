-- ===== src/Health.antt =====
-- The health state machine of crates/metrics-engine/src/health.rs over the layered metrics of
-- crates/metrics-engine/src/layers.rs. The event that a change logs is I/O.
pub mod Recovery
pub mod Moves
mod Tests
use aether_radio_sim.Base.{
  ℕ, ◌+◌, Option, none, some, Bool, true, false, not, ◌&&◌, ◌||◌, ltb, if◌then◌else◌, max,
  wrapping_add, u64_mod, ◌*◌, ◌%◌,
}
use aether_radio_sim.Base.Floats.{Float64}
use aether_radio_sim.Layers.{LayeredMetricsSnapshot}

pub data HealthState : Type 0 where
  normal warning degraded failed recovery : HealthState

-- the derived `==` of `HealthState`
unfoldable pub state_eq : HealthState → HealthState → Bool
state_eq normal normal = true
state_eq warning warning = true
state_eq degraded degraded = true
state_eq failed failed = true
state_eq recovery recovery = true
state_eq _ _ = false

module _ (F : Float64) where
  pub record HealthThresholds : Type 0 where
    pub max_loss_rate : F.Num
    pub max_seq_gap_per_window : ℕ
    pub max_latency_p99_ns : ℕ
    pub max_jitter_ns : ℕ
    pub max_symbol_deadline_miss_per_window : ℕ
    pub max_gpu_stall_ns : ℕ
    pub window_ms : ℕ

  pub record HealthManager : Type 0 where
    pub thresholds : HealthThresholds
    pub state : HealthState
    pub transitions : ℕ

  unfoldable pub manager_new : HealthThresholds → HealthManager
  manager_new thresholds = record { thresholds = thresholds; state = normal; transitions = 0 }

  unfoldable pub loss_rate : LayeredMetricsSnapshot F → F.Num
  loss_rate snap = F.div (F.of_nat snap.transport.drop) (F.of_nat (max snap.transport.rx_packets 1))

  unfoldable pub latency : LayeredMetricsSnapshot F → ℕ
  latency snap = max snap.transport.latency_last_ns snap.transport.latency_max_ns

  -- the first condition of `evaluate`; the products wrap in a release build
  unfoldable pub is_failing : HealthThresholds → LayeredMetricsSnapshot F → Bool
  unfolding loss_rate
  is_failing t snap =
      ltb t.max_seq_gap_per_window snap.transport.gap_count
      || (ltb ((t.max_symbol_deadline_miss_per_window * 4) % u64_mod) snap.radio.deadline_miss
          || F.lt (F.mul t.max_loss_rate (F.of_nat 10)) (loss_rate snap))

  -- the second
  unfoldable pub is_strained : HealthThresholds → LayeredMetricsSnapshot F → Bool
  unfolding loss_rate latency
  is_strained t snap =
      ltb 0 snap.transport.gap_count
      || (ltb t.max_symbol_deadline_miss_per_window snap.radio.deadline_miss
          || (ltb t.max_latency_p99_ns (latency snap)
              || (ltb t.max_gpu_stall_ns snap.memory.ring_stall_ns
                  || F.lt t.max_loss_rate (loss_rate snap))))

  -- the condition inside the second branch
  unfoldable pub is_severe : HealthThresholds → LayeredMetricsSnapshot F → Bool
  unfolding latency
  is_severe t snap =
      ltb ((t.max_latency_p99_ns * 2) % u64_mod) (latency snap)
      || ltb t.max_symbol_deadline_miss_per_window snap.radio.deadline_miss

  -- the `let next`
  unfoldable pub next_state :
      HealthThresholds → LayeredMetricsSnapshot F → HealthState → HealthState
  unfolding state_eq
  next_state t snap state =
      if is_failing t snap
      then failed
      else if is_strained t snap
      then if is_severe t snap then degraded else warning
      else if state_eq state failed || state_eq state degraded
      then recovery
      else normal

  unfoldable pub evaluate :
      LayeredMetricsSnapshot F → HealthManager → HealthManager × Option HealthState
  unfolding state_eq
  evaluate snap m =
      let next = next_state m.thresholds snap m.state in
      if not (state_eq next m.state)
      then (record m { state = next; transitions = wrapping_add m.transitions 1 }, some m.state)
      else if state_eq m.state recovery && state_eq next normal
      then (record m { state = normal; transitions = wrapping_add m.transitions 1 }, some m.state)
      else (m, none)
