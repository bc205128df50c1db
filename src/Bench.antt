-- ===== src/Bench.antt =====
-- The statistics of a benchmark in crates/benchmark/src/lib.rs; the JSON text of a report is left out.
pub mod Percentiles
mod Tests
use aether_radio_sim.Base.{
  ℕ, ◌-◌, List, [], ◌∷◌, Option, none, some, if◌then◌else◌, min, length, get_elem?, saturating_sub,
}
use aether_radio_sim.Base.Floats.{Float64}

pub record LatencyStats : Type 0 where
  pub min_ns : ℕ
  pub p50_ns : ℕ
  pub p99_ns : ℕ
  pub p999_ns : ℕ
  pub max_ns : ℕ

pub record RadioDeadlineStats : Type 0 where
  pub slot_miss : ℕ
  pub symbol_miss : ℕ

-- `sorted[idx]` at an index that is in range
abbrev pub index_or_zero : List ℕ → ℕ → ℕ
index_or_zero xs i = elim (get_elem? xs i) [ none ↦ 0 | some x ↦ x ]

-- `LatencyStats::default`
abbrev pub no_latency : LatencyStats
no_latency = record { min_ns = 0; p50_ns = 0; p99_ns = 0; p999_ns = 0; max_ns = 0 }

module _ (F : Float64) where
  pub record ThroughputStats : Type 0 where
    pub gbps : F.Num
    pub gbs : F.Num
    pub pps : F.Num

  pub record BenchReport : Type 0 where
    pub throughput : ThroughputStats
    pub latency : LatencyStats
    pub radio : RadioDeadlineStats
    pub packets : ℕ
    pub bytes : ℕ
    pub sequence_gaps : ℕ
    pub late_packets : ℕ
    pub sim_duration_ns : ℕ
    pub recovery_actions : ℕ
    pub ring_occupancy_peak : ℕ

  -- the closure `pct` on a list that is not empty
  unfoldable pub percentile : List ℕ → F.Num → ℕ
  percentile sorted p =
      let last = length sorted - 1 in
      index_or_zero sorted
        (min (F.to_u64 (F.mul p (F.of_nat (saturating_sub (length sorted) 1)))) last)

  unfoldable pub from_sorted_ns : List ℕ → LatencyStats
  from_sorted_ns [] = no_latency
  from_sorted_ns (x ∷ xs) =
      let sorted = x ∷ xs in
      record {
        min_ns = x;
        p50_ns = percentile sorted (F.div (F.of_nat 1) (F.of_nat 2));
        p99_ns = percentile sorted (F.div (F.of_nat 99) (F.of_nat 100));
        p999_ns = percentile sorted (F.div (F.of_nat 999) (F.of_nat 1000));
        max_ns = index_or_zero sorted (length sorted - 1);
      }

  unfoldable pub from_bytes_and_duration : ℕ → F.Num → ℕ → ThroughputStats
  from_bytes_and_duration bytes duration_s packets =
      let zero_stats : ThroughputStats = record {
        gbps = F.of_nat 0;
        gbs = F.of_nat 0;
        pps = F.of_nat 0;
      } in
      let gbs = F.div (F.div (F.of_nat bytes) duration_s) (F.of_nat 1_000_000_000) in
      if F.le duration_s (F.of_nat 0) then zero_stats else record {
        gbps = F.mul gbs (F.of_nat 8);
        gbs = gbs;
        pps = F.div (F.of_nat packets) duration_s;
      }
