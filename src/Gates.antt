-- ===== src/Gates.antt =====
-- The runners that judge the reports of the pipeline: crates/benchmark/src/soak.rs, acceptance.rs and
-- fault_drill.rs there. The benchmark that they run is a parameter, as it reads files (of the soak, at every round); the texts of
-- details, the sleeping between rounds, the wall clock and the written report are left out.
pub mod Verdict
pub mod Rounds
pub mod Soak
pub mod Acceptance
mod Tests
use Prim.Native.String.{String}
use aether_radio_sim.Base.{
  ℕ, zero, suc, ◌+◌, ◌%◌, List, [], ◌∷◌, ◌++◌, Option, none, some, Bool, true, false, not, Result,
  ok, err, ◌&&◌, ◌||◌, ◌==◌, ltb, leb, if◌then◌else◌, length, max, saturating_add, u32_mod,
}
use aether_radio_sim.Base.Floats.{Float64}
use aether_radio_sim.Base.Text.{bytes_of}
use aether_radio_sim.Bench.{BenchReport, no_latency}
use aether_radio_sim.Ethernet.{EthernetModelConfig}
use aether_radio_sim.Health.{
  HealthState, normal, state_eq, HealthThresholds, HealthManager, manager_new, evaluate,
}
use aether_radio_sim.Metrics.{MetricsEngine}
use aether_radio_sim.Pipeline.{BenchProfile, PipelineBenchError}

-- `SoakGate` and `GateResult`
pub record Gate : Type 0 where
  pub name : List ℕ
  pub passed : Bool

-- `gates.iter().all(|g| g.passed)`
unfoldable pub all_passed : List Gate → Bool
all_passed [] = true
all_passed (g ∷ gs) = g.passed && all_passed gs

abbrev pub gate : String → Bool → Gate
gate name passed = record { name = bytes_of name; passed = passed }

pub record SoakRoundHealth : Type 0 where
  pub round : ℕ
  pub health : HealthState
  pub packets : ℕ
  pub sequence_gaps : ℕ
  pub recovery_actions : ℕ

-- `all(|h| h.health == Normal)`: the names of the states differ as the states do
unfoldable pub all_normal : List SoakRoundHealth → Bool
unfolding state_eq
all_normal [] = true
all_normal (h ∷ hs) = state_eq h.health normal && all_normal hs

-- `unwrap_or` of an override
abbrev pub or_else : {A : Type 0} → Option A → A → A
or_else none a = a
or_else (some b) a = b

module _ (F : Float64) where
  pub record SoakProfile : Type 0 where
    pub version : String
    pub id : String
    pub bench_profile : String
    pub fault_config : Option String
    pub symbol_count_override : Option ℕ
    pub streams_override : Option ℕ
    pub report_path : String
    pub events_path : Option String
    pub max_sequence_gaps : ℕ
    pub max_deadline_miss_ratio : F.Num
    pub min_packets : ℕ
    pub health_policy : String
    pub rounds : ℕ
    pub require_health_normal : Bool
    pub round_interval_ms : ℕ

  -- `BenchReport::default`
  abbrev pub no_report : BenchReport F
  no_report = record {
    throughput = record { gbps = F.of_nat 0; gbs = F.of_nat 0; pps = F.of_nat 0 };
    latency = no_latency;
    radio = record { slot_miss = 0; symbol_miss = 0 };
    packets = 0;
    bytes = 0;
    sequence_gaps = 0;
    late_packets = 0;
    sim_duration_ns = 0;
    recovery_actions = 0;
    ring_occupancy_peak = 0;
  }

  -- the variables of the loop over the rounds
  pub record SoakState : Type 0 where
    pub health : HealthManager F
    pub aggregate : BenchReport F
    pub round_health : List SoakRoundHealth
    pub last_health : HealthState

  -- the profile of a round, but for the path of its events
  unfoldable pub round_profile : SoakProfile → BenchProfile → BenchProfile
  round_profile p bench = record bench {
    symbol_count = or_else p.symbol_count_override bench.symbol_count;
    streams = or_else p.streams_override bench.streams;
    fault_config = or_else p.fault_config bench.fault_config;
    report_path = p.report_path;
  }

  unfoldable pub aggregated : BenchReport F → BenchReport F → BenchReport F
  aggregated bench a = record {
    throughput = bench.throughput;
    latency = bench.latency;
    radio = record {
      slot_miss = saturating_add a.radio.slot_miss bench.radio.slot_miss;
      symbol_miss = saturating_add a.radio.symbol_miss bench.radio.symbol_miss;
    };
    packets = saturating_add a.packets bench.packets;
    bytes = saturating_add a.bytes bench.bytes;
    sequence_gaps = saturating_add a.sequence_gaps bench.sequence_gaps;
    late_packets = saturating_add a.late_packets bench.late_packets;
    sim_duration_ns = saturating_add a.sim_duration_ns bench.sim_duration_ns;
    recovery_actions = saturating_add a.recovery_actions bench.recovery_actions;
    ring_occupancy_peak = max a.ring_occupancy_peak bench.ring_occupancy_peak;
  }

  -- the body of the loop once the benchmark has run
  unfoldable pub soak_round : ℕ → BenchReport F → MetricsEngine F → SoakState → SoakState
  unfolding aggregated
  soak_round r bench metrics s =
      let health = (evaluate F metrics.layered s.health).0 in
      record {
        health = health;
        aggregate = aggregated bench s.aggregate;
        round_health =
            s.round_health
            ++ (record {
              round = r;
              health = health.state;
              packets = bench.packets;
              sequence_gaps = bench.sequence_gaps;
              recovery_actions = bench.recovery_actions;
            }
                ∷ []);
        last_health = health.state;
      }

  unfoldable pub miss_ratio : BenchReport F → F.Num
  miss_ratio a =
      if a.packets == 0
      then F.of_nat 1
      else F.div (F.of_nat a.radio.symbol_miss) (F.of_nat a.packets)

  unfoldable pub soak_gates : SoakProfile → ℕ → SoakState → List Gate
  unfolding miss_ratio
  soak_gates p rounds s =
      let a = s.aggregate in
      gate "min_packets" (leb p.min_packets a.packets)
      ∷ gate "max_sequence_gaps" (leb a.sequence_gaps p.max_sequence_gaps)
      ∷ gate "max_deadline_miss_ratio" (F.le (miss_ratio a) p.max_deadline_miss_ratio)
      ∷ gate "rounds_completed" (length s.round_health % u32_mod == rounds)
      ∷ (if p.require_health_normal
          then gate "health_normal_each_round" (all_normal s.round_health) ∷ []
          else [])

  -- without the time that it took
  pub record SoakReport : Type 0 where
    pub profile_id : String
    pub passed : Bool
    pub gates : List Gate
    pub bench : BenchReport F
    pub health : HealthState
    pub rounds : ℕ
    pub round_health : List SoakRoundHealth
    pub fault_config : Option String
    pub recovery_actions : ℕ
    pub round_interval_ms : ℕ

  pub data SoakError : Type 0 where
    in_bench : PipelineBenchError → SoakError
    failed : SoakReport → SoakError

  unfoldable pub soak_start : HealthThresholds F → SoakState
  soak_start thresholds = record {
    health = manager_new F thresholds;
    aggregate = no_report;
    round_health = [];
    last_health = normal;
  }

  -- the report, as `Failed` unless every gate has passed
  unfoldable pub soak_judge : SoakProfile → ℕ → SoakState → Result SoakError SoakReport
  soak_judge p rounds s =
      let gates = soak_gates p rounds s in
      let report : SoakReport = record {
        profile_id = p.id;
        passed = all_passed gates;
        gates = gates;
        bench = s.aggregate;
        health = s.last_health;
        rounds = rounds;
        round_health = s.round_health;
        fault_config = p.fault_config;
        recovery_actions = s.aggregate.recovery_actions;
        round_interval_ms = p.round_interval_ms;
      } in
      if not (all_passed gates) then err (failed report) else ok report

  -- `?` on the answer of the benchmark
  unfoldable pub or_bench :
      {A : Type 0}
      → Result PipelineBenchError A
      → (A → Result SoakError SoakState)
      → Result SoakError SoakState
  or_bench (err e) f = err (in_bench e)
  or_bench (ok a) f = f a

  -- the run after its loop
  unfoldable pub judged : SoakProfile → ℕ → Result SoakError SoakState → Result SoakError SoakReport
  judged p rounds (err e) = err e
  judged p rounds (ok s) = soak_judge p rounds s

  module _ (bench : ℕ → BenchProfile → Result PipelineBenchError (BenchReport F × MetricsEngine F))
      (p : SoakProfile) (base : BenchProfile) where
    -- the loop from the round `r` on, `n` rounds
    unfoldable pub soak_rounds : ℕ → ℕ → SoakState → Result SoakError SoakState
    soak_rounds r zero s = ok s
    soak_rounds r (suc n) s =
        or_bench (bench r (round_profile p base))
          (λ answer. soak_rounds (r + 1) n (soak_round r answer.0 answer.1 s))

    -- `SoakRunner::run`
    unfoldable pub soak_run : HealthThresholds F → Result SoakError SoakReport
    unfolding soak_judge soak_start
    soak_run thresholds =
        let rounds = max p.rounds 1 in
        judged p rounds (soak_rounds 1 rounds (soak_start thresholds))

  pub record AcceptanceProfile : Type 0 where
    pub version : String
    pub id : String
    pub bench_profile : String
    pub ethernet_config : String
    pub min_model_bandwidth_gbps : F.Num
    pub max_p99_latency_ns : ℕ
    pub max_sequence_gaps : ℕ
    pub max_late_packets : ℕ
    pub max_symbol_miss : ℕ
    pub min_packets : ℕ
    pub report_path : String
    pub health_policy : String
    pub require_health_normal : Bool

  pub record AcceptanceReport : Type 0 where
    pub profile_id : String
    pub passed : Bool
    pub gates : List Gate
    pub bench : BenchReport F
    pub health : HealthState

  pub data AcceptanceError : Type 0 where
    bench_failed : PipelineBenchError → AcceptanceError
    not_accepted : AcceptanceReport → AcceptanceError

  -- `f64::EPSILON` is 2^-52.
  unfoldable pub acceptance_gates :
      AcceptanceProfile → EthernetModelConfig F → BenchReport F → HealthState → List Gate
  unfolding state_eq
  acceptance_gates p eth bench health =
      let epsilon = F.div (F.of_nat 1) (F.of_nat 4_503_599_627_370_496) in
      gate "ethernet_model_bandwidth"
        (F.le p.min_model_bandwidth_gbps (F.add eth.bandwidth_gbps epsilon))
      ∷ gate "min_packets" (leb p.min_packets bench.packets)
      ∷ gate "max_p99_latency_ns" (leb bench.latency.p99_ns p.max_p99_latency_ns)
      ∷ gate "max_sequence_gaps" (leb bench.sequence_gaps p.max_sequence_gaps)
      ∷ gate "max_late_packets" (leb bench.late_packets p.max_late_packets)
      ∷ gate "max_symbol_miss" (leb bench.radio.symbol_miss p.max_symbol_miss)
      ∷ (if p.require_health_normal then gate "health_normal" (state_eq health normal) ∷ [] else [])

  -- `AcceptanceRunner::run` once the benchmark has answered
  unfoldable pub accept :
      AcceptanceProfile
      → EthernetModelConfig F
      → HealthThresholds F
      → Result PipelineBenchError (BenchReport F × MetricsEngine F)
      → Result AcceptanceError AcceptanceReport
  unfolding acceptance_gates
  accept p eth thresholds (err e) = err (bench_failed e)
  accept p eth thresholds (ok (bench, metrics)) =
      let health = (evaluate F metrics.layered (manager_new F thresholds)).0.state in
      let gates = acceptance_gates p eth bench health in
      let report : AcceptanceReport = record {
        profile_id = p.id;
        passed = all_passed gates;
        gates = gates;
        bench = bench;
        health = health;
      } in
      if not (all_passed gates) then err (not_accepted report) else ok report

  -- `passed` of `FaultDrillRunner::run`
  unfoldable pub drill_passed : BenchReport F → HealthState → Bool
  unfolding state_eq
  drill_passed bench health =
      ltb 0 bench.packets
      && (ltb 0 bench.recovery_actions
          || (ltb 0 bench.sequence_gaps
              || (ltb 0 bench.late_packets || not (state_eq health normal))))
