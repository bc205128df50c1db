-- ===== src/Gates/Acceptance.antt =====
-- What the acceptance run of crates/benchmark/src/acceptance.rs decides.
use aether_radio_sim.Base.{◌≤◌, ◌≡◌, ◌↔◌, Bool, true, false, ok, err, arith}
use aether_radio_sim.Base.Floats.{Float64}
use aether_radio_sim.Bench.{BenchReport}
use aether_radio_sim.Ethernet.{EthernetModelConfig}
use aether_radio_sim.Health.{HealthState, normal, state_eq, HealthThresholds, manager_new, evaluate}
use aether_radio_sim.Metrics.{MetricsEngine}
use aether_radio_sim.Gates.Verdict.{verdict_iff}
use aether_radio_sim.Gates.{
  AcceptanceProfile, AcceptanceReport, not_accepted, acceptance_gates, accept, all_passed,
}

pub state_eq_iff : (a b : HealthState) → (state_eq a b ≡ true) ↔ (a ≡ b)
unfolding state_eq
state_eq_iff a b = (λ e. ground arith, λ e. ground arith)

module _ (F : Float64) where
  -- what a profile asks of a report and of the health after it
  pub record Meets (p : AcceptanceProfile F) (eth : EthernetModelConfig F) (bench : BenchReport F)
      (health : HealthState) : Type 0 where
    pub bandwidth :
        F.le p.min_model_bandwidth_gbps
          (F.add eth.bandwidth_gbps (F.div (F.of_nat 1) (F.of_nat 4_503_599_627_370_496)))
        ≡ true
    pub packets : p.min_packets ≤ bench.packets
    pub latency : bench.latency.p99_ns ≤ p.max_p99_latency_ns
    pub gaps : bench.sequence_gaps ≤ p.max_sequence_gaps
    pub late : bench.late_packets ≤ p.max_late_packets
    pub symbols : bench.radio.symbol_miss ≤ p.max_symbol_miss
    pub state : p.require_health_normal ≡ true → health ≡ normal

  gates-Meets :
      (p : AcceptanceProfile F) (eth : EthernetModelConfig F) (bench : BenchReport F)
      (health : HealthState)
      → all_passed (acceptance_gates F p eth bench health) ≡ true
      → Meets p eth bench health
  unfolding acceptance_gates all_passed state_eq
  gates-Meets p eth bench health e = record {
    bandwidth = ground arith;
    packets = ground arith;
    latency = ground arith;
    gaps = ground arith;
    late = ground arith;
    symbols = ground arith;
    state = λ r. ground arith;
  }

  Meets-gates :
      (p : AcceptanceProfile F) (eth : EthernetModelConfig F) (bench : BenchReport F)
      (health : HealthState)
      → Meets p eth bench health
      → all_passed (acceptance_gates F p eth bench health) ≡ true
  unfolding acceptance_gates all_passed state_eq
  Meets-gates p eth bench health m =
      let a = m.bandwidth in
      let b = m.packets in
      let c = m.latency in
      let d = m.gaps in let f = m.late in let g = m.symbols in let h = m.state in ground arith

  -- The acceptance report holds the report of the benchmark and the health after one evaluation of
  -- its metrics. The run answers with it exactly when all conditions of the profile hold, and otherwise
  -- fails with the same report but for the verdict.
  pub accept_iff :
      (p : AcceptanceProfile F) (eth : EthernetModelConfig F) (limits : HealthThresholds F)
      (bench : BenchReport F) (metrics : MetricsEngine F)
      → let health = (evaluate F metrics.layered (manager_new F limits)).0.state in
        let report : Bool → AcceptanceReport F = λ b. record {
          profile_id = p.id;
          passed = b;
          gates = acceptance_gates F p eth bench health;
          bench = bench;
          health = health;
        } in
        ((accept F p eth limits (ok (bench, metrics)) ≡ ok (report true))
          ↔ Meets p eth bench health)
        × ((accept F p eth limits (ok (bench, metrics)) ≡ err (not_accepted (report false)))
            ↔ (¬ Meets p eth bench health))
  unfolding accept
  accept_iff p eth limits bench metrics =
      let health = (evaluate F metrics.layered (manager_new F limits)).0.state in
      let gates = acceptance_gates F p eth bench health in
      verdict_iff
        (λ b. record {
          profile_id = p.id;
          passed = b;
          gates = gates;
          bench = bench;
          health = health;
        })
        not_accepted (all_passed gates)
        (gates-Meets p eth bench health, Meets-gates p eth bench health)
