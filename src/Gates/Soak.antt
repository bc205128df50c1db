-- ===== src/Gates/Soak.antt =====
-- What the soak run of crates/benchmark/src/soak.rs decides.
use aether_radio_sim.Base.{
  ℕ, zero, suc, ◌+◌, ◌%◌, ◌≤◌, ◌<◌, ◌≡◌, ◌↔◌, inl, inr, ap₂, subst, refl, sym, ap, ◌∙◌, Bool, true,
  false, Result, ok, err, ◌==◌, leb, Bool-cases, arith, min, max, u64_max, u32_mod, length,
}
use aether_radio_sim.Base.Floats.{Float64}
use aether_radio_sim.Bench.{BenchReport}
use aether_radio_sim.Health.{normal, HealthThresholds}
use aether_radio_sim.Metrics.{MetricsEngine}
use aether_radio_sim.Pipeline.{BenchProfile, PipelineBenchError}
use aether_radio_sim.Gates.Verdict.{verdict_iff}
use aether_radio_sim.Gates.{
  SoakProfile, SoakReport, SoakState, SoakError, failed, all_passed, soak_round, soak_rounds,
  or_bench, judged, soak_judge, soak_gates, soak_run, round_profile, miss_ratio,
}
use aether_radio_sim.Gates.Rounds.{total, manager_at, after, miss_quotient, Reached, after-Reached}

module _ (F : Float64) (limits : HealthThresholds F)
    (answer : ℕ → BenchReport F × MetricsEngine F) where
  -- what a profile asks of the sums of `rounds` rounds and of the health after each
  pub record MeetsSoak (p : SoakProfile F) (rounds : ℕ) : Type 0 where
    pub packets : p.min_packets ≤ min (total F limits answer (λ b. b.packets) rounds) u64_max
    pub gaps :
        min (total F limits answer (λ b. b.sequence_gaps) rounds) u64_max ≤ p.max_sequence_gaps
    pub ratio :
        F.le
          (miss_quotient F
            (min (total F limits answer (λ b. b.radio.symbol_miss) rounds) u64_max)
            (min (total F limits answer (λ b. b.packets) rounds) u64_max))
          p.max_deadline_miss_ratio
        ≡ true
    pub health :
        p.require_health_normal ≡ true
        → (i : ℕ) → i < rounds
        → (manager_at F limits answer (suc i)).state ≡ normal

  misses-miss_quotient :
      (a : BenchReport F) → miss_ratio F a ≡ miss_quotient F a.radio.symbol_miss a.packets
  unfolding miss_ratio miss_quotient
  misses-miss_quotient a = refl

  gates-MeetsSoak :
      (p : SoakProfile F) (n : ℕ) (s : SoakState F)
      → Reached F limits answer n s
      → all_passed (soak_gates F p n s) ≡ true
      → MeetsSoak p n
  unfolding all_passed soak_gates
  gates-MeetsSoak p n s r e =
      let packets = r.packets in
      let gaps = r.gaps in
      let quotient = ap₂ (miss_quotient F) r.misses r.packets in
      record {
        packets = ground arith;
        gaps = ground arith;
        ratio =
            ap (λ q. F.le q p.max_deadline_miss_ratio)
              (sym (misses-miss_quotient s.aggregate ∙ quotient))
            ∙ (ground arith);
        health = λ h. r.normal_rounds.0 (ground arith);
      }

  MeetsSoak-gates :
      (p : SoakProfile F) (n : ℕ) (s : SoakState F)
      → n < u32_mod
      → Reached F limits answer n s
      → MeetsSoak p n
      → all_passed (soak_gates F p n s) ≡ true
  unfolding all_passed soak_gates
  MeetsSoak-gates p n s l r m =
      let a : leb p.min_packets s.aggregate.packets ≡ true =
        (let e = r.packets in let f = m.packets in ground arith) in
      let b : leb s.aggregate.sequence_gaps p.max_sequence_gaps ≡ true =
        (let e = r.gaps in let f = m.gaps in ground arith) in
      let c : F.le (miss_ratio F s.aggregate) p.max_deadline_miss_ratio ≡ true =
        ap (λ q. F.le q p.max_deadline_miss_ratio)
          (misses-miss_quotient s.aggregate ∙ ap₂ (miss_quotient F) r.misses r.packets)
        ∙ m.ratio in
      let d : (length s.round_health % u32_mod == n) ≡ true = (let e = r.rounds in ground arith) in
      elim (Bool-cases p.require_health_normal) [
        | inl h ↦ let k = r.normal_rounds.1 (m.health h) in ground arith
        | inr h ↦ ground arith
      ]

  module _ (bench : ℕ → BenchProfile → Result PipelineBenchError (BenchReport F × MetricsEngine F))
      (p : SoakProfile F) (base : BenchProfile) where
    soak_rounds-soak_round :
        (r n : ℕ) (s : SoakState F)
        → bench r (round_profile F p base) ≡ ok (answer r)
        → soak_rounds F bench p base r (suc n) s
          ≡ soak_rounds F bench p base (r + 1) n (soak_round F r (answer r).0 (answer r).1 s)
    unfolding soak_rounds or_bench
    soak_rounds-soak_round r n s e =
        ap
          (λ o. or_bench F o (λ a. soak_rounds F bench p base (r + 1) n (soak_round F r a.0 a.1 s)))
          e

    soak_rounds-after :
        (n k : ℕ)
        → ((r : ℕ) → 1 ≤ r → r ≤ k + n → bench r (round_profile F p base) ≡ ok (answer r))
        → soak_rounds F bench p base (suc k) n (after F limits answer k)
          ≡ ok (after F limits answer (k + n))
    unfolding soak_rounds after
    soak_rounds-after zero k h = ap (λ i. ok (after F limits answer i)) (omega arith)
    soak_rounds-after (suc n) k h =
        let e : suc k + n ≡ k + suc n = omega arith in
        let d : suc k + 1 ≡ suc (suc k) = omega arith in
        soak_rounds-soak_round (suc k) n (after F limits answer k)
          (h (suc k) (omega arith) (omega arith))
        ∙ ap (λ r. soak_rounds F bench p base r n (after F limits answer (suc k))) d
        ∙ soak_rounds-after n (suc k) (λ r g l. h r g (omega arith))
        ∙ ap (λ i. ok (after F limits answer i)) e

    soak_run-soak_judge :
        let rounds = max p.rounds 1 in
        ((r : ℕ) → 1 ≤ r → r ≤ rounds → bench r (round_profile F p base) ≡ ok (answer r))
        → soak_run F bench p base limits ≡ soak_judge F p rounds (after F limits answer rounds)
    unfolding soak_run judged after
    soak_run-soak_judge h =
        let rounds = max p.rounds 1 in
        let same : 0 + rounds ≡ rounds = omega arith in
        ap (judged F p rounds) (soak_rounds-after rounds 0 (λ r g l. h r g (omega arith)))
        ∙ ap (λ n. soak_judge F p rounds (after F limits answer n)) same

    -- Let the benchmark answer in each of the max(rounds, 1) rounds, and let the number of rounds be
    -- below 2^32. Then the soak run answers with its report exactly when the sums of the rounds, up
    -- to saturation at 2^64 - 1, and the health after every round meet the profile; otherwise it
    -- fails with the same report but for the verdict.
    pub soak_run_iff :
        let rounds = max p.rounds 1 in
        let report : Bool → SoakReport F = λ b. record {
          profile_id = p.id;
          passed = b;
          gates = soak_gates F p rounds (after F limits answer rounds);
          bench = (after F limits answer rounds).aggregate;
          health = (after F limits answer rounds).last_health;
          rounds = rounds;
          round_health = (after F limits answer rounds).round_health;
          fault_config = p.fault_config;
          recovery_actions = (after F limits answer rounds).aggregate.recovery_actions;
          round_interval_ms = p.round_interval_ms;
        } in
        p.rounds < u32_mod
        → ((r : ℕ) → 1 ≤ r → r ≤ rounds → bench r (round_profile F p base) ≡ ok (answer r))
        → ((soak_run F bench p base limits ≡ ok (report true)) ↔ MeetsSoak p rounds)
          × ((soak_run F bench p base limits ≡ err (failed (report false)))
              ↔ (¬ MeetsSoak p rounds))
    unfolding soak_judge
    soak_run_iff l h =
        let rounds = max p.rounds 1 in
        let gates = soak_gates F p rounds (after F limits answer rounds) in
        let report : Bool → SoakReport F = λ b. record {
          profile_id = p.id;
          passed = b;
          gates = gates;
          bench = (after F limits answer rounds).aggregate;
          health = (after F limits answer rounds).last_health;
          rounds = rounds;
          round_health = (after F limits answer rounds).round_health;
          fault_config = p.fault_config;
          recovery_actions = (after F limits answer rounds).aggregate.recovery_actions;
          round_interval_ms = p.round_interval_ms;
        } in
        let reached = after-Reached F limits answer rounds in
        subst
          (λ (o : Result (SoakError F) (SoakReport F)).
            ((o ≡ ok (report true)) ↔ MeetsSoak p rounds)
            × ((o ≡ err (failed (report false))) ↔ (¬ MeetsSoak p rounds)))
          (sym (soak_run-soak_judge h))
          (verdict_iff report failed (all_passed gates) (
            gates-MeetsSoak p rounds (after F limits answer rounds) reached,
            MeetsSoak-gates p rounds (after F limits answer rounds) (omega arith) reached,
          ))
