-- ===== src/Gates/Rounds.antt =====
-- The state of the loop of crates/benchmark/src/soak.rs after each round.
use aether_radio_sim.Base.{
  ℕ, zero, suc, ◌+◌, ◌<◌, ◌≡◌, ◌↔◌, inl, inr, refl, sym, ap, ◌∙◌, ◌∷◌, [], ◌++◌, List, Bool, true,
  ◌&&◌, ◌==◌, ltb, if◌then◌else◌, Bool-cases, arith, min, u64_max, length, length-append,
}
use aether_radio_sim.Base.Floats.{Float64}
use aether_radio_sim.Bench.{BenchReport}
use aether_radio_sim.Health.{
  HealthState, normal, state_eq, HealthThresholds, HealthManager, manager_new, evaluate,
}
use aether_radio_sim.Metrics.{MetricsEngine}
use aether_radio_sim.Gates.Acceptance.{state_eq_iff}
use aether_radio_sim.Gates.{
  SoakRoundHealth, SoakState, all_normal, aggregated, soak_round, soak_start,
}

all_normal-append :
    (hs : List SoakRoundHealth) (h : SoakRoundHealth)
    → all_normal (hs ++ (h ∷ [])) ≡ (all_normal hs && state_eq h.health normal)
unfolding all_normal state_eq
all_normal-append [] h = ground arith
all_normal-append (x ∷ hs) h = ground (arith, all_normal-append hs h)

both : (a b : Bool) → (a && b) ≡ true → (a ≡ true) × (b ≡ true)
both a b e = (ground arith, ground arith)

append-all_normal :
    (P : ℕ → HealthState) (n : ℕ) (hs : List SoakRoundHealth) (h : SoakRoundHealth)
    → h.health ≡ P n
    → (all_normal hs ≡ true) ↔ ((i : ℕ) → i < n → P i ≡ normal)
    → (all_normal (hs ++ (h ∷ [])) ≡ true) ↔ ((i : ℕ) → i < suc n → P i ≡ normal)
append-all_normal P n hs h e (to, from) = (
  λ t i l.
      let (earlier, last) =
        both (all_normal hs) (state_eq h.health normal) (sym (all_normal-append hs h) ∙ t) in
      elim (Bool-cases (ltb i n)) [
        | inl b ↦ let before : i < n = ground arith in to earlier i before
        | inr b ↦
            let i_is : i ≡ n = ground arith in
            ap P i_is ∙ sym e ∙ (state_eq_iff h.health normal).0 last
      ],
  λ f.
      let earlier = from (λ i l. f i (omega arith)) in
      let last = (state_eq_iff h.health normal).1 (e ∙ f n (omega arith)) in
      ground (arith, all_normal-append hs h),
)

-- the deadline misses of a packet
unfoldable pub miss_quotient : (F : Float64) → ℕ → ℕ → F.Num
miss_quotient F misses packets =
    if packets == 0 then F.of_nat 1 else F.div (F.of_nat misses) (F.of_nat packets)

module _ (F : Float64) (limits : HealthThresholds F)
    (answer : ℕ → BenchReport F × MetricsEngine F) where
  -- the sum of a counter over the rounds 1 to n
  unfoldable pub total : (BenchReport F → ℕ) → ℕ → ℕ
  total field zero = 0
  total field (suc n) = total field n + field (answer (suc n)).0

  -- the health manager after round n, which evaluates the metrics of every round once
  unfoldable pub manager_at : ℕ → HealthManager F
  manager_at zero = manager_new F limits
  manager_at (suc n) = (evaluate F (answer (suc n)).1.layered (manager_at n)).0

  unfoldable pub after : ℕ → SoakState F
  after zero = soak_start F limits
  after (suc n) = soak_round F (suc n) (answer (suc n)).0 (answer (suc n)).1 (after n)

  -- the part of the state that the gates read
  pub record Reached (n : ℕ) (s : SoakState F) : Type 0 where
    pub health : s.health ≡ manager_at n
    pub packets : s.aggregate.packets ≡ min (total (λ b. b.packets) n) u64_max
    pub gaps : s.aggregate.sequence_gaps ≡ min (total (λ b. b.sequence_gaps) n) u64_max
    pub misses : s.aggregate.radio.symbol_miss ≡ min (total (λ b. b.radio.symbol_miss) n) u64_max
    pub rounds : length s.round_health ≡ n
    pub normal_rounds :
        (all_normal s.round_health ≡ true) ↔ ((i : ℕ) → i < n → (manager_at (suc i)).state ≡ normal)

  pub after-Reached : (n : ℕ) → Reached n (after n)
  unfolding after total manager_at soak_start soak_round aggregated all_normal
  after-Reached zero = record {
    health = refl;
    packets = refl;
    gaps = refl;
    misses = refl;
    rounds = refl;
    normal_rounds = (λ e i l. absurd (omega arith), λ h. refl);
  }
  after-Reached (suc n) =
      let r = after-Reached n in
      record {
        health = ap (λ m. (evaluate F (answer (suc n)).1.layered m).0) r.health;
        packets = let e = r.packets in omega arith;
        gaps = let e = r.gaps in omega arith;
        misses = let e = r.misses in omega arith;
        rounds = omega (arith, length-append (after n).round_health, r.rounds);
        normal_rounds =
            append-all_normal (λ i. (manager_at (suc i)).state) n (after n).round_health
              (record {
                round = suc n;
                health = (evaluate F (answer (suc n)).1.layered (after n).health).0.state;
                packets = (answer (suc n)).0.packets;
                sequence_gaps = (answer (suc n)).0.sequence_gaps;
                recovery_actions = (answer (suc n)).0.recovery_actions;
              })
              (ap (λ m. (evaluate F (answer (suc n)).1.layered m).0.state) r.health)
              r.normal_rounds;
      }
