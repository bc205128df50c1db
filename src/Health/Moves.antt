-- ===== src/Health/Moves.antt =====
-- Which state `HealthManager` of crates/metrics-engine/src/health.rs moves to, by the figures of a
-- snapshot.
use aether_radio_sim.Base.{
  ◌+◌, ◌*◌, ◌%◌, ◌^◌, ◌<◌, ◌≡◌, ◌≢◌, ◌↔◌, ◌⊎◌, inl, inr, refl, subst, Option, none, some, Bool,
  true, false, ◌||◌, max, if◌then◌else◌, Bool-cases, arith,
}
use aether_radio_sim.Base.Floats.{Float64}
use aether_radio_sim.Health.Recovery.{evaluate-next_state, state_eq-eq}
use aether_radio_sim.Layers.{LayeredMetricsSnapshot}
use aether_radio_sim.Health.{
  HealthState, normal, warning, degraded, failed, recovery, state_eq, HealthThresholds,
  HealthManager, is_failing, is_strained, is_severe, loss_rate, latency, next_state, evaluate,
}

-- The state that follows `before` when `Fails`, `Strains` and `IsSevere` say what the figures are.
pub record Follows (Fails Strains IsSevere : Type 0) (before after : HealthState) : Type 0 where
  pub to_failed : (after ≡ failed) ↔ Fails
  pub to_degraded : (after ≡ degraded) ↔ ((¬ Fails) × Strains × IsSevere)
  pub to_warning : (after ≡ warning) ↔ ((¬ Fails) × Strains × (¬ IsSevere))
  pub to_recovery :
      (after ≡ recovery) ↔ ((¬ Fails) × (¬ Strains) × ((before ≡ failed) ⊎ (before ≡ degraded)))
  pub to_normal :
      (after ≡ normal) ↔ ((¬ Fails) × (¬ Strains) × (before ≢ failed) × (before ≢ degraded))

abbrev calm_state : HealthState → HealthState
calm_state before = if state_eq before failed || state_eq before degraded then recovery else normal

abbrev by_tests : Bool → Bool → Bool → HealthState → HealthState
by_tests f s v before =
    if f then failed else if s then if v then degraded else warning else calm_state before

by_tests-Follows :
    {P Q R : Type 0} (f s v : Bool) (before : HealthState)
    → (f ≡ true) ↔ P
    → (s ≡ true) ↔ Q
    → (v ≡ true) ↔ R
    → Follows P Q R before (by_tests f s v before)
unfolding state_eq
by_tests-Follows true s v before (holds, _) b c =
    let p = holds refl in
    record {
      to_failed = (λ h. p, λ h. refl);
      to_degraded = (λ h. ground arith, λ (n, _, _). absurd (n p));
      to_warning = (λ h. ground arith, λ (n, _, _). absurd (n p));
      to_recovery = (λ h. ground arith, λ (n, _, _). absurd (n p));
      to_normal = (λ h. ground arith, λ (n, _, _, _). absurd (n p));
    }
by_tests-Follows false true true before a (holds, _) (severe, _) = record {
  to_failed = (λ h. ground arith, λ p. ground (arith, a.1 p));
  to_degraded = (λ h. (λ p. ground (arith, a.1 p), holds refl, severe refl), λ h. refl);
  to_warning = (λ h. ground arith, λ (_, _, m). absurd (m (severe refl)));
  to_recovery = (λ h. ground arith, λ (_, m, _). absurd (m (holds refl)));
  to_normal = (λ h. ground arith, λ (_, m, _, _). absurd (m (holds refl)));
}
by_tests-Follows false true false before a (holds, _) c = record {
  to_failed = (λ h. ground arith, λ p. ground (arith, a.1 p));
  to_degraded = (λ h. ground arith, λ (_, _, r). ground (arith, c.1 r));
  to_warning =
      (λ h. (λ p. ground (arith, a.1 p), holds refl, λ r. ground (arith, c.1 r)), λ h. refl);
  to_recovery = (λ h. ground arith, λ (_, m, _). absurd (m (holds refl)));
  to_normal = (λ h. ground arith, λ (_, m, _, _). absurd (m (holds refl)));
}
by_tests-Follows false false v before a b c = record {
  to_failed = (λ h. ground arith, λ p. ground (arith, a.1 p));
  to_degraded = (λ h. ground arith, λ (_, q, _). ground (arith, b.1 q));
  to_warning = (λ h. ground arith, λ (_, q, _). ground (arith, b.1 q));
  to_recovery = (
    λ h. (λ p. ground (arith, a.1 p), λ q. ground (arith, b.1 q), ground arith),
    λ (_, _, d). ground arith,
  );
  to_normal = (
    λ h. (
      λ p. ground (arith, a.1 p),
      λ q. ground (arith, b.1 q),
      λ d. ground arith,
      λ d. ground arith,
    ),
    λ (_, _, x, y). ground arith,
  );
}

module _ (F : Float64) (t : HealthThresholds F) (snap : LayeredMetricsSnapshot F) where
  -- the lost packets for each received one
  abbrev loss : F.Num
  loss = F.div (F.of_nat snap.transport.drop) (F.of_nat (max snap.transport.rx_packets 1))

  -- too many gaps, more than four times the deadline misses, or ten times the loss; the product wraps
  abbrev pub Fails : Type 0
  Fails =
      (t.max_seq_gap_per_window < snap.transport.gap_count)
      ⊎ (((t.max_symbol_deadline_miss_per_window * 4) % 2 ^ 64 < snap.radio.deadline_miss)
          ⊎ (F.lt (F.mul t.max_loss_rate (F.of_nat 10)) loss ≡ true))

  -- a gap at all, or a figure above its limit
  abbrev pub Strains : Type 0
  Strains =
      (0 < snap.transport.gap_count)
      ⊎ ((t.max_symbol_deadline_miss_per_window < snap.radio.deadline_miss)
          ⊎ ((t.max_latency_p99_ns
                < max snap.transport.latency_last_ns snap.transport.latency_max_ns)
              ⊎ ((t.max_gpu_stall_ns < snap.memory.ring_stall_ns)
                  ⊎ (F.lt t.max_loss_rate loss ≡ true))))

  -- more than twice the latency, or too many deadline misses
  abbrev pub IsSevere : Type 0
  IsSevere =
      ((t.max_latency_p99_ns * 2) % 2 ^ 64
        < max snap.transport.latency_last_ns snap.transport.latency_max_ns)
      ⊎ (t.max_symbol_deadline_miss_per_window < snap.radio.deadline_miss)

  is_failing-Fails : (is_failing F t snap ≡ true) ↔ Fails
  unfolding is_failing loss_rate
  is_failing-Fails = (λ h. ground arith, λ h. ground arith)

  is_strained-Strains : (is_strained F t snap ≡ true) ↔ Strains
  unfolding is_strained loss_rate latency
  is_strained-Strains = (λ h. ground arith, λ h. ground arith)

  is_severe-IsSevere : (is_severe F t snap ≡ true) ↔ IsSevere
  unfolding is_severe latency
  is_severe-IsSevere = (λ h. ground arith, λ h. ground arith)

  next_state-Follows :
      (before : HealthState) → Follows Fails Strains IsSevere before (next_state F t snap before)
  unfolding next_state
  next_state-Follows before =
      by_tests-Follows (is_failing F t snap) (is_strained F t snap) (is_severe F t snap) before
        is_failing-Fails is_strained-Strains is_severe-IsSevere

-- The manager after an evaluation, and what the evaluation returns.
pub record Moved (F : Float64) (snap : LayeredMetricsSnapshot F) (m : HealthManager F)
    (answer : HealthManager F × Option HealthState) : Type 0 where
  pub follows :
      Follows
        (Fails F m.thresholds snap)
        (Strains F m.thresholds snap)
        (IsSevere F m.thresholds snap)
        m.state
        answer.0.state
  pub thresholds : answer.0.thresholds ≡ m.thresholds
  pub counted :
      ((answer.0.state ≡ m.state) × (answer.0.transitions ≡ m.transitions) × (answer.1 ≡ none))
      ⊎ ((answer.0.state ≢ m.state)
          × (answer.0.transitions ≡ (m.transitions + 1) % 2 ^ 64)
          × (answer.1 ≡ some m.state))

state_ne : (s t : HealthState) → state_eq s t ≡ false → s ≢ t
unfolding state_eq
state_ne s t h = λ e. ground arith

-- An evaluation moves to Failed exactly for figures that fail; else, for strained ones, to Degraded when
-- they are severe and to Warning when not; else to Recovery from Failed and Degraded, and to Normal from
-- the others. It returns the state that it leaves and counts the change, modulo 2^64, exactly when the
-- two differ.
pub evaluate_lem :
    (F : Float64) (snap : LayeredMetricsSnapshot F) (m : HealthManager F)
    → Moved F snap m (evaluate F snap m)
evaluate_lem F snap m =
    let next = next_state F m.thresholds snap m.state in
    let follows = next_state-Follows F m.thresholds snap m.state in
    elim (Bool-cases (state_eq next m.state)) [
      | inl e ↦
          let same = state_eq-eq next m.state e in
          rw (evaluate-next_state F snap m, e)
            (record {
              follows =
                  subst
                    (Follows (Fails F m.thresholds snap) (Strains F m.thresholds snap)
                      (IsSevere F m.thresholds snap) m.state)
                    same follows;
              thresholds = refl;
              counted = inl (refl, refl, refl);
            })
      | inr e ↦
          rw (evaluate-next_state F snap m, e)
            (record {
              follows = follows;
              thresholds = refl;
              counted = inr (state_ne next m.state e, refl, refl);
            })
    ]
