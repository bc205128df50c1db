-- ===== src/Health/Recovery.antt =====
-- How `HealthManager` of crates/metrics-engine/src/health.rs moves between its states.
use aether_radio_sim.Base.{
  ◌≡◌, refl, ap, sym, ◌∙◌, subst, none, some, true, false, ◌&&◌, ◌||◌, if◌then◌else◌, wrapping_add,
  Bool-cases, inl, inr, arith,
}
use aether_radio_sim.Base.Floats.{Float64}
use aether_radio_sim.Layers.{LayeredMetricsSnapshot}
use aether_radio_sim.Health.{
  HealthState, normal, degraded, failed, recovery, state_eq, HealthThresholds, HealthManager,
  is_failing, is_strained, next_state, evaluate,
}

pub state_eq-eq : (s t : HealthState) → state_eq s t ≡ true → s ≡ t
unfolding state_eq
state_eq-eq s t h = ground (arith, h)

state_eq_refl : (s : HealthState) → state_eq s s ≡ true
unfolding state_eq
state_eq_refl s = ground arith

never_both : (s : HealthState) → (state_eq s recovery && state_eq s normal) ≡ false
unfolding state_eq
never_both s = ground arith

-- What a clean snapshot makes of a state.
abbrev pub relieved : HealthState → HealthState
relieved s = if state_eq s failed || state_eq s degraded then recovery else normal

relieved_twice : (s : HealthState) → relieved (relieved s) ≡ normal
unfolding state_eq
relieved_twice s = ground arith

module _ (F : Float64) where
  -- `evaluate` moves to the next state; it counts and returns the state that it leaves exactly when that
  -- differs, so its last branch, from Recovery to Normal, is never taken.
  pub evaluate-next_state :
      (snap : LayeredMetricsSnapshot F) (m : HealthManager F)
      → let next = next_state F m.thresholds snap m.state in
        evaluate F snap m ≡ (
          if state_eq next m.state then (m, none) else (
            record m { state = next; transitions = wrapping_add m.transitions 1 },
            some m.state,
          ))
  unfolding evaluate
  evaluate-next_state snap m =
      let next = next_state F m.thresholds snap m.state in
      elim (Bool-cases (state_eq next m.state)) [
        | inl e ↦
            let not_there : (state_eq m.state recovery && state_eq next normal) ≡ false =
              subst (λ n. (state_eq m.state recovery && state_eq n normal) ≡ false)
                (sym (state_eq-eq next m.state e)) (never_both m.state) in
            rw (e, not_there, evaluate) refl
        | inr e ↦ rw (e, evaluate) refl
      ]

  evaluate_state :
      (snap : LayeredMetricsSnapshot F) (m : HealthManager F)
      → ((evaluate F snap m).0.state ≡ next_state F m.thresholds snap m.state)
        × ((evaluate F snap m).0.thresholds ≡ m.thresholds)
  evaluate_state snap m =
      let next = next_state F m.thresholds snap m.state in
      elim (Bool-cases (state_eq next m.state)) [
        | inl e ↦ rw (evaluate-next_state snap m, e) (sym (state_eq-eq next m.state e), refl)
        | inr e ↦ rw (evaluate-next_state snap m, e) (refl, refl)
      ]

  -- A snapshot that no threshold complains of.
  pub record IsClean (t : HealthThresholds F) (snap : LayeredMetricsSnapshot F) : Type 0 where
    pub not_failing : is_failing F t snap ≡ false
    pub not_strained : is_strained F t snap ≡ false

  next_state-IsClean :
      (t : HealthThresholds F) (snap : LayeredMetricsSnapshot F) (s : HealthState)
      → IsClean t snap
      → next_state F t snap s ≡ relieved s
  unfolding next_state
  next_state-IsClean t snap s c = rw (c.not_failing, c.not_strained, next_state) refl

  -- After two clean snapshots the state is Normal, from whatever state; after one it is Recovery from
  -- Failed and Degraded, and Normal from the others.
  pub evaluate-IsClean :
      (snap1 snap2 : LayeredMetricsSnapshot F) (m : HealthManager F)
      → IsClean m.thresholds snap1
      → IsClean m.thresholds snap2
      → let m1 = (evaluate F snap1 m).0 in
        let m2 = (evaluate F snap2 m1).0 in (m1.state ≡ relieved m.state) × (m2.state ≡ normal)
  evaluate-IsClean snap1 snap2 m c d =
      let (state1, same) = evaluate_state snap1 m in
      let m1 = (evaluate F snap1 m).0 in
      let first : m1.state ≡ relieved m.state =
        state1 ∙ next_state-IsClean m.thresholds snap1 m.state c in
      let d' : IsClean m1.thresholds snap2 = subst (λ t. IsClean t snap2) (sym same) d in
      (
        first,
        (evaluate_state snap2 m1).0
            ∙ (next_state-IsClean m1.thresholds snap2 m1.state d'
                ∙ (ap relieved first ∙ relieved_twice m.state)),
      )
