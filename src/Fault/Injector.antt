-- ===== src/Fault/Injector.antt =====
-- What the injector of crates/fault-injection/src/lib.rs does to a stream of packets: what it does not
-- drop comes out, once.
use aether_radio_sim.Base.{
  ℕ, ◌+◌, ◌%◌, ◌^◌, ◌<◌, ◌≡◌, refl, ap, sym, ◌∙◌, subst, List, [], ◌∷◌, ◌++◌, none, Bool, true,
  false, if◌then◌else◌, wrapping_add, Bool-cases, inl, inr, ◌⊎◌, arith,
}
use aether_radio_sim.Base.Floats.{Float64}
use aether_radio_sim.Base.Search.{count_where}
use aether_radio_sim.Types.{Packet}
use aether_radio_sim.Fault.{
  FaultInjectionConfig, FaultInjector, injector_new, mutate_packet, should_drop,
  should_drop_deterministic, should_drop_burst, tick_hold, listed, pass, push, flush,
}

count_where-append :
    (f : Packet → Bool) (ps qs : List Packet)
    → count_where f (ps ++ qs) ≡ count_where f ps + count_where f qs
unfolding count_where
count_where-append f [] qs = omega arith
count_where-append f (p ∷ ps) qs = ground (arith, count_where-append f ps qs)

module _ (F : Float64) where
  -- The packets of a stream that are not dropped, as they are sent on.
  unfoldable pub survivors : FaultInjectionConfig F → List Packet → List Packet
  survivors cfg [] = []
  survivors cfg (p ∷ ps) =
      let rest = survivors cfg ps in
      let q = mutate_packet F cfg p in if should_drop F cfg q.sequence then rest else q ∷ rest

  -- how many are dropped
  unfoldable pub losses : FaultInjectionConfig F → List Packet → ℕ
  losses cfg [] = 0
  losses cfg (p ∷ ps) =
      let rest = losses cfg ps in
      if should_drop F cfg (mutate_packet F cfg p).sequence then rest + 1 else rest

  -- A stream pushed packet by packet, and all that comes out.
  unfoldable pub run : List Packet → FaultInjector F → FaultInjector F × List Packet
  run [] inj = (inj, [])
  run (p ∷ ps) inj =
      let (next, out) = push F p inj in let (last, rest) = run ps next in (last, out ++ rest)

  tick_hold_count :
      (f : Packet → Bool) (inj : FaultInjector F)
      → let (inj', out) = tick_hold F inj in
        (count_where f (listed F inj.held)
          ≡ count_where f (listed F out) + count_where f (listed F inj'.held))
        × (inj'.cfg ≡ inj.cfg)
        × (inj'.dropped ≡ inj.dropped)
  unfolding tick_hold count_where
  tick_hold_count f inj = ground arith

  pass_count :
      (f : Packet → Bool) (p : Packet) (inj : FaultInjector F)
      → let (inj', out) = pass F p inj in
        (count_where f (listed F inj.held) + count_where f (p ∷ [])
          ≡ count_where f out + count_where f (listed F inj'.held))
        × (inj'.cfg ≡ inj.cfg)
        × (inj'.dropped ≡ inj.dropped)
  unfolding pass count_where
  pass_count f p inj = ground arith

  push_count :
      (f : Packet → Bool) (p : Packet) (inj : FaultInjector F)
      → let (inj', out) = push F p inj in
        (count_where f (listed F inj.held) + count_where f (survivors inj.cfg (p ∷ []))
          ≡ count_where f out + count_where f (listed F inj'.held))
        × (inj'.cfg ≡ inj.cfg)
        × (inj'.dropped ≡ (
            if should_drop F inj.cfg (mutate_packet F inj.cfg p).sequence
            then wrapping_add inj.dropped 1
            else inj.dropped))
  unfolding push survivors count_where
  push_count f p inj =
      let q = mutate_packet F inj.cfg p in
      ground (
        arith,
        pass_count f q inj,
        tick_hold_count f (record inj { dropped = wrapping_add inj.dropped 1 }),
      )

  survivors-cons :
      (f : Packet → Bool) (cfg : FaultInjectionConfig F) (p : Packet) (ps : List Packet)
      → count_where f (survivors cfg (p ∷ ps))
        ≡ count_where f (survivors cfg (p ∷ [])) + count_where f (survivors cfg ps)
  unfolding survivors count_where
  survivors-cons f cfg p ps = ground arith

  run_count :
      (f : Packet → Bool) (ps : List Packet) (inj : FaultInjector F)
      → let (last, out) = run ps inj in
        count_where f (listed F inj.held) + count_where f (survivors inj.cfg ps)
        ≡ count_where f out + count_where f (listed F last.held)
  unfolding run survivors count_where
  run_count f [] inj = omega arith
  run_count f (p ∷ ps) inj =
      let (next, out) = push F p inj in
      let (here, same, _) = push_count f p inj in
      omega (
        arith,
        here,
        survivors-cons f inj.cfg p ps,
        ap (λ c. count_where f (survivors c ps)) same,
        run_count f ps next,
        count_where-append f out (run ps next).1,
      )

  run_dropped :
      (ps : List Packet) (inj : FaultInjector F)
      → inj.dropped < 2 ^ 64
      → (run ps inj).0.dropped ≡ (inj.dropped + losses inj.cfg ps) % 2 ^ 64
  unfolding run losses
  run_dropped [] inj h = omega arith
  run_dropped (p ∷ ps) inj h =
      let (next, out) = push F p inj in
      let (_, same, dropped) = push_count (λ _. true) p inj in
      elim (Bool-cases (should_drop F inj.cfg (mutate_packet F inj.cfg p).sequence)) [
        | inl e ↦ ground (arith, e, dropped, ap (λ c. losses c ps) same, run_dropped ps next)
        | inr e ↦ ground (arith, e, dropped, ap (λ c. losses c ps) same, run_dropped ps next)
      ]

  -- From a new injector, a stream pushed and then flushed comes out, perhaps in another order, as its
  -- survivors, none twice: any test holds of as many packets that come out as of those. The counter is
  -- the number dropped, as a `u64` counts, and nothing stays held.
  pub run-survivors :
      (cfg : FaultInjectionConfig F) (ps : List Packet)
      → let (last, out) = run ps (injector_new F cfg) in
        let (after, tail) = flush F last in
        ((f : Packet → Bool)
          → count_where f (out ++ listed F tail) ≡ count_where f (survivors cfg ps))
        × (after.dropped ≡ losses cfg ps % 2 ^ 64)
        × (after.held ≡ none)
  unfolding flush injector_new count_where
  run-survivors cfg ps =
      let start = injector_new F cfg in
      let (last, out) = run ps start in
      let none_held : (f : Packet → Bool) → count_where f (listed F start.held) ≡ 0 = λ f. refl in
      let same : (f : Packet → Bool)
          → count_where f (out ++ listed F last.held) ≡ count_where f (survivors cfg ps) =
        λ f.
          count_where-append f out (listed F last.held)
          ∙ sym (run_count f ps start)
          ∙ ap (λ n. n + count_where f (survivors cfg ps)) (none_held f)
          ∙ omega arith in
      let counted : last.dropped ≡ losses cfg ps % 2 ^ 64 =
        run_dropped ps start (omega arith) ∙ omega arith in
      (same, counted, refl)

  -- A policy that does not reorder, on an injector that holds nothing.
  pub record IsPlain (inj : FaultInjector F) : Type 0 where
    pub none_held : inj.held ≡ none
    pub no_reorder : (inj.cfg.reorder_distance ≡ 0) ⊎ (inj.cfg.enabled ≡ false)

  push-IsPlain :
      (p : Packet) (inj : FaultInjector F)
      → IsPlain inj
      → let (inj', out) = push F p inj in
        (out ≡ survivors inj.cfg (p ∷ [])) × IsPlain inj' × (inj'.cfg ≡ inj.cfg)
  unfolding push pass tick_hold survivors
  push-IsPlain p inj v =
      let (_, same, _) = push_count (λ _. true) p inj in
      (
        elim v.no_reorder [
          | inl h ↦ ground (arith, v.none_held, h)
          | inr h ↦ ground (arith, v.none_held, h)
        ],
        record {
          none_held = elim v.no_reorder [
            | inl h ↦ ground (arith, v.none_held, h)
            | inr h ↦ ground (arith, v.none_held, h)
          ];
          no_reorder =
              subst (λ c. (c.reorder_distance ≡ 0) ⊎ (c.enabled ≡ false)) (sym same) v.no_reorder;
        },
        same,
      )

  survivors-append :
      (cfg : FaultInjectionConfig F) (p : Packet) (ps : List Packet)
      → survivors cfg (p ∷ ps) ≡ survivors cfg (p ∷ []) ++ survivors cfg ps
  unfolding survivors
  survivors-append cfg p ps = ground arith

  survivors_disabled :
      (cfg : FaultInjectionConfig F) (ps : List Packet)
      → cfg.enabled ≡ false
      → survivors cfg ps ≡ ps
  unfolding survivors mutate_packet should_drop should_drop_deterministic should_drop_burst
  survivors_disabled cfg [] off = refl
  survivors_disabled cfg (p ∷ ps) off = ground (arith, off, survivors_disabled cfg ps off)

  run-IsPlain :
      (ps : List Packet) (inj : FaultInjector F)
      → IsPlain inj
      → (run ps inj).1 ≡ survivors inj.cfg ps
  unfolding run survivors
  run-IsPlain [] inj v = refl
  run-IsPlain (p ∷ ps) inj v =
      let (out, plain, same) = push-IsPlain p inj v in
      ap (λ xs. xs ++ (run ps (push F p inj).0).1) out
      ∙ (ap (λ xs. survivors inj.cfg (p ∷ []) ++ xs)
            (run-IsPlain ps (push F p inj).0 plain ∙ ap (λ c. survivors c ps) same)
          ∙ sym (survivors-append inj.cfg p ps))

  -- Without reordering, a new injector lets out what is not dropped, in order.
  pub run_plain :
      (cfg : FaultInjectionConfig F) (ps : List Packet)
      → cfg.reorder_distance ≡ 0
      → (run ps (injector_new F cfg)).1 ≡ survivors cfg ps
  unfolding injector_new
  run_plain cfg ps h =
      run-IsPlain ps (injector_new F cfg) (record { none_held = refl; no_reorder = inl h })

  -- A new injector whose policy is not enabled lets every packet out as it is.
  pub run_disabled :
      (cfg : FaultInjectionConfig F) (ps : List Packet)
      → cfg.enabled ≡ false
      → (run ps (injector_new F cfg)).1 ≡ ps
  unfolding injector_new
  run_disabled cfg ps off =
      run-IsPlain ps (injector_new F cfg) (record { none_held = refl; no_reorder = inr off })
      ∙ survivors_disabled cfg ps off
