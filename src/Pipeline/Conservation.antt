-- ===== src/Pipeline/Conservation.antt =====
-- No packet is lost on its way through `PipelineBench::run` of crates/benchmark/src/pipeline.rs: what
-- the emulators emit is delivered, late, or dropped by the injector.
use aether_radio_sim.Base.{
  ℕ, zero, suc, ◌+◌, ◌*◌, ◌%◌, ◌≤◌, ◌≡◌, refl, ap, sym, subst, List, [], ◌∷◌, none, some, Option,
  Result, ok, err, length, length-append, All, wrapping_add, arith, inl, inr, u64_mod,
}
use aether_radio_sim.Base.Floats.{Float64, Float32}
use aether_radio_sim.Base.Machine.{Method, ◌>>=◌, pure}
use aether_radio_sim.Types.{Packet, StreamId}
use aether_radio_sim.Ethernet.{EthernetModelConfig}
use aether_radio_sim.Fault.{
  FaultInjectionConfig, FaultInjector, injector_new, mutate_packet, push, flush, pass, tick_hold,
  listed,
}
use aether_radio_sim.Fpga.{FpgaEmulator, emit_symbol, packetize}
use aether_radio_sim.Fpga.Emission.{length-emit_symbol}
use aether_radio_sim.Pipeline.{BenchProfile, PipelineBenchError, PipelineState, process_one}
use aether_radio_sim.Pipeline.Run.{
  process_all, emit_round, emit_symbols, flush_loop, while_some, stream_through,
}
use aether_radio_sim.Pipeline.Delivery.{IsIdle, process_one-Handled}

module _ (F : Float64) where
  -- what is delivered or late, as a `u64` counts
  abbrev pub count : PipelineState F → ℕ
  count s = (length s.latencies + s.transport.late_packets) % u64_mod

  module _ (p : BenchProfile) (eth : EthernetModelConfig F) (fault : FaultInjectionConfig F)
      (ids : StreamId → Type 0) (bytes : ℕ) where
    abbrev pub Idle : PipelineState F → Type 0
    Idle = IsIdle F p eth fault ids bytes

    -- A call succeeds with a value and a number of packets that it has handled.
    pub record Handles {A : Type 0} (Q : A → ℕ → Type 0) (s : PipelineState F)
        (x : PipelineState F × Result PipelineBenchError A) : Type 0 where
      pub value : A
      pub answer : x.1 ≡ ok value
      pub handled : ℕ
      pub idle : Idle x.0
      pub counted : count x.0 ≡ (count s + handled) % u64_mod
      pub result : Q value handled

    Handles->>= :
        {A B : Type 0} (Q : A → ℕ → Type 0) (R : B → ℕ → Type 0)
        (m : Method (PipelineState F) PipelineBenchError A)
        (f : A → Method (PipelineState F) PipelineBenchError B) (s : PipelineState F)
        → Handles Q s (m s)
        → ((a : A) (n : ℕ) (t : PipelineState F)
            → Idle t
            → Q a n
            → Handles (λ b k. R b (n + k)) t (f a t))
        → Handles R s ((m >>= f) s)
    Handles->>= {A} {B} Q R m f s h next = go (m s) h
      where
        go :
            (x : PipelineState F × Result PipelineBenchError A)
            → Handles Q s x
            → Handles R s (elim x.1 as (λ _. PipelineState F × Result PipelineBenchError B) [
              | ok a ↦ f a x.0
              | err e ↦ (x.0, err e)
            ])
        go (t, ok a) v =
            let same : a ≡ v.value = ground (arith, v.answer) in
            let w = next a v.handled t v.idle (subst (λ y. Q y v.handled) (sym same) v.result) in
            record {
              value = w.value;
              answer = w.answer;
              handled = v.handled + w.handled;
              idle = w.idle;
              counted = omega (arith, w.counted, v.counted);
              result = w.result;
            }
        go (t, err e) v = absurd (ground (arith, v.answer))

    Handles_pure :
        {A : Type 0} (Q : A → ℕ → Type 0) (a : A) (s : PipelineState F)
        → Idle s
        → Q a 0
        → Handles Q s (pure {S = PipelineState F} {E = PipelineBenchError} a s)
    Handles_pure Q a s v q = record {
      value = a;
      answer = refl;
      handled = 0;
      idle = v;
      counted = omega arith;
      result = q;
    }

    -- A packet that the pipeline can take.
    record Fits (packet : Packet) : Type 0 where
      mine : ids packet.stream_id
      fits : length packet.payload ≤ bytes

    one_handled :
        (packet : Packet) (s : PipelineState F)
        → Fits packet
        → Idle s
        → Handles (λ _ n. n ≡ 1) s (process_one F p eth fault packet s)
    one_handled packet s w v =
        let h = process_one-Handled F p eth fault ids bytes packet w.fits s w.mine v in
        record {
          value = tt;
          answer = h.answer;
          handled = 1;
          idle = h.idle;
          counted = elim h.fate [
            | inl (e2e, delivered, lates) ↦
                omega (arith, ap length delivered, length-append s.latencies (e2e ∷ []), lates)
            | inr (same, late) ↦ omega (arith, ap length same, late)
          ];
          result = refl;
        }

    all_handled :
        (G : Float32) (packets : List Packet) (s : PipelineState F)
        → All Fits packets
        → Idle s
        → Handles (λ _ n. n ≡ length packets) s (process_all F G p eth fault packets s)
    unfolding process_all
    all_handled G [] s w v = Handles_pure (λ _ n. n ≡ 0) tt s v refl
    all_handled G (packet ∷ rest) s w v =
        Handles->>= (λ _ n. n ≡ 1) (λ _ n. n ≡ suc (length rest)) (process_one F p eth fault packet)
          (λ _. process_all F G p eth fault rest) s (one_handled packet s w.0 v)
          (λ _ n t u one.
            let h = all_handled G rest t w.1 u in
            record {
              value = h.value;
              answer = h.answer;
              handled = h.handled;
              idle = h.idle;
              counted = h.counted;
              result = omega (arith, h.result, one);
            })

    mutated_same :
        (packet : Packet)
        → let packet' = mutate_packet F fault packet in
          (packet'.stream_id ≡ packet.stream_id) × (packet'.payload ≡ packet.payload)
    unfolding mutate_packet
    mutated_same packet = (ground arith, ground arith)

    mutated-Fits : (packet : Packet) → Fits packet → Fits (mutate_packet F fault packet)
    mutated-Fits packet w =
        let (stream, payload) = mutated_same packet in
        record {
          mine = subst ids (sym stream) w.mine;
          fits = subst (λ xs. length xs ≤ bytes) (sym payload) w.fits;
        }

    -- what the injector holds can be taken
    record HoldsFitting (inj : FaultInjector F) : Type 0 where
      held : All Fits (listed F inj.held)
      policy : inj.cfg ≡ fault

    abbrev backlog : FaultInjector F → ℕ
    backlog inj = length (listed F inj.held) + inj.dropped

    -- What an injector that let packets out has of the packets that it got.
    record Passes (n : ℕ) (inj : FaultInjector F) (x : FaultInjector F × List Packet) : Type 0 where
      out : All Fits x.1
      after : HoldsFitting x.0
      balance : (length x.1 + backlog x.0) % u64_mod ≡ (backlog inj + n) % u64_mod

    tick_hold-Passes :
        (inj : FaultInjector F)
        → HoldsFitting inj
        → let (inj', out) = tick_hold F inj in Passes 0 inj (inj', listed F out)
    unfolding tick_hold
    tick_hold-Passes inj w = ground arith

    pass-Passes :
        (packet : Packet) (inj : FaultInjector F)
        → Fits packet
        → HoldsFitting inj
        → Passes 1 inj (pass F packet inj)
    unfolding pass tick_hold
    pass-Passes packet inj f w = ground arith

    push-Passes :
        (packet : Packet) (inj : FaultInjector F)
        → Fits packet
        → HoldsFitting inj
        → Passes 1 inj (push F packet inj)
    unfolding push
    push-Passes packet inj f w = ground (
      arith,
      pass-Passes (mutate_packet F fault packet) inj (mutated-Fits packet f) w,
      tick_hold-Passes (record inj { dropped = wrapping_add inj.dropped 1 }),
    )

    module _ (G : Float32) where
      -- An emulator whose packets can be taken.
      pub record EmitsFitting (e : FpgaEmulator G) : Type 0 where
        pub mine : ids e.stream_id
        pub fits : 8 * e.iq ≤ bytes

      emit_symbol-Fits :
          (e : FpgaEmulator G)
          → EmitsFitting e
          → let (e', packet) = emit_symbol G e in EmitsFitting e' × Fits packet
      unfolding emit_symbol packetize
      emit_symbol-Fits e w = (
        record { mine = w.mine; fits = w.fits },
        record { mine = w.mine; fits = omega (arith, length-emit_symbol G e, w.fits) },
      )

      -- What a round makes of the emulators and the injector.
      record Round (fpgas : List (FpgaEmulator G)) (inj : FaultInjector F)
          (x : List (FpgaEmulator G) × FaultInjector F) (n : ℕ) : Type 0 where
        emit : All EmitsFitting x.0
        many : length x.0 ≡ length fpgas
        after : HoldsFitting x.1
        balance : (n + backlog x.1) % u64_mod ≡ (backlog inj + length fpgas) % u64_mod

      Round-handled :
          (fpgas : List (FpgaEmulator G)) (inj : FaultInjector F) (s : PipelineState F)
          → All EmitsFitting fpgas
          → HoldsFitting inj
          → Idle s
          → Handles (Round fpgas inj) s (emit_round F G p eth fault fpgas inj s)
      unfolding emit_round
      Round-handled [] inj s w h v =
          Handles_pure (Round [] inj) ([], inj) s v
            (record { emit = tt; many = refl; after = h; balance = omega arith })
      Round-handled (fpga ∷ fpgas) inj s w h v =
          let (fpga', emitted) = emit_symbol G fpga in
          let (next, packet_fits) = emit_symbol-Fits fpga w.0 in
          let (inj', out) = push F emitted inj in
          let passed = push-Passes emitted inj packet_fits h in
          Handles->>= (λ _ n. n ≡ length out) (Round (fpga ∷ fpgas) inj)
            (process_all F G p eth fault out)
            (λ _. emit_round F G p eth fault fpgas inj' >>= λ x. pure (fpga' ∷ x.0, x.1)) s
            (all_handled G out s passed.out v)
            (λ _ n t u all.
              Handles->>= (Round fpgas inj') (λ x k. Round (fpga ∷ fpgas) inj x (n + k))
                (emit_round F G p eth fault fpgas inj') (λ x. pure (fpga' ∷ x.0, x.1)) t
                (Round-handled fpgas inj' t w.1 passed.after u)
                (λ x k t' u' r.
                  Handles_pure (λ y j. Round (fpga ∷ fpgas) inj y (n + (k + j))) (fpga' ∷ x.0, x.1)
                    t' u'
                    (record {
                      emit = (next, r.emit);
                      many = omega (arith, r.many);
                      after = r.after;
                      balance = omega (arith, r.balance, passed.balance, all);
                    })))

      one_more : (n k : ℕ) → suc n * k ≡ n * k + k
      one_more n k = grind arith

      record Symbols (total : ℕ) (inj inj' : FaultInjector F) (n : ℕ) : Type 0 where
        after : HoldsFitting inj'
        balance : (n + backlog inj') % u64_mod ≡ (backlog inj + total) % u64_mod

      Symbols-handled :
          (n : ℕ) (fpgas : List (FpgaEmulator G)) (inj : FaultInjector F) (s : PipelineState F)
          → All EmitsFitting fpgas
          → HoldsFitting inj
          → Idle s
          → Handles (Symbols (n * length fpgas) inj) s (emit_symbols F G p eth fault n fpgas inj s)
      unfolding emit_symbols
      Symbols-handled zero fpgas inj s w h v =
          Handles_pure (Symbols (0 * length fpgas) inj) inj s v
            (record { after = h; balance = omega arith })
      Symbols-handled (suc n) fpgas inj s w h v =
          Handles->>= (Round fpgas inj) (Symbols (suc n * length fpgas) inj)
            (emit_round F G p eth fault fpgas inj) (λ x. emit_symbols F G p eth fault n x.0 x.1) s
            (Round-handled fpgas inj s w h v)
            (λ x k t u r.
              let later = Symbols-handled n x.0 x.1 t r.emit r.after u in
              record {
                value = later.value;
                answer = later.answer;
                handled = later.handled;
                idle = later.idle;
                counted = later.counted;
                result = record {
                  after = later.result.after;
                  balance = omega (
                    arith,
                    later.result.balance,
                    r.balance,
                    ap {B = ℕ} (λ m. n * m) r.many,
                    one_more n (length fpgas),
                  );
                };
              })

      -- The loop that empties the injector.
      record Flushed (inj : FaultInjector F) (o : Option (FaultInjector F)) (n : ℕ) : Type 0 where
        last : FaultInjector F
        ended : o ≡ some last
        dropped : last.dropped ≡ inj.dropped
        held : n ≡ length (listed F inj.held)

      flush_handled :
          (inj : FaultInjector F) (s : PipelineState F)
          → HoldsFitting inj
          → Idle s
          → Handles (Flushed inj) s (flush_loop F G p eth fault 2 inj s)
      unfolding flush_loop flush
      flush_handled inj s h v = go inj.held refl
        where
          emptied : FaultInjector F
          emptied = record inj { held_countdown = 0; held = none }

          go :
              (held : Option Packet)
              → inj.held ≡ held
              → Handles (Flushed inj) s (
                  while_some F G p eth fault held
                    (pure (some emptied))
                    (λ packet. process_one F p eth fault packet >>= λ _. pure (some emptied))
                    s)
          go none e =
              Handles_pure (Flushed inj) (some emptied) s v
                (record { last = emptied; ended = refl; dropped = refl; held = ground (arith, e) })
          go (some packet) e =
              let fits : All Fits (listed F (some packet)) =
                subst (λ o. All Fits (listed F o)) e h.held in
              Handles->>= (λ _ n. n ≡ 1) (Flushed inj) (process_one F p eth fault packet)
                (λ _. pure (some emptied)) s (one_handled packet s fits.0 v)
                (λ _ n t u one.
                  Handles_pure (λ o k. Flushed inj o (n + k)) (some emptied) t u
                    (record {
                      last = emptied;
                      ended = refl;
                      dropped = refl;
                      held = ground (arith, e, one);
                    }))

      -- Every packet that is emitted is handled or dropped.
      pub record Conserves (total : ℕ) (o : Option (FaultInjector F)) (n : ℕ) : Type 0 where
        pub last : FaultInjector F
        pub ended : o ≡ some last
        pub balance : (n + last.dropped) % u64_mod ≡ total % u64_mod

      new_fits : HoldsFitting (injector_new F fault)
      unfolding injector_new
      new_fits = record { held = tt; policy = refl }

      pub stream_handled :
          (fpgas : List (FpgaEmulator G)) (s : PipelineState F)
          → All EmitsFitting fpgas
          → Idle s
          → Handles
              (Conserves (p.symbol_count * length fpgas))
              s
              (stream_through F G p eth fault fpgas s)
      unfolding stream_through injector_new
      stream_handled fpgas s w v =
          let inj = injector_new F fault in
          let total = p.symbol_count * length fpgas in
          Handles->>= (Symbols total inj) (Conserves total)
            (emit_symbols F G p eth fault p.symbol_count fpgas inj) (flush_loop F G p eth fault 2) s
            (Symbols-handled p.symbol_count fpgas inj s w new_fits v)
            (λ inj' n t u r.
              let h = flush_handled inj' t r.after u in
              record {
                value = h.value;
                answer = h.answer;
                handled = h.handled;
                idle = h.idle;
                counted = h.counted;
                result = record {
                  last = h.result.last;
                  ended = h.result.ended;
                  balance = omega (arith, r.balance, h.result.dropped, h.result.held);
                };
              })
