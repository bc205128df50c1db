-- ===== src/Fault/Carried.antt =====
-- The stream that the injector of crates/fault-injection/src/lib.rs lets out, with what its policy does
-- to the fields of a packet written out.
use aether_radio_sim.Base.{
  ℕ, ◌+◌, ◌-◌, ◌%◌, ◌^◌, ◌≡◌, refl, ap, ap₂, ◌∙◌, List, [], ◌∷◌, ◌++◌, none, Bool, if◌then◌else◌,
  min, arith, All,
}
use aether_radio_sim.Base.Integers.{ℤ, pos, negsuc}
use aether_radio_sim.Base.Floats.{Float64}
use aether_radio_sim.Base.Search.{count_where}
use aether_radio_sim.Types.{Packet, InRange}
use aether_radio_sim.Fault.{
  FaultInjectionConfig, injector_new, mutate_packet, should_drop, listed, flush, skewed, is_skew,
}
use aether_radio_sim.Fault.Injector.{survivors, losses, run, run-survivors}

-- a time that is moved: below zero it is zero, and it has 64 bits
abbrev pub moved : ℤ → ℕ → ℕ
moved (pos n) time = (time + n) % 2 ^ 64
moved (negsuc n) time = time - (n + 1)

module _ (F : Float64) (cfg : FaultInjectionConfig F) where
  -- a packet as an enabled policy sends it on
  abbrev pub disturbed : Packet → Packet
  disturbed p = record {
    stream_id = p.stream_id;
    sequence = min (p.sequence + cfg.sequence_jump) (2 ^ 64 - 1);
    timestamp = moved cfg.timestamp_skew_ns p.timestamp;
    payload = p.payload;
  }

  abbrev pub carried : Packet → Packet
  carried p = if cfg.enabled then disturbed p else p

  mutate_packet-carried : (p : Packet) → InRange p → mutate_packet F cfg p ≡ carried p
  unfolding mutate_packet skewed is_skew
  mutate_packet-carried p v = ground (arith, v.sequence, v.timestamp)

  -- The packets that are not dropped, as they are carried: the tests see the number that is sent.
  unfoldable pub sent_on : List Packet → List Packet
  sent_on [] = []
  sent_on (p ∷ ps) =
      let rest = sent_on ps in
      if should_drop F cfg (carried p).sequence then rest else carried p ∷ rest

  -- how many are dropped
  unfoldable pub lost : List Packet → ℕ
  lost [] = 0
  lost (p ∷ ps) =
      let rest = lost ps in if should_drop F cfg (carried p).sequence then rest + 1 else rest

  survivors-sent_on : (ps : List Packet) → All InRange ps → survivors F cfg ps ≡ sent_on ps
  unfolding survivors sent_on
  survivors-sent_on [] a = refl
  survivors-sent_on (p ∷ ps) (v, a) =
      ap₂ (λ q rest. if should_drop F cfg q.sequence then rest else q ∷ rest)
        (mutate_packet-carried p v) (survivors-sent_on ps a)

  losses-lost : (ps : List Packet) → All InRange ps → losses F cfg ps ≡ lost ps
  unfolding losses lost
  losses-lost [] a = refl
  losses-lost (p ∷ ps) (v, a) =
      ap₂ (λ (q : Packet) rest. if should_drop F cfg q.sequence then rest + 1 else rest)
        (mutate_packet-carried p v) (losses-lost ps a)

  -- From a new injector, a stream of packets in range, pushed and then flushed, comes out, perhaps in
  -- another order, as the packets that are not dropped, none twice, and, if the policy is enabled, with
  -- their numbers jumped ahead as far as 2^64 - 1 and their times skewed: any test holds of as many
  -- packets that come out as of those. The counter is the number dropped, as a `u64` counts, and nothing
  -- stays held.
  pub run_conserves :
      (ps : List Packet)
      → All InRange ps
      → let (last, out) = run F ps (injector_new F cfg) in
        let (after, tail) = flush F last in
        ((f : Packet → Bool) → count_where f (out ++ listed F tail) ≡ count_where f (sent_on ps))
        × (after.dropped ≡ lost ps % 2 ^ 64)
        × (after.held ≡ none)
  run_conserves ps a =
      let (same, counted, empty) = run-survivors F cfg ps in
      (
        λ f. same f ∙ ap (count_where f) (survivors-sent_on ps a),
        counted ∙ ap (λ n. n % 2 ^ 64) (losses-lost ps a),
        empty,
      )
