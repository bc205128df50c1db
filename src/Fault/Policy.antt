-- ===== src/Fault/Policy.antt =====
-- The decisions of the fault policy in crates/fault-injection/src/lib.rs.
use aether_radio_sim.Base.{ℕ, ◌+◌, ◌^◌, ◌<◌, ◌≤◌, ◌≡◌, ◌↔◌, true, arith}
use aether_radio_sim.Base.Floats.{Float64}
use aether_radio_sim.Types.{Packet, InRange}
use aether_radio_sim.Fault.{FaultInjectionConfig, should_drop_burst, mutate_packet, skewed, is_skew}

module _ (F : Float64) (cfg : FaultInjectionConfig F) where
  -- For a start that is a `u64` and a length that is a `u32`, a burst drops the numbers from its start on,
  -- as many as its length, if it is enabled and ends below 2^64; a burst that ends at 2^64 or later, where
  -- the sum wraps, drops nothing at all.
  pub should_drop_burst_lem :
      (sequence burst_start : ℕ)
      → burst_start < 2 ^ 64
      → cfg.burst_length < 2 ^ 32
      → (should_drop_burst F cfg sequence burst_start ≡ true) ↔ (
          (cfg.enabled ≡ true)
          × (burst_start ≤ sequence)
          × (sequence < burst_start + cfg.burst_length)
          × (burst_start + cfg.burst_length < 2 ^ 64))
  unfolding should_drop_burst
  should_drop_burst_lem sequence burst_start s l = (λ h. ground (arith, h), λ h. ground (arith, h))

  -- A mutation changes neither stream nor payload, does not lower the number, and keeps the fields in
  -- their ranges.
  pub mutate_packet-InRange :
      (p : Packet)
      → InRange p
      → let q = mutate_packet F cfg p in
        InRange q
        × (q.stream_id ≡ p.stream_id)
        × (q.payload ≡ p.payload)
        × (p.sequence ≤ q.sequence)
  unfolding mutate_packet skewed is_skew
  mutate_packet-InRange p v = (
    record {
      stream_id = ground (arith, v.stream_id);
      sequence = ground (arith, v.sequence);
      timestamp = ground (arith, v.timestamp);
      payload = ground (arith, v.payload);
    },
    ground arith,
    ground arith,
    ground (arith, v.sequence),
  )
