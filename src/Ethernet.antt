-- ===== src/Ethernet.antt =====
-- The delays of the link model of crates/ethernet-model/src/lib.rs. YAML loading is left out.
use Prim.Native.String.{String}
use aether_radio_sim.Base.{ℕ, if◌then◌else◌, u64_max}
use aether_radio_sim.Base.Floats.{Float64}

pub record EthernetModelConfig (F : Float64) : Type 0 where
  pub version : String
  pub id : String
  pub bandwidth_gbps : F.Num
  pub mtu : ℕ
  pub latency_ns : ℕ
  pub jitter_ns : ℕ
  pub loss_rate : F.Num

module _ (F : Float64) where
  -- The literal `1e9` is an integer.
  unfoldable pub serialize_delay_ns : EthernetModelConfig F → ℕ → ℕ
  serialize_delay_ns cfg bytes =
      let giga = F.of_nat 1_000_000_000 in
      let bits = F.mul (F.of_nat bytes) (F.of_nat 8) in
      let seconds = F.div bits (F.mul cfg.bandwidth_gbps giga) in
      if F.le cfg.bandwidth_gbps (F.of_nat 0) then u64_max else F.to_u64 (F.mul seconds giga)

  unfoldable pub wire_delay_ns : EthernetModelConfig F → ℕ
  wire_delay_ns cfg = cfg.latency_ns
