-- ===== src/Fault.antt =====
-- The fault policy and injector of crates/fault-injection/src/lib.rs. `f64` is a parameter; YAML
-- loading is left out.
pub mod Policy
pub mod Injector
pub mod Carried
mod Tests
use Prim.Native.String.{String}
use aether_radio_sim.Base.{
  ℕ, ◌+◌, ◌-◌, ◌%◌, ◌^◌, List, [], ◌∷◌, ◌++◌, Option, none, some, Bool, true, false, not, ◌&&◌,
  ◌||◌, ◌==◌, ltb, leb, if◌then◌else◌, saturating_add, saturating_sub, wrapping_add, u64_mod,
}
use aether_radio_sim.Base.Integers.{ℤ, pos, negsuc}
use aether_radio_sim.Base.Floats.{Float64}
use aether_radio_sim.Types.{Packet}

pub record FaultInjectionConfig (F : Float64) : Type 0 where
  pub version : String
  pub id : String
  pub enabled : Bool
  pub loss_rate : F.Num
  pub extra_latency_us : F.Num
  pub burst_length : ℕ
  pub kernel_delay_us : F.Num
  pub burst_start : ℕ
  pub reorder_distance : ℕ
  pub sequence_jump : ℕ
  pub timestamp_skew_ns : ℤ

-- `(timestamp as i128 + skew).max(0) as u64`
unfoldable pub skewed : ℕ → ℤ → ℕ
skewed timestamp (pos n) = (timestamp + n) % u64_mod
skewed timestamp (negsuc n) = timestamp - (n + 1)

-- `timestamp_skew_ns != 0`
unfoldable pub is_skew : ℤ → Bool
is_skew (pos n) = not (n == 0)
is_skew (negsuc n) = true

module _ (F : Float64) where
  -- The period is at least 1, so `%` is defined.
  unfoldable pub should_drop_deterministic : FaultInjectionConfig F → ℕ → Bool
  should_drop_deterministic cfg sequence =
      if not cfg.enabled || F.le cfg.loss_rate (F.of_nat 0)
      then false
      else let period =
          F.to_u64 (F.fmax (F.round (F.div (F.of_nat 1) cfg.loss_rate)) (F.of_nat 1)) in
        sequence % period == 0

  unfoldable pub should_drop_burst : FaultInjectionConfig F → ℕ → ℕ → Bool
  should_drop_burst cfg sequence burst_start =
      if not cfg.enabled || cfg.burst_length == 0
      then false
      else leb burst_start sequence && ltb sequence (wrapping_add burst_start cfg.burst_length)

  unfoldable pub should_drop : FaultInjectionConfig F → ℕ → Bool
  should_drop cfg sequence =
      should_drop_deterministic cfg sequence || should_drop_burst cfg sequence cfg.burst_start

  unfoldable pub extra_latency_ns : FaultInjectionConfig F → ℕ
  extra_latency_ns cfg =
      if not cfg.enabled then 0 else F.to_u64 (F.mul cfg.extra_latency_us (F.of_nat 1000))

  unfoldable pub kernel_delay_ns : FaultInjectionConfig F → ℕ
  kernel_delay_ns cfg =
      if not cfg.enabled then 0 else F.to_u64 (F.mul cfg.kernel_delay_us (F.of_nat 1000))

  unfoldable pub mutate_packet : FaultInjectionConfig F → Packet → Packet
  unfolding skewed is_skew
  mutate_packet cfg packet =
      let jumped : Packet =
        if ltb 0 cfg.sequence_jump
        then record packet { sequence = saturating_add packet.sequence cfg.sequence_jump }
        else packet in
      let moved : Packet =
        if is_skew cfg.timestamp_skew_ns
        then record jumped { timestamp = skewed jumped.timestamp cfg.timestamp_skew_ns }
        else jumped in
      if not cfg.enabled then packet else moved

  pub record FaultInjector : Type 0 where
    pub cfg : FaultInjectionConfig F
    pub held : Option Packet
    pub held_countdown : ℕ
    pub dropped : ℕ
    pub reordered : ℕ

  unfoldable pub injector_new : FaultInjectionConfig F → FaultInjector
  injector_new cfg = record {
    cfg = cfg;
    held = none;
    held_countdown = 0;
    dropped = 0;
    reordered = 0;
  }

  unfoldable pub tick_hold : FaultInjector → FaultInjector × Option Packet
  tick_hold inj = elim inj.held [
    | none ↦ (inj, none)
    | some p ↦
        let left = saturating_sub inj.held_countdown 1 in
        if inj.held_countdown == 0
        then (record inj { held = none }, some p)
        else if left == 0
        then (record inj { held_countdown = left; held = none }, some p)
        else (record inj { held_countdown = left }, none)
  ]

  -- `if let Some(p) = … { out.push(p) }` on an empty vector
  abbrev pub listed : Option Packet → List Packet
  listed none = []
  listed (some p) = p ∷ []

  abbrev pub is_held : Option Packet → Bool
  is_held none = false
  is_held (some _) = true

  -- The rest of `push` for a packet that is not dropped.
  unfoldable pub pass : Packet → FaultInjector → FaultInjector × List Packet
  unfolding tick_hold
  pass packet inj =
      let did_release = is_held inj.held && leb inj.held_countdown 1 in
      let (inj', out) = tick_hold inj in
      if inj'.cfg.enabled
        && (ltb 0 inj'.cfg.reorder_distance && (not (is_held inj'.held) && not did_release))
      then (
        record inj' {
          held = some packet;
          held_countdown = inj'.cfg.reorder_distance;
          reordered = wrapping_add inj'.reordered 1;
        },
        listed out,
      )
      else (inj', listed out ++ (packet ∷ []))

  unfoldable pub push : Packet → FaultInjector → FaultInjector × List Packet
  push original inj =
      let packet = mutate_packet inj.cfg original in
      let (dropping, out) = tick_hold (record inj { dropped = wrapping_add inj.dropped 1 }) in
      if should_drop inj.cfg packet.sequence then (dropping, listed out) else pass packet inj

  unfoldable pub flush : FaultInjector → FaultInjector × Option Packet
  flush inj = (record inj { held_countdown = 0; held = none }, inj.held)
