-- ===== src/Fpga/Tests.antt =====
-- A concrete clock and emulator of crates/fpga-emulator/src/lib.rs.
use aether_radio_sim.Base.{ℕ, ◌+◌, ◌*◌, ◌%◌, ◌^◌, ◌<◌, ◌≡◌, length, min, u64_max, arith}
use aether_radio_sim.Base.Floats.{byte_samples}
use aether_radio_sim.Fpga.{RadioTimingConfig, generator_new, tick_symbol, emulator_new, emit_symbol}
use aether_radio_sim.Fpga.Clock.{IsTiming, ticks, tick_symbol-ticks}
use aether_radio_sim.Fpga.Emission.{emitted, emit_symbol_lem}

abbrev timing : RadioTimingConfig
timing = record {
  version = "1.0.0";
  id = "nr";
  slots_per_sfn = 20;
  symbols_per_slot = 14;
  symbol_duration_ns = 714286;
  samples_per_symbol = 2;
  max_antennas = 8;
  max_carriers = 4;
}

timing-IsTiming : IsTiming timing
timing-IsTiming = record {
  symbols = omega arith;
  symbols_u8 = omega arith;
  slots = omega arith;
  slots_u16 = omega arith;
}

tick_symbol-ticks_example :
    let (g, t) = tick_symbol (ticks 15 (generator_new timing)) in
    (frames : ℕ) × (15 ≡ t.symbol + 14 * (t.slot + 20 * frames))
    × (t.symbol < 14)
    × (t.slot < 20)
    × (t.sfn ≡ frames % 2 ^ 32)
    × (t.ns ≡ min (15 * 714286) u64_max)
    × (g ≡ ticks 16 (generator_new timing))
tick_symbol-ticks_example = tick_symbol-ticks timing 15 timing-IsTiming

emit_symbol_lem_example :
    let p =
      (emit_symbol byte_samples (emitted byte_samples 3 (emulator_new byte_samples timing 7))).1 in
    (p.stream_id ≡ 7) × (p.sequence ≡ 3) × (p.timestamp ≡ 2142858) × (length p.payload ≡ 16)
emit_symbol_lem_example = emit_symbol_lem byte_samples timing 7 3
