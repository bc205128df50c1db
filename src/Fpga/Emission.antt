-- ===== src/Fpga/Emission.antt =====
-- The packets that the emulator of crates/fpga-emulator/src/lib.rs emits, one after the other.
use aether_radio_sim.Base.{
  ℕ, zero, suc, ◌+◌, ◌*◌, ◌%◌, ◌^◌, ◌≡◌, refl, ap, ◌∙◌, List, [], ◌∷◌, ◌++◌, length, length-append,
  min, u64_max, arith,
}
use aether_radio_sim.Base.Floats.{Float32}
use aether_radio_sim.Types.{StreamId}
use aether_radio_sim.Fpga.{
  RadioTimingConfig, FpgaEmulator, IqSample, generator_new, indexed, generate, sample_bytes,
  emulator_new, emit_symbol, next_symbol, tick_symbol, current, packetize, next_sequence,
}
use aether_radio_sim.Fpga.Clock.{ticks, ticks_ns}

length-indexed : {A : Type 0} (f : ℕ → A) (first n : ℕ) → length (indexed f first n) ≡ n
unfolding indexed
length-indexed f first zero = refl
length-indexed f first (suc n) = omega (arith, length-indexed f (first + 1) n)

module _ (F : Float32) where
  length-sample_bytes :
      (samples : List (IqSample F)) → length (sample_bytes F samples) ≡ 8 * length samples
  unfolding sample_bytes
  length-sample_bytes [] = refl
  length-sample_bytes (s ∷ samples) = omega (
    arith,
    F.length-to_le_bytes s.i,
    F.length-to_le_bytes s.q,
    length-append (F.to_le_bytes s.i) (F.to_le_bytes s.q ++ sample_bytes F samples),
    length-append (F.to_le_bytes s.q) (sample_bytes F samples),
    length-sample_bytes samples,
  )

  -- A packet has eight bytes for each sample.
  pub length-emit_symbol : (e : FpgaEmulator F) → length (emit_symbol F e).1.payload ≡ 8 * e.iq
  unfolding emit_symbol packetize generate
  length-emit_symbol e =
      let t = (next_symbol e.scheduler).1 in
      length-sample_bytes (generate F e.iq t) ∙ ap (λ k. 8 * k) (length-indexed _ 0 e.iq)

  -- the emulator after `n` packets
  unfoldable pub emitted : ℕ → FpgaEmulator F → FpgaEmulator F
  emitted zero e = e
  emitted (suc n) e = (emit_symbol F (emitted n e)).0

  emitted_lem :
      (timing : RadioTimingConfig) (id : StreamId) (n : ℕ)
      → emitted n (emulator_new F timing id) ≡ record (emulator_new F timing id) {
        scheduler = record { timestamps = ticks n (generator_new timing) };
        packetizer = record { next = n % 2 ^ 64 };
      }
  unfolding emitted emulator_new ticks emit_symbol next_symbol tick_symbol packetize next_sequence
  emitted_lem timing id zero = refl
  emitted_lem timing id (suc n) =
      ap (λ e. (emit_symbol F e).0) (emitted_lem timing id n)
      ∙ ap {A = ℕ}
          (λ k. record (emulator_new F timing id) {
            scheduler = record { timestamps = ticks (suc n) (generator_new timing) };
            packetizer = record { next = k };
          })
          (omega arith)

  -- The n-th packet of a new emulator, from 0 on, is of its stream, bears the number n as a `u64` counts
  -- and the time of n symbols, up to 2^64 - 1, and has eight bytes for each sample of a symbol.
  pub emit_symbol_lem :
      (timing : RadioTimingConfig) (id : StreamId) (n : ℕ)
      → let p = (emit_symbol F (emitted n (emulator_new F timing id))).1 in
        (p.stream_id ≡ id)
        × (p.sequence ≡ n % 2 ^ 64)
        × (p.timestamp ≡ min (n * timing.symbol_duration_ns) u64_max)
        × (length p.payload ≡ 8 * timing.samples_per_symbol)
  unfolding emulator_new emit_symbol next_symbol tick_symbol current packetize next_sequence
      generate
  emit_symbol_lem timing id n = rw (emitted_lem timing id n) (
    refl,
    refl,
    ticks_ns n timing,
    length-sample_bytes
          (generate F timing.samples_per_symbol (current (ticks n (generator_new timing))))
        ∙ ap (λ k. 8 * k) (length-indexed _ 0 timing.samples_per_symbol),
  )
