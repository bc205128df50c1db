-- ===== src/Fpga/Clock.antt =====
-- The symbol clock of crates/fpga-emulator/src/lib.rs in closed form.
use aether_radio_sim.Base.{
  ℕ, zero, suc, ◌+◌, ◌*◌, ◌%◌, ◌^◌, ◌<◌, ◌≤◌, ◌≡◌, refl, ap, sym, subst, ◌∙◌, leb, min,
  saturating_add, u8_max, u16_max, Bool-cases, inl, inr, true, false, arith, u64_max,
}
use aether_radio_sim.Fpga.{
  RadioTimingConfig, TimestampGenerator, generator_new, current, ticked, tick_symbol,
}

-- `n` ticks
unfoldable pub ticks : ℕ → TimestampGenerator → TimestampGenerator
ticks zero g = g
ticks (suc n) g = ticked (ticks n g)

-- What the clock shows after `n` ticks: symbol, slot and frame are the digits of `n`, and the time is
-- `n` symbols, until it saturates.
pub record Shows (n frames : ℕ) (g : TimestampGenerator) : Type 0 where
  pub digits : n ≡ g.symbol + g.timing.symbols_per_slot * (g.slot + g.timing.slots_per_sfn * frames)
  pub symbol : g.symbol < g.timing.symbols_per_slot
  pub slot : g.slot < g.timing.slots_per_sfn
  pub sfn : g.sfn ≡ frames % 2 ^ 32
  pub ns : g.ns ≡ min (n * g.timing.symbol_duration_ns) u64_max

-- The counts fit their types and are not zero.
pub record IsTiming (timing : RadioTimingConfig) : Type 0 where
  pub symbols : 0 < timing.symbols_per_slot
  pub symbols_u8 : timing.symbols_per_slot ≤ u8_max
  pub slots : 0 < timing.slots_per_sfn
  pub slots_u16 : timing.slots_per_sfn ≤ u16_max

later_ns : (n d ns : ℕ) → ns ≡ min (n * d) u64_max → saturating_add ns d ≡ min (suc n * d) u64_max
later_ns n d ns e = omega (arith, e)

ticked_ns :
    (g : TimestampGenerator) → (ticked g).ns ≡ saturating_add g.ns g.timing.symbol_duration_ns
unfolding ticked
ticked_ns g = ground arith

ticked_timing : (g : TimestampGenerator) → (ticked g).timing ≡ g.timing
unfolding ticked
ticked_timing g = ground arith

pub ticks_timing : (n : ℕ) (g : TimestampGenerator) → (ticks n g).timing ≡ g.timing
unfolding ticks
ticks_timing zero g = refl
ticks_timing (suc n) g = ticked_timing (ticks n g) ∙ ticks_timing n g

pub ticks_ns :
    (n : ℕ) (timing : RadioTimingConfig)
    → (ticks n (generator_new timing)).ns ≡ min (n * timing.symbol_duration_ns) u64_max
unfolding ticks generator_new
ticks_ns zero timing = omega arith
ticks_ns (suc n) timing =
    ticked_ns (ticks n (generator_new timing))
    ∙ (ap (λ c. saturating_add (ticks n (generator_new timing)).ns c.symbol_duration_ns)
          (ticks_timing n (generator_new timing))
        ∙ later_ns n timing.symbol_duration_ns (ticks n (generator_new timing)).ns
            (ticks_ns n timing))

-- a tick within a slot, to the next slot, and to the next frame
module _ (n frames : ℕ) (g : TimestampGenerator) (t : IsTiming g.timing)
    (v : Shows n frames g) where
  symbol_last :
      leb g.timing.symbols_per_slot (min (g.symbol + 1) u8_max) ≡ true
      → g.symbol + 1 ≡ g.timing.symbols_per_slot
  symbol_last e = ground (arith, e, v.symbol)

  slot_last :
      leb g.timing.slots_per_sfn (min (g.slot + 1) u16_max) ≡ true
      → g.slot + 1 ≡ g.timing.slots_per_sfn
  slot_last f = ground (arith, f, v.slot)

  plain_slot : min (g.slot + 1) u16_max ≡ g.slot + 1
  plain_slot = omega (arith, v.slot, t.slots_u16)

  next_in_slot :
      leb g.timing.symbols_per_slot (min (g.symbol + 1) u8_max) ≡ false
      → Shows (suc n) frames (ticked g)
  unfolding ticked
  next_in_slot e =
      rw (e, ticked)
        (record {
          digits = ground (arith, e, v.digits, v.symbol, t.symbols_u8);
          symbol = ground (arith, e);
          slot = v.slot;
          sfn = v.sfn;
          ns = later_ns n g.timing.symbol_duration_ns g.ns v.ns;
        })

  next_slot :
      leb g.timing.symbols_per_slot (min (g.symbol + 1) u8_max) ≡ true
      → leb g.timing.slots_per_sfn (min (g.slot + 1) u16_max) ≡ false
      → Shows (suc n) frames (ticked g)
  unfolding ticked
  next_slot e f =
      rw (e, f, ticked)
        (record {
          digits = rw (plain_slot) (
              omega (
                arith,
                v.digits,
                symbol_last e,
                ap (λ x. x * (g.slot + g.timing.slots_per_sfn * frames)) (symbol_last e),
              ));
          symbol = t.symbols;
          slot = ground (arith, f);
          sfn = v.sfn;
          ns = later_ns n g.timing.symbol_duration_ns g.ns v.ns;
        })

  next_frame :
      leb g.timing.symbols_per_slot (min (g.symbol + 1) u8_max) ≡ true
      → leb g.timing.slots_per_sfn (min (g.slot + 1) u16_max) ≡ true
      → Shows (suc n) (suc frames) (ticked g)
  unfolding ticked
  next_frame e f =
      rw (e, f, ticked)
        (record {
          digits = omega (
            arith,
            v.digits,
            symbol_last e,
            ap (λ x. g.timing.symbols_per_slot * x) (slot_last f),
          );
          symbol = t.symbols;
          slot = t.slots;
          sfn = omega (arith, v.sfn);
          ns = later_ns n g.timing.symbol_duration_ns g.ns v.ns;
        })

  ticked-Shows : (later : ℕ) × Shows (suc n) later (ticked g)
  ticked-Shows = elim (Bool-cases (leb g.timing.symbols_per_slot (min (g.symbol + 1) u8_max))) [
    | inr e ↦ (frames, next_in_slot e)
    | inl e ↦ elim (Bool-cases (leb g.timing.slots_per_sfn (min (g.slot + 1) u16_max))) [
      | inr f ↦ (frames, next_slot e f)
      | inl f ↦ (suc frames, next_frame e f)
    ]
  ]

shown :
    (timing : RadioTimingConfig) (n : ℕ)
    → IsTiming timing
    → (frames : ℕ) × Shows n frames (ticks n (generator_new timing))
unfolding ticks generator_new
shown timing zero t = (
  0,
  record {
    digits = omega arith;
    symbol = t.symbols;
    slot = t.slots;
    sfn = omega arith;
    ns = omega arith;
  },
)
shown timing (suc n) t =
    let g = ticks n (generator_new timing) in
    let (frames, v) = shown timing n t in
    ticked-Shows n frames g (subst IsTiming (sym (ticks_timing n (generator_new timing))) t) v

-- The n-th tick of a new clock, whose counts fit their types and are not zero, yields the digits of n:
-- symbol within the slot, slot within the frame, frame modulo 2^32, and n symbols of time, up to 2^64 - 1.
pub tick_symbol-ticks :
    (timing : RadioTimingConfig) (n : ℕ)
    → IsTiming timing
    → let (g, t) = tick_symbol (ticks n (generator_new timing)) in
      (frames : ℕ) × (n
        ≡ t.symbol + timing.symbols_per_slot * (t.slot + timing.slots_per_sfn * frames))
      × (t.symbol < timing.symbols_per_slot)
      × (t.slot < timing.slots_per_sfn)
      × (t.sfn ≡ frames % 2 ^ 32)
      × (t.ns ≡ min (n * timing.symbol_duration_ns) u64_max)
      × (g ≡ ticks (suc n) (generator_new timing))
unfolding tick_symbol current ticks generator_new
tick_symbol-ticks timing n t =
    let g = ticks n (generator_new timing) in
    let (frames, v) = shown timing n t in
    let (digits, symbol, slot, sfn, ns) =
      subst
        (λ c.
          (n ≡ g.symbol + c.symbols_per_slot * (g.slot + c.slots_per_sfn * frames))
          × (g.symbol < c.symbols_per_slot)
          × (g.slot < c.slots_per_sfn)
          × (g.sfn ≡ frames % 2 ^ 32)
          × (g.ns ≡ min (n * c.symbol_duration_ns) u64_max))
        (ticks_timing n (generator_new timing)) (v.digits, v.symbol, v.slot, v.sfn, v.ns) in
    (frames, digits, symbol, slot, sfn, ns, refl)
