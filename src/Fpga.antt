-- ===== src/Fpga.antt =====
-- The FPGA emulator of crates/fpga-emulator/src/lib.rs: symbol clock, samples, packets. `f32` is a
-- parameter; YAML loading is left out.
pub mod Clock
pub mod Emission
mod Tests
use Prim.Native.String.{String}
use aether_radio_sim.Base.{
  ℕ, zero, suc, ◌+◌, ◌%◌, ◌^◌, List, [], ◌∷◌, ◌++◌, map, leb, if◌then◌else◌, min, max,
  saturating_add, wrapping_add, u8_max, u16_max, u32_mod,
}
use aether_radio_sim.Base.Floats.{Float32}
use aether_radio_sim.Types.{RadioTimestamp, Packet, StreamId, Sequence}

pub record RadioTimingConfig : Type 0 where
  pub version : String
  pub id : String
  pub slots_per_sfn : ℕ
  pub symbols_per_slot : ℕ
  pub symbol_duration_ns : ℕ
  pub samples_per_symbol : ℕ
  pub max_antennas : ℕ
  pub max_carriers : ℕ

pub record TimestampGenerator : Type 0 where
  pub timing : RadioTimingConfig
  pub sfn : ℕ
  pub slot : ℕ
  pub symbol : ℕ
  pub ns : ℕ

unfoldable pub generator_new : RadioTimingConfig → TimestampGenerator
generator_new timing = record { timing = timing; sfn = 0; slot = 0; symbol = 0; ns = 0 }

unfoldable pub current : TimestampGenerator → RadioTimestamp
current g = record { sfn = g.sfn; slot = g.slot; symbol = g.symbol; ns = g.ns }

-- the generator after a tick; `symbol` is a `u8`, `slot` a `u16` and `sfn` a `u32`
unfoldable pub ticked : TimestampGenerator → TimestampGenerator
ticked g =
    let ns = saturating_add g.ns g.timing.symbol_duration_ns in
    let symbol = min (g.symbol + 1) u8_max in
    let slot = min (g.slot + 1) u16_max in
    if leb g.timing.symbols_per_slot symbol
    then if leb g.timing.slots_per_sfn slot
      then record g { ns = ns; symbol = 0; slot = 0; sfn = (g.sfn + 1) % u32_mod }
      else record g { ns = ns; symbol = 0; slot = slot }
    else record g { ns = ns; symbol = symbol }

unfoldable pub tick_symbol : TimestampGenerator → TimestampGenerator × RadioTimestamp
tick_symbol g = (ticked g, current g)

unfoldable pub generator_reset : TimestampGenerator → TimestampGenerator
generator_reset g = record g { sfn = 0; slot = 0; symbol = 0; ns = 0 }

pub record SequenceGenerator : Type 0 where
  pub next : ℕ

unfoldable pub next_sequence : SequenceGenerator → SequenceGenerator × Sequence
next_sequence s = (record { next = wrapping_add s.next 1 }, s.next)

-- `SimpleSlotScheduler`, whose methods are those of its generator
pub record SimpleSlotScheduler : Type 0 where
  pub timestamps : TimestampGenerator

unfoldable pub next_symbol : SimpleSlotScheduler → SimpleSlotScheduler × RadioTimestamp
next_symbol s = let (g, t) = tick_symbol s.timestamps in (record { timestamps = g }, t)

-- `(first..first + n)` mapped
unfoldable pub indexed : {A : Type 0} → (ℕ → A) → ℕ → ℕ → List A
indexed f first zero = []
indexed f first (suc n) = f first ∷ indexed f (first + 1) n

module _ (F : Float32) where
  pub record IqSample : Type 0 where
    pub i : F.Num
    pub q : F.Num

  -- `timestamp.ns as f32 * 1e-9 + i as f32 * 0.01`
  abbrev pub phase : ℕ → ℕ → F.Num
  phase ns i =
      F.add (F.mul (F.of_nat ns) (F.div (F.of_nat 1) (F.of_nat 1_000_000_000)))
        (F.mul (F.of_nat i) (F.div (F.of_nat 1) (F.of_nat 100)))

  -- `MockIQSource::generate`
  unfoldable pub generate : ℕ → RadioTimestamp → List IqSample
  generate samples_per_symbol t =
      indexed (λ i. record { i = F.cos (phase t.ns i); q = F.sin (phase t.ns i) }) 0
        samples_per_symbol

  pub record MultiCarrierIqSource : Type 0 where
    pub samples_per_symbol : ℕ
    pub carriers : ℕ
    pub amplitude : F.Num

  unfoldable pub multi_carrier_new : ℕ → ℕ → MultiCarrierIqSource
  multi_carrier_new samples_per_symbol carriers = record {
    samples_per_symbol = samples_per_symbol;
    carriers = max carriers 1;
    amplitude = F.div (F.of_nat 1) (F.of_nat (max carriers 1));
  }

  -- The loop over the carriers from `c` on; `0.17` is 17 / 100.
  unfoldable pub add_tones : F.Num → F.Num → ℕ → ℕ → IqSample → IqSample
  add_tones amplitude base c zero sum = sum
  add_tones amplitude base c (suc n) sum =
      let angle = F.add base (F.mul (F.of_nat c) (F.div (F.of_nat 17) (F.of_nat 100))) in
      add_tones amplitude base (c + 1) n (record {
        i = F.add sum.i (F.mul amplitude (F.cos angle));
        q = F.add sum.q (F.mul amplitude (F.sin angle));
      })

  -- `MultiCarrierIQSource::generate`
  unfoldable pub multi_carrier_generate : MultiCarrierIqSource → RadioTimestamp → List IqSample
  multi_carrier_generate source t =
      indexed
        (λ i.
          add_tones source.amplitude (phase t.ns i) 0 source.carriers
            (record { i = F.of_nat 0; q = F.of_nat 0 }))
        0 source.samples_per_symbol

  -- the loop of `packetize` that fills the payload
  unfoldable pub sample_bytes : List IqSample → List ℕ
  sample_bytes [] = []
  sample_bytes (s ∷ samples) = F.to_le_bytes s.i ++ (F.to_le_bytes s.q ++ sample_bytes samples)

  -- `SimplePacketizer::packetize`; the packetizer is its sequence generator.
  unfoldable pub packetize :
      StreamId → RadioTimestamp → List IqSample → SequenceGenerator → SequenceGenerator × Packet
  packetize stream_id t samples sequence =
      let (sequence', seq) = next_sequence sequence in
      (
        sequence',
        record {
          stream_id = stream_id;
          sequence = seq;
          timestamp = t.ns;
          payload = sample_bytes samples;
        },
      )

  pub record FpgaEmulator : Type 0 where
    pub scheduler : SimpleSlotScheduler
    -- `samples_per_symbol` of the `MockIQSource`
    pub iq : ℕ
    pub packetizer : SequenceGenerator
    pub stream_id : StreamId

  unfoldable pub emulator_new : RadioTimingConfig → StreamId → FpgaEmulator
  emulator_new timing stream_id = record {
    scheduler = record { timestamps = generator_new timing };
    iq = timing.samples_per_symbol;
    packetizer = record { next = 0 };
    stream_id = stream_id;
  }

  unfoldable pub emit_symbol : FpgaEmulator → FpgaEmulator × Packet
  emit_symbol e =
      let (scheduler, t) = next_symbol e.scheduler in
      let (packetizer, packet) = packetize e.stream_id t (generate e.iq t) e.packetizer in
      (record e { scheduler = scheduler; packetizer = packetizer }, packet)
