-- ===== src/Pipeline/Opening.antt =====
-- The streams that `PipelineBench::run` of crates/benchmark/src/pipeline.rs opens: each is new, so that
-- all of them run when the loops begin.
use aether_radio_sim.Base.{
  ℕ, zero, suc, ◌+◌, ◌-◌, ◌/◌, ◌%◌, ◌<◌, ◌≤◌, ◌==◌, ◌≡◌, refl, sym, ◌∙◌, subst, List, [], ◌∷◌, none,
  some, true, ok, length, All, if◌then◌else◌, arith, Result, u16_max,
}
use native.Mathlib.Decide.{ℕ_discrete}
use aether_radio_sim.Base.Floats.{Float64, Float32}
use aether_radio_sim.Base.Machine.{◌>>=◌, pure, >>=_ok}
use aether_radio_sim.Base.Assoc.{lookup, insert, lookup-insert, lookup-insert_self}
use aether_radio_sim.Types.{StreamId}
use aether_radio_sim.Transport.{StreamConfig, idle, running, TransportError, is_open}
use aether_radio_sim.Transport.Check.{register_stream}
use aether_radio_sim.Transport.Sim.{
  SimTransportEngine, StreamRuntime, create_stream, start_stream, change_state,
}
use aether_radio_sim.Transport.Sim.Quiet.{Runs}
use aether_radio_sim.Fpga.{RadioTimingConfig, FpgaEmulator, emulator_new}
use aether_radio_sim.Pipeline.Run.{open_stream, open_streams}

-- The streams from 1 to below `s` run, and no later one is there.
pub record OpenedBelow (s : ℕ) (m : SimTransportEngine) : Type 0 where
  pub open_link : is_open m.link ≡ true
  pub inbox : m.inbox ≡ []
  pub lates : m.late_packets ≡ 0
  pub runs : (id : StreamId) → 1 ≤ id → id < s → Runs id m
  pub unknown : (id : StreamId) → s ≤ id → lookup id m.streams ≡ none

create_stream_new :
    (cfg : StreamConfig) (m : SimTransportEngine)
    → lookup cfg.stream_id m.streams ≡ none
    → create_stream cfg m ≡ (
      record m {
        seq = register_stream cfg.stream_id m.seq;
        streams = insert cfg.stream_id (record { cfg = cfg; state = idle }) m.streams;
      },
      ok cfg.stream_id,
    )
unfolding create_stream
create_stream_new cfg m e = rw (e, create_stream) refl

start_stream_known :
    (id : StreamId) (r : StreamRuntime) (m : SimTransportEngine)
    → lookup id m.streams ≡ some r
    → start_stream id m
      ≡ (record m { streams = insert id (record r { state = running }) m.streams }, ok tt)
unfolding start_stream
start_stream_known id r m e = rw (e, change_state) refl

module _ (F : Float64) where
  open_stream-OpenedBelow :
      (deadline_ns s : ℕ) (m : SimTransportEngine)
      → 1 ≤ s
      → OpenedBelow s m
      → (m' : SimTransportEngine) × (open_stream F deadline_ns s m ≡ (m', ok tt))
        × OpenedBelow (s + 1) m'
  unfolding open_stream
  open_stream-OpenedBelow deadline_ns s m some_id v =
      let cfg : StreamConfig = record {
        stream_id = s;
        carrier = (s - 1) % 4;
        antenna = ((s - 1) / 4) % (u16_max + 1);
        qos = 0;
        deadline_ns = deadline_ns;
      } in
      let made : StreamRuntime = record { cfg = cfg; state = idle } in
      let going : StreamRuntime = record { cfg = cfg; state = running } in
      let m1 : SimTransportEngine = record m {
        seq = register_stream s m.seq;
        streams = insert s made m.streams;
      } in
      let m2 : SimTransportEngine = record m1 { streams = insert s going m1.streams } in
      let lookup_m2 : (id : StreamId)
          → lookup id m2.streams ≡ (if s == id then some going else lookup id m.streams) =
        λ id.
          ground (arith, lookup-insert s id going m1.streams, lookup-insert s id made m.streams) in
      (
        m2,
        >>=_ok (create_stream cfg) (λ _. start_stream s) m
              (create_stream_new cfg m (v.unknown s (omega arith)))
            ∙ start_stream_known s made m1 (lookup-insert_self s made m.streams),
        record {
          open_link = v.open_link;
          inbox = v.inbox;
          lates = v.lates;
          runs = λ id low high. elim (ℕ_discrete s id) [
            | yes e ↦ (going, ground (arith, lookup_m2 id, e), refl)
            | no ne ↦
                let (r, here, runs) = v.runs id low (omega (arith, high, ne)) in
                (r, ground (arith, lookup_m2 id, ne, here), runs)
          ];
          unknown = λ id above.
              let before = v.unknown id (omega (arith, above)) in
              ground (arith, lookup_m2 id, before, above);
        },
      )

  -- an emulator of one of the streams, as large as the timing says
  pub record Emits (G : Float32) (n samples : ℕ) (e : FpgaEmulator G) : Type 0 where
    pub low : 1 ≤ e.stream_id
    pub high : e.stream_id < n
    pub iq : e.iq ≡ samples

  pub record Opens (G : Float32) (samples s n : ℕ)
      (x : SimTransportEngine × Result TransportError (List (FpgaEmulator G))) : Type 0 where
    pub fpgas : List (FpgaEmulator G)
    pub answer : x.1 ≡ ok fpgas
    pub opened : OpenedBelow (s + n) x.0
    pub many : length fpgas ≡ n
    pub emit : All (Emits G (s + n) samples) fpgas

  pub open_streams-Opens :
      (G : Float32) (deadline_ns : ℕ) (timing : RadioTimingConfig) (s n : ℕ)
      (m : SimTransportEngine)
      → 1 ≤ s
      → OpenedBelow s m
      → Opens G timing.samples_per_symbol s n (open_streams F G deadline_ns timing s n m)
  unfolding open_streams emulator_new
  open_streams-Opens G deadline_ns timing s zero m h v = record {
    fpgas = [];
    answer = refl;
    opened = subst (λ k. OpenedBelow k m) (omega arith) v;
    many = refl;
    emit = tt;
  }
  open_streams-Opens G deadline_ns timing s (suc n) m h v =
      let (m', first, w) = open_stream-OpenedBelow deadline_ns s m h v in
      let rest = open_streams F G deadline_ns timing (s + 1) n in
      let finish = λ (fpgas : List (FpgaEmulator G)).
        pure {S = SimTransportEngine} {E = TransportError} (emulator_new G timing s ∷ fpgas) in
      let u = open_streams-Opens G deadline_ns timing (s + 1) n m' (omega arith) w in
      let last = (rest m').0 in
      let chain : open_streams F G deadline_ns timing s (suc n) m
          ≡ (last, ok (emulator_new G timing s ∷ u.fpgas)) =
        >>=_ok (open_stream F deadline_ns s) (λ _. rest >>= finish) m first
        ∙ >>=_ok rest finish m' {s' = last} (λ i. (last, u.answer i)) in
      subst (Opens G timing.samples_per_symbol s (suc n)) (sym chain) (record {
        fpgas = emulator_new G timing s ∷ u.fpgas;
        answer = refl;
        opened = subst (λ k. OpenedBelow k last) (omega arith) u.opened;
        many = omega (arith, u.many);
        emit = (
          record { low = h; high = omega arith; iq = refl },
          subst (λ k. All (Emits G k timing.samples_per_symbol) u.fpgas) (omega arith) u.emit,
        );
      })
