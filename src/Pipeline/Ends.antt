-- ===== src/Pipeline/Ends.antt =====
-- The `while let` loop over `injector.flush()` of crates/benchmark/src/pipeline.rs ends.
use aether_radio_sim.Base.{
  ℕ, suc, List, Option, none, some, Bool, true, false, Result, ok, err, ◌≢◌, refl, if◌then◌else◌,
  max, arith,
}
use aether_radio_sim.Base.Floats.{Float64, Float32}
use aether_radio_sim.Base.Machine.{Method, ◌>>=◌, pure, Post, >>=_Post, Post-any}
use aether_radio_sim.Base.Text.{bytes_of, to_ascii_lowercase, text_eq}
use aether_radio_sim.Types.{Packet}
use aether_radio_sim.Transport.{TransportError}
use aether_radio_sim.Transport.Sim.{SimTransportEngine, link_up}
use aether_radio_sim.Transport.Sim
use aether_radio_sim.Ethernet.{EthernetModelConfig}
use aether_radio_sim.Fault.{FaultInjectionConfig, FaultInjector, injector_new, flush}
use aether_radio_sim.Fpga.{FpgaEmulator}
use aether_radio_sim.Metrics.{MetricsEngine}
use aether_radio_sim.Bench.{BenchReport}
use aether_radio_sim.Pipeline.{BenchProfile, PipelineBenchError, PipelineState, process_one}
use aether_radio_sim.Pipeline.Run.{
  Loaded, started, open_streams, emit_symbols, flush_loop, while_some, stream_through, closed,
  streamed, run,
}

module _ (F : Float64) (G : Float32) (p : BenchProfile) (eth : EthernetModelConfig F)
    (fault : FaultInjectionConfig F) where
  -- A loop that has fuel for what it does.
  abbrev Finished : Option (FaultInjector F) → PipelineState F → Type 0
  Finished x _ = x ≢ none

  abbrev Ends : Method (PipelineState F) PipelineBenchError (Option (FaultInjector F)) → Type 0
  Ends m = (s : PipelineState F) → Post Finished (m s)

  -- Nothing is held after a flush, so that the second turn is the last.
  flushed_twice :
      (n : ℕ) (injector : FaultInjector F)
      → Ends (flush_loop F G p eth fault (suc n) (flush F injector).0)
  unfolding flush_loop flush
  flushed_twice n injector s = λ e. ground (arith, e)

  while_some-Ends :
      (held : Option Packet)
      (end : Method (PipelineState F) PipelineBenchError (Option (FaultInjector F)))
      (body : Packet → Method (PipelineState F) PipelineBenchError (Option (FaultInjector F)))
      → Ends end
      → ((packet : Packet) → Ends (body packet))
      → Ends (while_some F G p eth fault held end body)
  while_some-Ends none end body h k = h
  while_some-Ends (some packet) end body h k = k packet

  flush_loop-Ends :
      (n : ℕ) (injector : FaultInjector F)
      → Ends (flush_loop F G p eth fault (suc (suc n)) injector)
  unfolding flush_loop
  flush_loop-Ends n injector s =
      let (injector', held) = flush F injector in
      let again = flush_loop F G p eth fault (suc n) injector' in
      while_some-Ends held (pure (some injector'))
        (λ packet. process_one F p eth fault packet >>= λ _. again) (λ _ e. ground (arith, e))
        (λ packet t.
          >>=_Post (λ _ _. Unit {0}) Finished (process_one F p eth fault packet) (λ _. again) t
            (Post-any (process_one F p eth fault packet t)) (λ _ t' _. flushed_twice n injector t'))
        s

  stream_through-Ends :
      (fpgas : List (FpgaEmulator G)) → Ends (stream_through F G p eth fault fpgas)
  unfolding stream_through
  stream_through-Ends fpgas s =
      let symbols = emit_symbols F G p eth fault p.symbol_count fpgas (injector_new F fault) in
      >>=_Post (λ _ _. Unit {0}) Finished symbols (flush_loop F G p eth fault 2) s
        (Post-any (symbols s)) (λ injector t _. flush_loop-Ends 0 injector t)

module _ (F : Float64) where
  closed-ne-none :
      (x : PipelineState F × Result PipelineBenchError (Option (FaultInjector F)))
      → Post (λ y _. y ≢ none) x
      → closed F x ≢ none
  unfolding closed
  closed-ne-none (s, err e) h = λ c. ground (arith, c)
  closed-ne-none (s, ok none) h = λ c. h refl
  closed-ne-none (s, ok (some injector)) h = λ c. ground (arith, c)

  module _ (G : Float32) (p : BenchProfile) (l : Loaded F) where
    streamed-ne-none :
        (x : SimTransportEngine × Result TransportError (List (FpgaEmulator G)))
        → streamed F G p l x ≢ none
    unfolding streamed
    streamed-ne-none (m, err e) = λ c. ground (arith, c)
    streamed-ne-none (m, ok fpgas) =
        closed-ne-none (stream_through F G p l.eth l.fault fpgas (started F l m))
          (stream_through-Ends F G p l.eth l.fault fpgas (started F l m))

    if-ne-none :
        (b : Bool) (e : PipelineBenchError)
        (x : Option (Result PipelineBenchError (BenchReport F × MetricsEngine F)))
        → x ≢ none
        → (if b then some (err e) else x) ≢ none
    if-ne-none true e x h = λ c. ground (arith, c)
    if-ne-none false e x h = h

    -- A run always ends with a report or an error: two turns are enough for the loop over the packets
    -- that the injector still holds.
    pub run-ne-none : run F G p l ≢ none
    unfolding run
    run-ne-none = if-ne-none (text_eq (to_ascii_lowercase p.gpu_backend) (bytes_of "cuda")) _ _ (
        streamed-ne-none (
          open_streams F G p.latency_budget_ns l.timing 1 (max p.streams 1)
            (link_up (Sim.new l.deadline))))
