-- ===== src/Pipeline/Latencies.antt =====
-- The latencies that a run of crates/benchmark/src/pipeline.rs reports and those that its metrics hold.
use aether_radio_sim.Base.{
  ℕ, ◌^◌, ◌<◌, List, [], ◌∷◌, ◌++◌, Bool, Option, ok, ◌≡◌, length, length-append, subst, arith,
}
use aether_radio_sim.Base.Floats.{Float64, Float32}
use aether_radio_sim.Base.Machine.{Post}
use aether_radio_sim.Transport.Sim.{SimTransportEngine}
use aether_radio_sim.Fault.{FaultInjector}
use aether_radio_sim.Fpga.{FpgaEmulator}
use aether_radio_sim.Metrics.{new, no_transport, sampled, set_memory_buffers, set_link_up}
use aether_radio_sim.Metrics
use aether_radio_sim.Metrics.Counters.{
  Summarises, sampled-Summarises, smallest, largest, total, final,
}
use aether_radio_sim.Layers.{TransportLayerMetrics}
use aether_radio_sim.Bench.Percentiles.{Describes, sort-Describes}
use aether_radio_sim.Pipeline.{BenchProfile, PipelineState}
use aether_radio_sim.Pipeline.Accounts.{
  Ledger, book_gap, book_late, book_receipt, book_delivery, ledger,
}
use aether_radio_sim.Pipeline.Run.{Loaded, started, stream_through, report_of}
use aether_radio_sim.Pipeline.Balance.{stream_through-Keeps}

-- The metrics' figures are those of the latencies, as long as their number fits the counter.
abbrev Summed : Ledger → Type 0
Summed l = length l.latencies < 2 ^ 64 → Summarises l.latencies l.transport

same_figures :
    (xs : List ℕ) (t : TransportLayerMetrics) (rx tx bytes gaps lates : ℕ)
    → Summarises xs t
    → Summarises xs (record t {
      rx_packets = rx;
      tx_packets = tx;
      rx_bytes = bytes;
      gap_count = gaps;
      late_packet = lates;
    })
same_figures xs t rx tx bytes gaps lates v = record {
  samples = v.samples;
  least = v.least;
  greatest = v.greatest;
  last = v.last;
  sum = v.sum;
  spread = v.spread;
}

book_gap-Summed : (l : Ledger) → Summed l → Summed (book_gap l)
unfolding book_gap
book_gap-Summed l v small = same_figures l.latencies l.transport _ _ _ _ _ (v small)

book_late-Summed : (l : Ledger) → Summed l → Summed (book_late l)
unfolding book_late
book_late-Summed l v small = same_figures l.latencies l.transport _ _ _ _ _ (v small)

book_delivery-Summed :
    (bytes e2e : ℕ) (missed : Bool) (l : Ledger)
    → Summed l
    → Summed (book_delivery e2e missed (book_receipt bytes l))
unfolding book_delivery book_receipt
book_delivery-Summed bytes e2e missed l v small =
    let longer = length-append l.latencies (e2e ∷ []) in
    let before = (book_receipt bytes l).transport in
    same_figures (l.latencies ++ (e2e ∷ [])) (sampled e2e before) _ _ _ _ _ (
      sampled-Summarises e2e l.latencies before
        (same_figures l.latencies l.transport _ _ _ _ _ (v (omega (arith, small, longer))))
        (omega (arith, small, longer)))

module _ (F : Float64) (G : Float32) (p : BenchProfile) (l : Loaded F) where
  started-Summed : (m : SimTransportEngine) → Summed (ledger F (started F l m))
  unfolding started ledger set_memory_buffers set_link_up Metrics.new smallest largest total final
  started-Summed m small = ground arith

  -- When the loops are done with fewer than 2^64 packets delivered, the report's latencies and those
  -- of the metrics describe the same list: its least and greatest are equal in both, and the report's
  -- percentiles lie between them.
  pub report_of-latencies :
      (fpgas : List (FpgaEmulator G)) (m : SimTransportEngine) (s : PipelineState F)
      (x : Option (FaultInjector F))
      → stream_through F G p l.eth l.fault fpgas (started F l m) ≡ (s, ok x)
      → length s.latencies < 2 ^ 64
      → Describes F s.latencies (report_of F s).latency
        × Summarises s.latencies s.metrics.layered.transport
        × ((report_of F s).latency.min_ns ≡ s.metrics.layered.transport.latency_min_ns)
        × ((report_of F s).latency.max_ns ≡ s.metrics.layered.transport.latency_max_ns)
  unfolding report_of ledger
  report_of-latencies fpgas m s x e small =
      let kept =
        stream_through-Keeps F Summed book_gap-Summed book_late-Summed book_delivery-Summed G p
          l.eth l.fault fpgas (started F l m) (started-Summed m) in
      let summary : Summarises s.latencies s.metrics.layered.transport =
        subst (Post (λ _ t. Summed (ledger F t))) e kept small in
      let described = sort-Describes F s.latencies in
      (
        described,
        summary,
        omega (arith, described.least, summary.least),
        omega (arith, described.greatest, summary.greatest),
      )
