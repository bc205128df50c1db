-- ===== src/Trace/Tests.antt =====
-- A concrete engine of crates/metrics-engine/src/trace.rs.
use aether_radio_sim.Base.{◌-◌, ◌%◌, ◌^◌, ◌≡◌, List, [], ◌∷◌, length, map}
use aether_radio_sim.Trace.{fpga_tx, cuda_done, engine_new}
use aether_radio_sim.Trace.Recent.{TraceOp, starts, stamps, run, key, started, last_of, run_recent}

abbrev some_calls : List TraceOp
some_calls =
    starts 1 10 fpga_tx 5
    ∷ starts 1 11 fpga_tx 6
    ∷ stamps 2 cuda_done 9
    ∷ starts 1 12 fpga_tx 7
    ∷ []

run_recent_example :
    let engine = run some_calls (engine_new 2) in
    let all = started 1 some_calls in
    (map key engine.traces ≡ last_of 2 all) × (engine.dropped ≡ (length all - 2) % 2 ^ 64)
run_recent_example = run_recent 2 some_calls
