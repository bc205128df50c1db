-- ===== src/Trace.antt =====
-- The packet traces of crates/metrics-engine/src/trace.rs. The export to a file is I/O.
pub mod Recent
mod Tests
use Prim.Native.String.{String}
use aether_radio_sim.Base.{
  ℕ, ◌+◌, List, [], ◌∷◌, ◌++◌, Option, none, some, Bool, true, false, not, ◌||◌, ◌==◌, length, drop,
  leb, if◌then◌else◌, max, wrapping_add,
}

pub data TraceStage : Type 0 where
  fpga_tx wire_depart cx5_rx dma_done host_ready gpu_enqueue cuda_start cuda_done : TraceStage

pub record StageStamp : Type 0 where
  pub stage : TraceStage
  pub time_ns : ℕ

pub record PacketTrace : Type 0 where
  pub trace_id : ℕ
  pub stream_id : ℕ
  pub sequence : ℕ
  pub stages : List StageStamp

pub record TraceEngine : Type 0 where
  pub capacity : ℕ
  pub traces : List PacketTrace
  pub next_id : ℕ
  pub enabled : Bool
  pub export_path : Option String
  pub dropped : ℕ

unfoldable pub engine_new : ℕ → TraceEngine
engine_new capacity = record {
  capacity = max capacity 1;
  traces = [];
  next_id = 1;
  enabled = true;
  export_path = none;
  dropped = 0;
}

unfoldable pub engine_disabled : TraceEngine
unfolding engine_new
engine_disabled = record (engine_new 1) { enabled = false }

unfoldable pub from_config : Bool → ℕ → String → TraceEngine
from_config enabled capacity export_path = record (engine_new capacity) {
  enabled = enabled;
  export_path = some export_path;
}

unfoldable pub start : ℕ → ℕ → TraceStage → ℕ → TraceEngine → TraceEngine × ℕ
start stream_id sequence first time_ns engine =
    let id = engine.next_id in
    let trace : PacketTrace = record {
      trace_id = id;
      stream_id = stream_id;
      sequence = sequence;
      stages = record { stage = first; time_ns = time_ns } ∷ [];
    } in
    let full = leb engine.capacity (length engine.traces) in
    if not engine.enabled then (engine, 0) else (
      record engine {
        next_id = wrapping_add id 1;
        traces = (if full then drop 1 engine.traces else engine.traces) ++ (trace ∷ []);
        dropped = if full then wrapping_add engine.dropped 1 else engine.dropped;
      },
      id,
    )

-- `rev().find(…)` and the push of the stamp: the last trace with that id, if there is one.
unfoldable pub stamp_last : ℕ → StageStamp → List PacketTrace → Option (List PacketTrace)
stamp_last id s [] = none
stamp_last id s (t ∷ ts) = elim (stamp_last id s ts) [
  | some ts' ↦ some (t ∷ ts')
  | none ↦ if t.trace_id == id then some (record t { stages = t.stages ++ (s ∷ []) } ∷ ts) else none
]

unfoldable pub stamp : ℕ → TraceStage → ℕ → TraceEngine → TraceEngine
stamp trace_id stage time_ns engine =
    let found = stamp_last trace_id (record { stage = stage; time_ns = time_ns }) engine.traces in
    if not engine.enabled || trace_id == 0
    then engine
    else elim found [ none ↦ engine | some traces ↦ record engine { traces = traces } ]
