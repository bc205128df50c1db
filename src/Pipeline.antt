-- ===== src/Pipeline.antt =====
-- `PipelineBench::run` of crates/benchmark/src/pipeline.rs without the feature `cuda`: what a packet
-- goes through (`process_one`), from the wire to the GPU ring. The variables that the closure changes
-- are the record `PipelineState`. Events are lines in a file, and left out; the text in an error is the
-- value that it is formatted from.
pub mod Run
pub mod Accounts
pub mod Balance
pub mod Ends
pub mod Latencies
pub mod Delivery
pub mod Opening
pub mod Conservation
pub mod Complete
mod Tests
use Prim.Native.String.{String}
use aether_radio_sim.Base.{
  ℕ, ◌+◌, ◌*◌, ◌%◌, List, [], ◌∷◌, ◌++◌, Option, none, some, Bool, true, false, Result, ok, err,
  length, ltb, if◌then◌else◌, max, wrapping_add, saturating_add, saturating_sub, u64_mod,
}
use aether_radio_sim.Base.Floats.{Float64}
use aether_radio_sim.Base.Machine.{Method, ◌>>=◌, ◌>>◌, pure}
use aether_radio_sim.Base.Text.{bytes_of}
use aether_radio_sim.Types.{Packet}
use aether_radio_sim.Transport.{TransportError, sequence_gap, late_packet}
use aether_radio_sim.Transport.Sim.{SimTransportEngine, ingest, receive, recover_sequence}
use aether_radio_sim.Nic.{
  Cx5Nic, Cx5Error, advance_time, submit_rx, submit_rx_ready_at, rx_burst, dma_latency_ns,
}
use aether_radio_sim.GpuRing.{
  GpuRingBuffer, GpuError, ring_full, begin_receive, complete_receive, begin_process,
  complete_process, release, occupied, slot_count,
}
use aether_radio_sim.Fault.{FaultInjectionConfig, extra_latency_ns, kernel_delay_ns}
use aether_radio_sim.Ethernet.{EthernetModelConfig, serialize_delay_ns, wire_delay_ns}
use aether_radio_sim.Recovery.{RecoveryExecutor, apply}
use aether_radio_sim.Trace.{
  TraceEngine, start, stamp, fpga_tx, wire_depart, cx5_rx, dma_done, host_ready, gpu_enqueue,
  cuda_done,
}
use aether_radio_sim.Metrics.{
  MetricsEngine, record_rx, record_tx, record_sequence_gap, record_late_packet,
  record_deadline_miss, set_ring_occupancy, record_buffer_full, set_memory_buffers, record_rx_bytes,
  record_latency_sample, record_symbol, record_kernel_ns,
}

pub record BenchProfile : Type 0 where
  pub version : String
  pub id : String
  pub symbol_count : ℕ
  pub streams : ℕ
  pub latency_budget_ns : ℕ
  pub include_ethernet_delay : Bool
  pub include_nic_dma : Bool
  pub include_gpu_kernel : Bool
  pub gpu_backend : List ℕ
  pub report_path : String
  pub events_path : String
  pub observability_config : String
  pub radio_timing_config : String
  pub transport_deadline_config : String
  pub ethernet_config : String
  pub nic_config : String
  pub gpu_ring_config : String
  pub fault_config : String
  pub gpu_cuda_config : Option String

-- the errors whose texts become a runtime error
pub data Cause : Type 0 where
  in_transport : TransportError → Cause
  in_nic : Cx5Error → Cause
  in_ring : GpuError → Cause

pub data PipelineBenchError : Type 0 where
  config : List ℕ → PipelineBenchError
  runtime : Cause → PipelineBenchError
  io : List ℕ → PipelineBenchError

module _ (F : Float64) where
  pub record PipelineState : Type 0 where
    pub now_ns : ℕ
    pub metrics : MetricsEngine F
    pub transport : SimTransportEngine
    pub nic : Cx5Nic F
    pub ring : GpuRingBuffer
    pub tracer : TraceEngine
    pub recovery : Option RecoveryExecutor
    pub latencies : List ℕ
    pub bytes : ℕ
    pub packets : ℕ
    pub symbol_miss : ℕ
    pub ring_peak : ℕ

  -- `if let Some(ex) = recovery.as_mut() { ex.apply(…) }`
  unfoldable pub recover : List ℕ → Option RecoveryExecutor → Option RecoveryExecutor
  recover fault_class none = none
  recover fault_class (some ex) = some (apply fault_class ex).0

  -- the second `ingest`, with the `?` behind it
  unfoldable pub retried :
      PipelineState
      → SimTransportEngine × Result TransportError (Unit {0})
      → PipelineState × Result PipelineBenchError Bool
  retried s (m, ok _) = (record s { transport = m }, ok true)
  retried s (m, err e) = (record s { transport = m }, err (runtime (in_transport e)))

  -- The `match` on the first `ingest`: whether the packet goes on, which a late one does not.
  unfoldable pub taken :
      Packet
      → PipelineState
      → SimTransportEngine × Result TransportError (Unit {0})
      → PipelineState × Result PipelineBenchError Bool
  unfolding recover retried
  taken packet s (m, ok _) = (record s { transport = m }, ok true)
  taken packet s (m, err (sequence_gap want got)) =
      retried
        (record s {
          recovery = recover (bytes_of "sequence_gap") s.recovery;
          metrics = record_sequence_gap F s.metrics;
        })
        (ingest packet (recover_sequence packet.stream_id got m))
  taken packet s (m, err (late_packet _ _)) = (
    record s {
      transport = m;
      recovery = recover (bytes_of "late_packet") s.recovery;
      metrics = record_late_packet F (record_deadline_miss F s.metrics);
    },
    ok false,
  )
  taken packet s (m, err e) = (record s { transport = m }, err (runtime (in_transport e)))

  unfoldable pub take_in : Packet → Method PipelineState PipelineBenchError Bool
  take_in packet s = taken packet s (ingest packet s.transport)

  -- The part of `process_one` on the ring once a slot receives.
  unfoldable pub kernel : ℕ → List ℕ → ℕ → Method GpuRingBuffer GpuError ℕ
  kernel idx payload arrive = do
    complete_receive idx payload
    (idx', done_at) ← begin_process arrive
    latency ← complete_process idx' done_at
    release idx'
    pure latency

  -- what follows the release of the slot, or the first error
  unfoldable pub kernel_done :
      PipelineState
      → GpuRingBuffer × Result GpuError ℕ
      → PipelineState × Result PipelineBenchError ℕ
  kernel_done s (ring, ok latency) =
      (record s { ring = ring; metrics = record_kernel_ns F latency s.metrics }, ok latency)
  kernel_done s (ring, err e) = (record s { ring = ring }, err (runtime (in_ring e)))

  -- The `match` on `begin_receive`, which gives the latency on the GPU.
  unfoldable pub begun :
      List ℕ
      → ℕ
      → PipelineState
      → GpuRingBuffer × Result GpuError ℕ
      → PipelineState × Result PipelineBenchError ℕ
  unfolding recover kernel_done
  begun payload arrive s (ring, ok idx) =
      let peak = max s.ring_peak (occupied ring) in
      kernel_done (record s { ring_peak = peak; metrics = set_ring_occupancy F peak s.metrics })
        (kernel idx payload arrive ring)
  begun payload arrive s (ring, err ring_full) = (
    record s {
      ring = ring;
      metrics = record_buffer_full F s.metrics;
      recovery = recover (bytes_of "buffer_overflow") s.recovery;
    },
    ok 0,
  )
  begun payload arrive s (ring, err e) = (record s { ring = ring }, err (runtime (in_ring e)))

  unfoldable pub on_gpu : List ℕ → ℕ → Method PipelineState PipelineBenchError ℕ
  on_gpu payload arrive s = begun payload arrive s (begin_receive arrive s.ring)

  module _ (p : BenchProfile) (eth : EthernetModelConfig F) (fault : FaultInjectionConfig F) where
    unfoldable pub wire : Packet → ℕ
    wire packet =
        if p.include_ethernet_delay
        then saturating_add (serialize_delay_ns F eth (length packet.payload)) (wire_delay_ns F eth)
        else 0

    -- up to `transport.now_ns = *now_ns`, with the trace's id
    unfoldable pub depart : Packet → PipelineState → PipelineState × ℕ
    unfolding wire
    depart packet s =
        let (tracer, tid) =
          start packet.stream_id packet.sequence fpga_tx packet.timestamp s.tracer in
        let now =
          saturating_add (saturating_add (max s.now_ns packet.timestamp) (wire packet))
            (extra_latency_ns F fault) in
        (
          record s {
            now_ns = now;
            tracer = stamp tid wire_depart now tracer;
            transport = record s.transport { now_ns = now };
          },
          tid,
        )

    -- the stamps behind the NIC, and `nic.rx_burst(32)`
    unfoldable pub completed :
        ℕ → Cx5Nic F → ℕ → PipelineState → PipelineState × Result PipelineBenchError (List Packet)
    completed tid nic now s =
        let (nic', out) = rx_burst F 32 nic in
        (
          record s {
            nic = nic';
            now_ns = now;
            tracer = stamp tid dma_done now (stamp tid cx5_rx now s.tracer);
          },
          ok out,
        )

    -- the clock behind a packet that the NIC has taken, with DMA and without
    unfoldable pub after_dma :
        ℕ
        → PipelineState
        → Cx5Nic F × Result Cx5Error (Unit {0})
        → PipelineState × Result PipelineBenchError (List Packet)
    unfolding completed
    after_dma tid s (nic, err e) = (record s { nic = nic }, err (runtime (in_nic e)))
    after_dma tid s (nic, ok _) =
        let now = saturating_add s.now_ns (dma_latency_ns F nic.cfg) in
        completed tid (advance_time F now nic) now s

    unfoldable pub at_once :
        ℕ
        → PipelineState
        → Cx5Nic F × Result Cx5Error (Unit {0})
        → PipelineState × Result PipelineBenchError (List Packet)
    unfolding completed
    at_once tid s (nic, err e) = (record s { nic = nic }, err (runtime (in_nic e)))
    at_once tid s (nic, ok _) = completed tid nic s.now_ns s

    unfoldable pub through_nic : ℕ → Packet → Method PipelineState PipelineBenchError (List Packet)
    through_nic tid pkt s =
        let nic = advance_time F s.now_ns s.nic in
        if p.include_nic_dma
        then after_dma tid s (submit_rx F pkt nic)
        else at_once tid s (submit_rx_ready_at F pkt s.now_ns nic)

    -- the rest of the loop's body once the GPU's latency is known
    unfoldable pub account : ℕ → Packet → ℕ → PipelineState → PipelineState
    account tid delivered latency s =
        let now = saturating_add s.now_ns (saturating_add latency (kernel_delay_ns F fault)) in
        let e2e = saturating_sub now delivered.timestamp in
        let missed = ltb p.latency_budget_ns e2e in
        let bytes = wrapping_add s.bytes (length delivered.payload) in
        let gpu_bytes = (slot_count s.ring * s.ring.slot_bytes) % u64_mod in
        let metrics =
          set_memory_buffers F bytes gpu_bytes
            (record_symbol F (record_latency_sample F e2e s.metrics)) in
        record s {
          now_ns = now;
          tracer = stamp tid cuda_done now s.tracer;
          latencies = s.latencies ++ (e2e ∷ []);
          metrics = record_tx F (if missed then record_deadline_miss F metrics else metrics);
          symbol_miss = if missed then wrapping_add s.symbol_miss 1 else s.symbol_miss;
          bytes = bytes;
          packets = wrapping_add s.packets 1;
        }

    unfoldable pub gpu_done :
        ℕ
        → Packet
        → PipelineState × Result PipelineBenchError ℕ
        → PipelineState × Result PipelineBenchError (Unit {0})
    unfolding account
    gpu_done tid delivered (s, ok latency) = (account tid delivered latency s, ok tt)
    gpu_done tid delivered (s, err e) = (s, err e)

    -- the body of the loop over what the NIC hands out
    unfoldable pub deliver : ℕ → Packet → Method PipelineState PipelineBenchError (Unit {0})
    deliver tid delivered s =
        let arrive = s.now_ns in
        let s' : PipelineState = record s {
          metrics = record_rx_bytes F (length delivered.payload) (record_rx F s.metrics);
          tracer = stamp tid gpu_enqueue arrive (stamp tid host_ready arrive s.tracer);
        } in
        gpu_done tid delivered
          (if p.include_gpu_kernel then on_gpu delivered.payload arrive s' else (s', ok 0))

    unfoldable pub deliver_all :
        ℕ → List Packet → Method PipelineState PipelineBenchError (Unit {0})
    deliver_all tid [] = pure tt
    deliver_all tid (d ∷ ds) = deliver tid d >>= λ _. deliver_all tid ds

    -- from `transport.receive()` on
    unfoldable pub received :
        ℕ
        → PipelineState
        → SimTransportEngine × Result TransportError (Option Packet)
        → PipelineState × Result PipelineBenchError (Unit {0})
    received tid s (m, ok none) = (record s { transport = m }, ok tt)
    received tid s (m, ok (some pkt)) =
        (through_nic tid pkt >>= deliver_all tid) (record s { transport = m })
    received tid s (m, err e) = (record s { transport = m }, err (runtime (in_transport e)))

    unfoldable pub arrive_host : ℕ → Method PipelineState PipelineBenchError (Unit {0})
    arrive_host tid s = received tid s (receive s.transport)

    unfoldable pub process_one : Packet → Method PipelineState PipelineBenchError (Unit {0})
    unfolding depart
    process_one packet s =
        let (s', tid) = depart packet s in
        (take_in packet >>= λ accepted. if accepted then arrive_host tid else pure tt) s'
