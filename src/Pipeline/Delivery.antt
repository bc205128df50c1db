-- ===== src/Pipeline/Delivery.antt =====
-- One packet through the whole pipeline of crates/benchmark/src/pipeline.rs: between two packets the
-- engine, the NIC and the ring are idle, so that each packet is delivered at once or is late.
use aether_radio_sim.Base.{
  ℕ, ◌≤◌, ◌≡◌, ◌⊎◌, refl, ap, sym, ◌∙◌, subst, List, [], ◌∷◌, ◌++◌, some, Bool, true, false, Result,
  ok, err, length, if◌then◌else◌, max, wrapping_add, saturating_add, saturating_sub, arith, inl,
  inr,
}
use aether_radio_sim.Base.Floats.{Float64}
use aether_radio_sim.Base.Machine.{◌>>=◌, pure, >>=_ok}
use aether_radio_sim.Types.{Packet, StreamId}
use aether_radio_sim.Base.Text.{bytes_of}
use aether_radio_sim.Transport.{late_packet}
use aether_radio_sim.Transport.Sim.{SimTransportEngine, receive}
use aether_radio_sim.Transport.Sim.Quiet.{
  IsServing, Holds, comes_late, comes_in, comes_back, ingest-Outcome,
}
use aether_radio_sim.Nic.{
  Cx5Nic, Cx5Error, advance_time, submit_rx, submit_rx_ready_at, rx_burst, dma_latency_ns,
}
use aether_radio_sim.Nic.Idle.{IsEmpty, Passed, submit_rx-Passed, submit_rx_ready_at-Passed}
use aether_radio_sim.GpuRing.{GpuRingBuffer, begin_receive, process_packet, put_slot, occupied}
use aether_radio_sim.GpuRing.Packet.{
  waiting, filled, released, begin_receive_taken, process_packet_lem,
}
use aether_radio_sim.GpuRing.Idle.{IsFree, find_state-ready, find_state-free, put_slot-IsFree}
use aether_radio_sim.Fault.{FaultInjectionConfig, kernel_delay_ns}
use aether_radio_sim.Ethernet.{EthernetModelConfig}
use aether_radio_sim.Metrics.{record_sequence_gap, record_rx_bytes, record_rx, set_ring_occupancy}
use aether_radio_sim.Trace.{stamp, host_ready, gpu_enqueue}
use aether_radio_sim.Pipeline.{
  recover, BenchProfile, PipelineBenchError, PipelineState, retried, taken, take_in, kernel,
  kernel_done, begun, on_gpu, depart, completed, after_dma, at_once, through_nic, account, gpu_done,
  deliver, deliver_all, received, arrive_host, process_one,
}

module _ (F : Float64) where
  -- `process_packet` is the search for a slot and the kernel in it.
  kernel_free :
      (payload : List ℕ) (arrive : ℕ) (r : GpuRingBuffer)
      → IsFree r
      → length payload ≤ r.slot_bytes
      → kernel F 0 payload arrive (put_slot 0 (waiting arrive) r) ≡ (
        put_slot 0 (released r arrive (filled payload arrive)) r,
        ok (saturating_sub (saturating_add arrive r.kernel_delay_ns) arrive),
      )
  unfolding kernel process_packet
  kernel_free payload arrive r v fits =
      let found = find_state-free r v in
      sym (
        >>=_ok (begin_receive arrive) (λ i. kernel F i payload arrive) r
          (begin_receive_taken payload arrive r 0 found))
      ∙ process_packet_lem payload arrive r 0 found (find_state-ready r v) fits

  -- What a call leaves of a state: a free ring of the same slots, and the rest as it was.
  pub record Rested (s t : PipelineState F) : Type 0 where
    pub ring : IsFree t.ring
    pub slot_bytes : t.ring.slot_bytes ≡ s.ring.slot_bytes
    pub nic : t.nic ≡ s.nic
    pub transport : t.transport ≡ s.transport

  pub record Computed (s : PipelineState F) (x : PipelineState F × Result PipelineBenchError ℕ)
      : Type 0 where
    pub latency : ℕ
    pub answer : x.1 ≡ ok latency
    pub rested : Rested s x.0
    pub latencies : x.0.latencies ≡ s.latencies

  on_gpu-Computed :
      (payload : List ℕ) (arrive : ℕ) (s : PipelineState F)
      → IsFree s.ring
      → length payload ≤ s.ring.slot_bytes
      → Computed s (on_gpu F payload arrive s)
  unfolding on_gpu begun kernel_done
  on_gpu-Computed payload arrive s v fits =
      let r1 = put_slot 0 (waiting arrive) s.ring in
      let r2 = put_slot 0 (released s.ring arrive (filled payload arrive)) s.ring in
      let free = put_slot-IsFree 0 (released s.ring arrive (filled payload arrive)) s.ring refl v in
      let peak = max s.ring_peak (occupied r1) in
      let latency = saturating_sub (saturating_add arrive s.ring.kernel_delay_ns) arrive in
      let s1 : PipelineState F = record s {
        ring_peak = peak;
        metrics = set_ring_occupancy F peak s.metrics;
      } in
      let begins = begin_receive_taken payload arrive s.ring 0 (find_state-free s.ring v) in
      let runs : on_gpu F payload arrive s ≡ kernel_done F s1 (r2, ok latency) =
        ap (begun F payload arrive s) begins
        ∙ ap (kernel_done F s1) (kernel_free payload arrive s.ring v fits) in
      subst (Computed s) (sym runs) (record {
        latency = latency;
        answer = refl;
        rested = record { ring = free; slot_bytes = refl; nic = refl; transport = refl };
        latencies = refl;
      })

  module _ (p : BenchProfile) (eth : EthernetModelConfig F) (fault : FaultInjectionConfig F) where
    -- One latency more, and the rest idle.
    pub record Delivered (s : PipelineState F)
        (x : PipelineState F × Result PipelineBenchError (Unit {0})) : Type 0 where
      pub answer : x.1 ≡ ok tt
      pub e2e : ℕ
      pub latencies : x.0.latencies ≡ s.latencies ++ (e2e ∷ [])
      pub rested : Rested s x.0

    gpu_done-Delivered :
        (tid : ℕ) (d : Packet) (s : PipelineState F)
        (x : PipelineState F × Result PipelineBenchError ℕ)
        → Computed s x
        → Delivered s (gpu_done F p eth fault tid d x)
    unfolding gpu_done account
    gpu_done-Delivered tid d s (t, ok latency) v =
        let now = saturating_add t.now_ns (saturating_add latency (kernel_delay_ns F fault)) in
        let e2e = saturating_sub now d.timestamp in
        record {
          answer = refl;
          e2e = e2e;
          latencies = ap (λ xs. xs ++ (e2e ∷ [])) v.latencies;
          rested = record {
            ring = v.rested.ring;
            slot_bytes = v.rested.slot_bytes;
            nic = v.rested.nic;
            transport = v.rested.transport;
          };
        }
    gpu_done-Delivered tid d s (t, err e) v = absurd (ground (arith, v.answer))

    deliver-Delivered :
        (tid : ℕ) (d : Packet) (s : PipelineState F)
        → IsFree s.ring
        → length d.payload ≤ s.ring.slot_bytes
        → Delivered s (deliver F p eth fault tid d s)
    unfolding deliver
    deliver-Delivered tid d s v fits =
        let arrive = s.now_ns in
        let s' : PipelineState F = record s {
          metrics = record_rx_bytes F (length d.payload) (record_rx F s.metrics);
          tracer = stamp tid gpu_enqueue arrive (stamp tid host_ready arrive s.tracer);
        } in
        let skipped : Computed s (s', ok 0) = record {
          latency = 0;
          answer = refl;
          rested = record { ring = v; slot_bytes = refl; nic = refl; transport = refl };
          latencies = refl;
        } in
        let ran = on_gpu-Computed d.payload arrive s' v fits in
        gpu_done-Delivered tid d s
          (if p.include_gpu_kernel then on_gpu F d.payload arrive s' else (s', ok 0))
          (either p.include_gpu_kernel (on_gpu F d.payload arrive s') (s', ok 0)
            (record {
              latency = ran.latency;
              answer = ran.answer;
              rested = record {
                ring = ran.rested.ring;
                slot_bytes = ran.rested.slot_bytes;
                nic = ran.rested.nic;
                transport = ran.rested.transport;
              };
              latencies = ran.latencies;
            })
            skipped)
      where
        either :
            (b : Bool) (x y : PipelineState F × Result PipelineBenchError ℕ)
            → Computed s x
            → Computed s y
            → Computed s (if b then x else y)
        either true x y h k = h
        either false x y h k = k

    deliver_all_one :
        (tid : ℕ) (d : Packet) (s : PipelineState F)
        → IsFree s.ring
        → length d.payload ≤ s.ring.slot_bytes
        → Delivered s (deliver_all F p eth fault tid (d ∷ []) s)
    unfolding deliver_all
    deliver_all_one tid d s v fits =
        let delivered = deliver-Delivered tid d s v fits in
        let s' = (deliver F p eth fault tid d s).0 in
        subst (Delivered s)
          (sym (
            >>=_ok (deliver F p eth fault tid d) (λ _. pure tt) s {s' = s'}
              (λ i. (s', delivered.answer i))))
          (record {
            answer = refl;
            e2e = delivered.e2e;
            latencies = delivered.latencies;
            rested = delivered.rested;
          })

    -- The NIC hands the packet out and is empty; the rest of the state is as before.
    pub record HandsOut (pkt : Packet) (s : PipelineState F)
        (x : PipelineState F × Result PipelineBenchError (List Packet)) : Type 0 where
      pub answer : x.1 ≡ ok (pkt ∷ [])
      pub nic : IsEmpty F x.0.nic
      pub transport : x.0.transport ≡ s.transport
      pub ring : x.0.ring ≡ s.ring
      pub latencies : x.0.latencies ≡ s.latencies

    HandsOut-if :
        (pkt : Packet) (s : PipelineState F) (b : Bool)
        (x y : PipelineState F × Result PipelineBenchError (List Packet))
        → HandsOut pkt s x
        → HandsOut pkt s y
        → HandsOut pkt s (if b then x else y)
    HandsOut-if pkt s true x y h k = h
    HandsOut-if pkt s false x y h k = k

    completed-HandsOut :
        (tid : ℕ) (pkt : Packet) (nic : Cx5Nic F) (now : ℕ) (s : PipelineState F)
        → Passed F pkt s.nic.cfg (rx_burst F 32 nic)
        → HandsOut pkt s (completed F p eth fault tid nic now s)
    unfolding completed
    completed-HandsOut tid pkt nic now s v = record {
      answer = ap ok v.0;
      nic = v.1;
      transport = refl;
      ring = refl;
      latencies = refl;
    }

    after_dma-HandsOut :
        (tid : ℕ) (pkt : Packet) (s : PipelineState F) (x : Cx5Nic F × Result Cx5Error (Unit {0}))
        → x.1 ≡ ok tt
        → Passed F pkt s.nic.cfg (
            rx_burst F 32 (advance_time F (saturating_add s.now_ns (dma_latency_ns F x.0.cfg)) x.0))
        → HandsOut pkt s (after_dma F p eth fault tid s x)
    unfolding after_dma
    after_dma-HandsOut tid pkt s (nic, ok _) e v =
        let now = saturating_add s.now_ns (dma_latency_ns F nic.cfg) in
        completed-HandsOut tid pkt (advance_time F now nic) now s v
    after_dma-HandsOut tid pkt s (nic, err c) e v = absurd (ground (arith, e))

    at_once-HandsOut :
        (tid : ℕ) (pkt : Packet) (s : PipelineState F) (x : Cx5Nic F × Result Cx5Error (Unit {0}))
        → x.1 ≡ ok tt
        → Passed F pkt s.nic.cfg (rx_burst F 32 x.0)
        → HandsOut pkt s (at_once F p eth fault tid s x)
    unfolding at_once
    at_once-HandsOut tid pkt s (nic, ok _) e v = completed-HandsOut tid pkt nic s.now_ns s v
    at_once-HandsOut tid pkt s (nic, err c) e v = absurd (ground (arith, e))

    through_nic-HandsOut :
        (tid : ℕ) (pkt : Packet) (s : PipelineState F)
        → IsEmpty F s.nic
        → HandsOut pkt s (through_nic F p eth fault tid pkt s)
    unfolding through_nic
    through_nic-HandsOut tid pkt s v =
        let nic = advance_time F s.now_ns s.nic in
        let (taken_later, later) = submit_rx-Passed F pkt s.now_ns s.nic v in
        let (taken_now, now) = submit_rx_ready_at-Passed F pkt s.now_ns s.nic v in
        HandsOut-if pkt s p.include_nic_dma (after_dma F p eth fault tid s (submit_rx F pkt nic))
          (at_once F p eth fault tid s (submit_rx_ready_at F pkt s.now_ns nic))
          (after_dma-HandsOut tid pkt s (submit_rx F pkt nic) taken_later later)
          (at_once-HandsOut tid pkt s (submit_rx_ready_at F pkt s.now_ns nic) taken_now now)

    -- Between two packets: the streams run, and nothing is on its way.
    pub record IsIdle (ids : StreamId → Type 0) (bytes : ℕ) (s : PipelineState F) : Type 0 where
      pub inbox : s.transport.inbox ≡ []
      pub serving : IsServing ids s.transport
      pub nic : IsEmpty F s.nic
      pub ring : IsFree s.ring
      pub slot_bytes : s.ring.slot_bytes ≡ bytes

    -- A packet is handled: delivered with a latency, or counted as late.
    pub record Handled (ids : StreamId → Type 0) (bytes : ℕ) (s : PipelineState F)
        (x : PipelineState F × Result PipelineBenchError (Unit {0})) : Type 0 where
      pub answer : x.1 ≡ ok tt
      pub idle : IsIdle ids bytes x.0
      pub fate :
          ((e2e : ℕ) × (x.0.latencies ≡ s.latencies ++ (e2e ∷ []))
            × (x.0.transport.late_packets ≡ s.transport.late_packets))
          ⊎ ((x.0.latencies ≡ s.latencies)
              × (x.0.transport.late_packets ≡ wrapping_add s.transport.late_packets 1))

    receive_first :
        (m : SimTransportEngine) (packet : Packet)
        → m.inbox ≡ packet ∷ []
        → receive m ≡ (record m { inbox = [] }, ok (some packet))
    unfolding receive
    receive_first m packet e = rw (e, receive) refl

    module _ (ids : StreamId → Type 0) (bytes : ℕ) (packet : Packet)
        (fits : length packet.payload ≤ bytes) where
      -- A state in which the engine has just taken the packet.
      record Offered (s t : PipelineState F) : Type 0 where
        inbox : t.transport.inbox ≡ packet ∷ []
        serving : IsServing ids t.transport
        lates : t.transport.late_packets ≡ s.transport.late_packets
        nic : IsEmpty F t.nic
        ring : IsFree t.ring
        slot_bytes : t.ring.slot_bytes ≡ bytes
        latencies : t.latencies ≡ s.latencies

      -- the host's part
      arrive_host-Handled :
          (tid : ℕ) (s t : PipelineState F)
          → Offered s t
          → Handled ids bytes s (arrive_host F p eth fault tid t)
      unfolding arrive_host received
      arrive_host-Handled tid s t v =
          let m' : SimTransportEngine = record t.transport { inbox = [] } in
          let t' : PipelineState F = record t { transport = m' } in
          let handed = through_nic-HandsOut tid packet t' v.nic in
          let s1 = (through_nic F p eth fault tid packet t').0 in
          let delivered = deliver_all_one tid packet s1 (subst IsFree (sym handed.ring) v.ring) (
            subst (λ r. length packet.payload ≤ r.slot_bytes) (sym handed.ring)
              (omega (arith, fits, v.slot_bytes))) in
          let last = deliver_all F p eth fault tid (packet ∷ []) s1 in
          let chain : arrive_host F p eth fault tid t ≡ last =
            ap (received F p eth fault tid t) (receive_first t.transport packet v.inbox)
            ∙ >>=_ok (through_nic F p eth fault tid packet) (deliver_all F p eth fault tid) t'
                {s' = s1} (λ i. (s1, handed.answer i)) in
          let engine : last.0.transport ≡ m' = delivered.rested.transport ∙ handed.transport in
          subst (Handled ids bytes s) (sym chain) (record {
            answer = delivered.answer;
            idle = record {
              inbox = ap (λ m. m.inbox) engine;
              serving =
                  subst (IsServing ids) (sym engine)
                    (record { open_link = v.serving.open_link; runs = v.serving.runs });
              nic = subst (IsEmpty F) (sym delivered.rested.nic) handed.nic;
              ring = delivered.rested.ring;
              slot_bytes =
                  delivered.rested.slot_bytes ∙ (ap (λ r. r.slot_bytes) handed.ring ∙ v.slot_bytes);
            };
            fate = inl (
              delivered.e2e,
              delivered.latencies
                  ∙ ap (λ xs. xs ++ (delivered.e2e ∷ [])) (handed.latencies ∙ v.latencies),
              ap (λ m. m.late_packets) engine ∙ v.lates,
            );
          })

      offered :
          (s t : PipelineState F) (v : IsIdle ids bytes s) (mine : ids packet.stream_id)
          → Holds ids packet s.transport v.serving mine t.transport
          → t.nic ≡ s.nic
          → t.ring ≡ s.ring
          → t.latencies ≡ s.latencies
          → Offered s t
      offered s t v mine h n r l = record {
        inbox = h.inbox ∙ ap (λ xs. xs ++ (packet ∷ [])) v.inbox;
        serving = h.serving;
        lates = h.lates;
        nic = subst (IsEmpty F) (sym n) v.nic;
        ring = subst IsFree (sym r) v.ring;
        slot_bytes = ap (λ x. x.slot_bytes) r ∙ v.slot_bytes;
        latencies = l;
      }

      -- what `process_one` does behind the departure
      go_on : ℕ → Bool → PipelineState F → PipelineState F × Result PipelineBenchError (Unit {0})
      go_on tid accepted = if accepted then arrive_host F p eth fault tid else pure tt

      -- the state that a late packet leaves
      late_state : ℕ → ℕ → PipelineState F → PipelineState F
      unfolding taken
      late_state latency limit s =
          let m = s.transport in
          let m' : SimTransportEngine = record m { late_packets = wrapping_add m.late_packets 1 } in
          (taken F packet s (m', err (late_packet latency limit))).0

      late-Handled :
          (latency limit : ℕ) (s : PipelineState F)
          → IsIdle ids bytes s
          → Handled ids bytes s (late_state latency limit s, ok tt)
      unfolding late_state
      late-Handled latency limit s v = record {
        answer = refl;
        idle = record {
          inbox = v.inbox;
          serving = record { open_link = v.serving.open_link; runs = v.serving.runs };
          nic = v.nic;
          ring = v.ring;
          slot_bytes = v.slot_bytes;
        };
        fate = inr (refl, refl);
      }

      -- Once `take_in` has answered, the rest follows.
      chained :
          (tid : ℕ) (s t : PipelineState F) (accepted : Bool)
          → take_in F packet s ≡ (t, ok accepted)
          → Handled ids bytes s (go_on tid accepted t)
          → Handled ids bytes s ((take_in F packet >>= go_on tid) s)
      chained tid s t accepted e h =
          subst (Handled ids bytes s) (sym (>>=_ok (take_in F packet) (go_on tid) s e)) h

      take_in-Handled :
          (tid : ℕ) (s : PipelineState F)
          → ids packet.stream_id
          → IsIdle ids bytes s
          → Handled ids bytes s ((take_in F packet >>= go_on tid) s)
      unfolding take_in taken retried go_on late_state
      take_in-Handled tid s mine v = elim (ingest-Outcome ids packet s.transport v.serving mine) [
        | comes_late latency limit e ↦
            chained tid s (late_state latency limit s) false (ap (taken F packet s) e)
              (late-Handled latency limit s v)
        | comes_in m' e holds ↦
            let t : PipelineState F = record s { transport = m' } in
            chained tid s t true (ap (taken F packet s) e)
              (arrive_host-Handled tid s t (offered s t v mine holds refl refl refl))
        | comes_back want m1 m' e again holds ↦
            let t : PipelineState F = record s {
              transport = m';
              recovery = recover F (bytes_of "sequence_gap") s.recovery;
              metrics = record_sequence_gap F s.metrics;
            } in
            let retry : PipelineState F = record s {
              recovery = recover F (bytes_of "sequence_gap") s.recovery;
              metrics = record_sequence_gap F s.metrics;
            } in
            chained tid s t true (ap (taken F packet s) e ∙ ap (retried F retry) again)
              (arrive_host-Handled tid s t (offered s t v mine holds refl refl refl))
      ]

      -- A packet whose payload fits a slot, of one of a set of streams that all run, over an open link, is
      -- sent into a pipeline whose inbox and NIC are empty, whose NIC has a receive queue of depth one or
      -- more, and whose ring has one slot or more, all of them free. It is delivered with one latency more,
      -- or counted as one late packet more with the same latencies. There is no error, and all this holds
      -- of the pipeline again.
      pub process_one-Handled :
          (s : PipelineState F)
          → ids packet.stream_id
          → IsIdle ids bytes s
          → Handled ids bytes s (process_one F p eth fault packet s)
      unfolding process_one depart go_on
      process_one-Handled s mine v =
          let (s', tid) = depart F p eth fault packet s in
          let w : IsIdle ids bytes s' = record {
            inbox = v.inbox;
            serving = record { open_link = v.serving.open_link; runs = v.serving.runs };
            nic = v.nic;
            ring = v.ring;
            slot_bytes = v.slot_bytes;
          } in
          let h = take_in-Handled tid s' mine w in
          record { answer = h.answer; idle = h.idle; fate = h.fate }
