-- ===== src/Nic/Fifo.antt =====
-- The receive side of the CX5 model in crates/cx5-emulator/src/lib.rs as a queue: with a clock that
-- does not run backwards, packets come out in the order in which they went in.
use aether_radio_sim.Base.{
  ℕ, ◌+◌, ◌^◌, ◌<◌, ◌≤◌, ◌≡◌, refl, ap, sym, ◌∙◌, List, [], ◌∷◌, ◌++◌, map, append_assoc, length,
  take, drop, leb, arith, Bool-cases, inl, inr, Result, ok, err, min, saturating_add,
  take-append-drop, All-append_one,
}
use mathlib.Core.List.{map-append}
use aether_radio_sim.Base.Floats.{Float64}
use aether_radio_sim.Types.{Packet}
use aether_radio_sim.Nic.{
  NicDmaConfig, PendingRx, Cx5Nic, Cx5Error, nic_new, dma_latency_ns, poll_completions,
  advance_time, submit_rx_ready_at, submit_rx, rx_burst,
}
use aether_radio_sim.Nic.Poll.{
  due, poll_completions_lem, due-prefix, Sorted, ReadyBy, under_way-Sorted, under_way-ReadyBy,
  Sorted-append,
}

pub data RxOp : Type 0 where
  advances : ℕ → RxOp
  submits : Packet → RxOp
  receives : ℕ → RxOp

-- The clock's settings do not fall, from `now` on, and fit a `u64`.
abbrev pub Monotone : ℕ → List RxOp → Type 0
Monotone now [] = Unit
Monotone now (advances t ∷ os) = (now ≤ t) × Monotone t os
Monotone now (submits packet ∷ os) = Monotone now os
Monotone now (receives n ∷ os) = Monotone now os

module _ (F : Float64) where
  -- The NIC with what it has accepted and handed over so far, each in order.
  pub record History : Type 0 where
    pub nic : Cx5Nic F
    pub accepted : List Packet
    pub delivered : List Packet

  abbrev noted : List Packet → Packet → Result Cx5Error (Unit {0}) → List Packet
  noted packets packet (ok _) = packets ++ (packet ∷ [])
  noted packets packet (err _) = packets

  unfoldable pub step : RxOp → History → History
  step (advances t) h = record h { nic = advance_time F t h.nic }
  step (submits packet) h =
      let (nic, r) = submit_rx F packet h.nic in
      record h { nic = nic; accepted = noted h.accepted packet r }
  step (receives n) h =
      let (nic, packets) = rx_burst F n h.nic in
      record h { nic = nic; delivered = h.delivered ++ packets }

  unfoldable pub run : List RxOp → History → History
  run [] h = h
  run (o ∷ os) h = run os (step o h)

  -- what the NIC holds, in the order of hand-over
  abbrev pub held : Cx5Nic F → List Packet
  held nic = nic.rx_ready ++ map (λ p. p.packet) nic.pending

  record InOrder (now latency : ℕ) (nic : Cx5Nic F) : Type 0 where
    clock : nic.now_ns ≡ now
    delay : dma_latency_ns F nic.cfg ≡ latency
    sorted : Sorted nic.pending
    ready_by : ReadyBy (saturating_add now latency) nic.pending
    count : nic.completions < 2 ^ 64

  held-poll :
      (nic : Cx5Nic F)
      → nic.completions < 2 ^ 64
      → Sorted nic.pending
      → held (poll_completions F nic) ≡ held nic
  held-poll nic c s =
      ap held (poll_completions_lem F nic c)
      ∙ (append_assoc nic.rx_ready (due nic.now_ns nic.pending) _
          ∙ ap (◌++◌ nic.rx_ready) (due-prefix nic.now_ns nic.pending s))

  InOrder-poll :
      (now latency : ℕ) (nic : Cx5Nic F)
      → InOrder now latency nic
      → InOrder now latency (poll_completions F nic)
  InOrder-poll now latency nic v = rw (poll_completions_lem F nic v.count) (record {
    clock = v.clock;
    delay = v.delay;
    sorted = under_way-Sorted nic.now_ns nic.pending v.sorted;
    ready_by = under_way-ReadyBy nic.now_ns _ nic.pending v.ready_by;
    count = omega arith;
  })

  ReadyBy-mono : (s t : ℕ) (ps : List PendingRx) → s ≤ t → ReadyBy s ps → ReadyBy t ps
  ReadyBy-mono s t [] h r = tt
  ReadyBy-mono s t (p ∷ ps) h r = (omega arith, ReadyBy-mono s t ps h r.1)

  -- after a submission with room, before the poll
  queued : Packet → Cx5Nic F → Cx5Nic F
  queued packet nic = record nic {
    pending =
        nic.pending
        ++ (record {
          ready_at_ns = saturating_add nic.now_ns (dma_latency_ns F nic.cfg);
          packet = packet;
        }
            ∷ []);
  }

  queued-InOrder :
      (now latency : ℕ) (packet : Packet) (nic : Cx5Nic F)
      → InOrder now latency nic
      → InOrder now latency (queued packet nic)
  unfolding queued
  queued-InOrder now latency packet nic v = record {
    clock = v.clock;
    delay = v.delay;
    sorted =
        Sorted-append (saturating_add now latency) nic.pending _ v.sorted v.ready_by
          (omega (arith, v.clock, v.delay));
    ready_by = All-append_one _ nic.pending _ v.ready_by (omega (arith, v.clock, v.delay));
    count = v.count;
  }

  record Tracks (now latency : ℕ) (h : History) : Type 0 where
    order : InOrder now latency h.nic
    fifo : h.accepted ≡ h.delivered ++ held h.nic

  advance-Tracks :
      (now latency t : ℕ) (h : History)
      → now ≤ t
      → Tracks now latency h
      → Tracks t latency (step (advances t) h)
  unfolding step advance_time
  advance-Tracks now latency t h le v = record {
    order = InOrder-poll t latency later in_order;
    fifo = v.fifo ∙ ap (◌++◌ h.delivered) (sym (held-poll later v.order.count v.order.sorted));
  }
    where
      later : Cx5Nic F
      later = record (h.nic) { now_ns = t }

      in_order : InOrder t latency later
      in_order = record {
        clock = refl;
        delay = v.order.delay;
        sorted = v.order.sorted;
        ready_by = ReadyBy-mono (saturating_add now latency) _ _ (omega arith) v.order.ready_by;
        count = v.order.count;
      }

  held-queued :
      (packet : Packet) (nic : Cx5Nic F) → held (queued packet nic) ≡ held nic ++ (packet ∷ [])
  unfolding queued
  held-queued packet nic =
      ap (◌++◌ nic.rx_ready) (map-append (λ p. p.packet) nic.pending _)
      ∙ sym (append_assoc nic.rx_ready (map (λ p. p.packet) nic.pending) (packet ∷ []))

  submit-Tracks :
      (now latency : ℕ) (packet : Packet) (h : History)
      → Tracks now latency h
      → Tracks now latency (step (submits packet) h)
  unfolding step submit_rx submit_rx_ready_at queued
  submit-Tracks now latency packet h v =
      elim (Bool-cases
        (leb h.nic.cfg.rx_queue_depth (length h.nic.pending + length h.nic.rx_ready))) [
          | inl full ↦ rw full (record { order = v.order; fifo = v.fifo })
          | inr room ↦
              let w = queued-InOrder now latency packet h.nic v.order in
              rw room (record {
                order = InOrder-poll now latency (queued packet h.nic) w;
                fifo =
                    ap (λ xs. xs ++ (packet ∷ [])) v.fifo
                    ∙ (append_assoc h.delivered (held h.nic) (packet ∷ [])
                        ∙ ap (◌++◌ h.delivered) (
                            sym (
                              held-poll (queued packet h.nic) w.count w.sorted
                              ∙ held-queued packet h.nic)));
              })
        ]

  receive-Tracks :
      (now latency n : ℕ) (h : History)
      → Tracks now latency h
      → Tracks now latency (step (receives n) h)
  unfolding step rx_burst
  receive-Tracks now latency n h v =
      let polled = poll_completions F h.nic in
      let w = InOrder-poll now latency h.nic v.order in
      let k = min n (length polled.rx_ready) in
      record {
        order = record {
          clock = w.clock;
          delay = w.delay;
          sorted = w.sorted;
          ready_by = w.ready_by;
          count = w.count;
        };
        fifo =
            v.fifo
            ∙ (ap (◌++◌ h.delivered) (sym (held-poll h.nic v.order.count v.order.sorted))
                ∙ (ap (λ xs. h.delivered ++ (xs ++ map (λ p. p.packet) polled.pending))
                      (sym (take-append-drop k polled.rx_ready))
                    ∙ (ap (◌++◌ h.delivered)
                          (append_assoc (take k polled.rx_ready) (drop k polled.rx_ready) _)
                        ∙ sym (append_assoc h.delivered (take k polled.rx_ready) _))));
      }

  run-Tracks :
      (os : List RxOp) (now latency : ℕ) (h : History)
      → Monotone now os
      → Tracks now latency h
      → (run os h).accepted ≡ (run os h).delivered ++ held (run os h).nic
  unfolding run
  run-Tracks [] now latency h m v = v.fifo
  run-Tracks (advances t ∷ os) now latency h m v =
      run-Tracks os t latency (step (advances t) h) m.1 (advance-Tracks now latency t h m.0 v)
  run-Tracks (submits packet ∷ os) now latency h m v =
      run-Tracks os now latency (step (submits packet) h) m (submit-Tracks now latency packet h v)
  run-Tracks (receives n ∷ os) now latency h m v =
      run-Tracks os now latency (step (receives n) h) m (receive-Tracks now latency n h v)

  unfoldable pub start : NicDmaConfig F → History
  start cfg = record { nic = nic_new F cfg; accepted = []; delivered = [] }

  -- On a new NIC whose clock is never set back, the packets accepted so far are, in order, those
  -- handed over by `rx_burst`, then those ready, then those under DMA: none is lost, doubled or
  -- overtaken.
  pub run_fifo :
      (cfg : NicDmaConfig F) (os : List RxOp)
      → Monotone 0 os
      → let h = run os (start cfg) in h.accepted ≡ h.delivered ++ held h.nic
  unfolding start nic_new
  run_fifo cfg os m = run-Tracks os 0 (dma_latency_ns F cfg) (start cfg) m (record {
    order = record { clock = refl; delay = refl; sorted = tt; ready_by = tt; count = omega arith };
    fifo = refl;
  })
