-- ===== src/Nic/Limits.antt =====
-- The queue limits of the CX5 model in crates/cx5-emulator/src/lib.rs.
use aether_radio_sim.Base.{
  ℕ, ◌+◌, ◌-◌, ◌^◌, ◌<◌, ◌≤◌, ◌≡◌, List, [], ◌∷◌, ◌++◌, length, length-append, length-take,
  length-drop, take, leb, arith, Bool-cases, inl, inr, min, take_all,
}
use aether_radio_sim.Base.Floats.{Float64}
use aether_radio_sim.Types.{Packet}
use aether_radio_sim.Nic.{
  NicDmaConfig, Cx5Nic, nic_new, poll_completions, advance_time, submit_rx_ready_at, submit_rx,
  rx_burst, tx_burst,
}
use aether_radio_sim.Nic.Poll.{due, poll_completions_lem, length-due-under_way}

-- A call on the NIC with its arguments.
pub data NicOp : Type 0 where
  advances : ℕ → NicOp
  submits : Packet → NicOp
  submits_at : Packet → ℕ → NicOp
  receives : ℕ → NicOp
  transmits : List Packet → NicOp

module _ (F : Float64) where
  unfoldable pub step : NicOp → Cx5Nic F → Cx5Nic F
  step (advances now) nic = advance_time F now nic
  step (submits packet) nic = (submit_rx F packet nic).0
  step (submits_at packet t) nic = (submit_rx_ready_at F packet t nic).0
  step (receives n) nic = (rx_burst F n nic).0
  step (transmits packets) nic = (tx_burst F packets nic).0

  unfoldable pub run : List NicOp → Cx5Nic F → Cx5Nic F
  run [] nic = nic
  run (o ∷ os) nic = run os (step o nic)

  pub record WithinLimits (nic : Cx5Nic F) : Type 0 where
    pub rx : length nic.pending + length nic.rx_ready ≤ nic.cfg.rx_queue_depth
    pub tx : length nic.tx ≤ nic.cfg.tx_queue_depth
    pub count : nic.completions < 2 ^ 64

  poll-WithinLimits : (nic : Cx5Nic F) → WithinLimits nic → WithinLimits (poll_completions F nic)
  poll-WithinLimits nic v = rw (poll_completions_lem F nic v.count) (record {
    rx = omega (
      arith,
      v,
      length-append nic.rx_ready (due nic.now_ns nic.pending),
      length-due-under_way nic.now_ns nic.pending,
    );
    tx = v.tx;
    count = omega arith;
  })

  submit-WithinLimits :
      (packet : Packet) (t : ℕ) (nic : Cx5Nic F)
      → WithinLimits nic
      → WithinLimits (submit_rx_ready_at F packet t nic).0
  unfolding submit_rx_ready_at
  submit-WithinLimits packet t nic v =
      elim (Bool-cases (leb nic.cfg.rx_queue_depth (length nic.pending + length nic.rx_ready))) [
        | inl full ↦ rw full v
        | inr room ↦ rw room (
            poll-WithinLimits _ (record {
              rx = ground (
                arith,
                v.rx,
                length-append nic.pending (record { ready_at_ns = t; packet = packet } ∷ []),
              );
              tx = v.tx;
              count = v.count;
            }))
      ]

  receive-WithinLimits :
      (n : ℕ) (nic : Cx5Nic F) → WithinLimits nic → WithinLimits (rx_burst F n nic).0
  unfolding rx_burst
  receive-WithinLimits n nic v =
      let polled = poll_completions F nic in
      let p = poll-WithinLimits nic v in
      record {
        rx = omega (arith, p.rx, length-drop (min n (length polled.rx_ready)) polled.rx_ready);
        tx = p.tx;
        count = p.count;
      }

  -- `tx_burst` takes the packets that fit, from the front, and says how many.
  pub tx_burst_lem :
      (packets : List Packet) (nic : Cx5Nic F)
      → length nic.tx ≤ nic.cfg.tx_queue_depth
      → let (nic', n) = tx_burst F packets nic in
        (n ≡ min (length packets) (nic.cfg.tx_queue_depth - length nic.tx))
        × (nic'.tx ≡ nic.tx ++ take n packets)
        × (length nic'.tx ≤ nic.cfg.tx_queue_depth)
  unfolding tx_burst
  tx_burst_lem packets nic h = ground (
    arith,
    take_all (length packets) packets (omega arith),
    length-append nic.tx packets,
    length-append nic.tx (take (nic.cfg.tx_queue_depth - length nic.tx) packets),
    length-take (nic.cfg.tx_queue_depth - length nic.tx) packets,
  )

  transmit-WithinLimits :
      (packets : List Packet) (nic : Cx5Nic F)
      → WithinLimits nic
      → WithinLimits (tx_burst F packets nic).0
  unfolding tx_burst
  transmit-WithinLimits packets nic v = ground (arith, v, tx_burst_lem packets nic v.tx)

  step-WithinLimits : (o : NicOp) (nic : Cx5Nic F) → WithinLimits nic → WithinLimits (step o nic)
  unfolding step submit_rx advance_time
  step-WithinLimits (advances now) nic v =
      poll-WithinLimits _ (record { rx = v.rx; tx = v.tx; count = v.count })
  step-WithinLimits (submits packet) nic v = submit-WithinLimits packet _ nic v
  step-WithinLimits (submits_at packet t) nic v = submit-WithinLimits packet t nic v
  step-WithinLimits (receives n) nic v = receive-WithinLimits n nic v
  step-WithinLimits (transmits packets) nic v = transmit-WithinLimits packets nic v

  run-WithinLimits :
      (os : List NicOp) (nic : Cx5Nic F) → WithinLimits nic → WithinLimits (run os nic)
  unfolding run
  run-WithinLimits [] nic v = v
  run-WithinLimits (o ∷ os) nic v = run-WithinLimits os (step o nic) (step-WithinLimits o nic v)

  -- No sequence of calls on a new NIC puts more packets into its receive side, under DMA or ready,
  -- than `rx_queue_depth`, nor more into `tx` than `tx_queue_depth`.
  pub run-new-WithinLimits :
      (cfg : NicDmaConfig F) (os : List NicOp) → WithinLimits (run os (nic_new F cfg))
  unfolding nic_new
  run-new-WithinLimits cfg os = run-WithinLimits os _ (omega arith)
