-- ===== src/Nic/Tests.antt =====
-- Concrete runs of the CX5 model of crates/cx5-emulator/src/lib.rs.
use aether_radio_sim.Base.{ℕ, List, [], ◌∷◌, ◌++◌, ◌≡◌, arith}
use aether_radio_sim.Base.Floats.{fractions}
use aether_radio_sim.Types.{Packet}
use aether_radio_sim.Nic.{NicDmaConfig, Cx5Nic, nic_new, poll_completions}
use aether_radio_sim.Nic.Poll.{due, under_way, poll_completions_lem}
use aether_radio_sim.Nic.Limits.{NicOp, WithinLimits, run-new-WithinLimits, tx_burst_lem}
use aether_radio_sim.Nic.Fifo.{RxOp, Monotone, History, held, start, run_fifo}
use aether_radio_sim.Nic.Fifo
use aether_radio_sim.Nic.Limits

abbrev dma : NicDmaConfig fractions
dma = record {
  version = "v1";
  id = "nic";
  nic_dma_latency_us = (3, 2);
  rx_queue_depth = 2;
  tx_queue_depth = 2;
  completion_queue_depth = 8;
}

abbrev numbered : ℕ → Packet
numbered n = record { stream_id = 1; sequence = n; timestamp = 0; payload = [] }

-- one packet due, one under way
abbrev waiting_nic : Cx5Nic fractions
waiting_nic = record {
  cfg = dma;
  now_ns = 2000;
  pending =
      record { ready_at_ns = 1500; packet = numbered 1 }
      ∷ record { ready_at_ns = 2500; packet = numbered 2 }
      ∷ [];
  rx_ready = numbered 0 ∷ [];
  tx = numbered 8 ∷ [];
  completions = 4;
}

poll_completions_lem_example : poll_completions fractions waiting_nic ≡ record waiting_nic {
  rx_ready = numbered 0 ∷ numbered 1 ∷ [];
  completions = 5;
  pending = record { ready_at_ns = 2500; packet = numbered 2 } ∷ [];
}
unfolding due under_way
poll_completions_lem_example = poll_completions_lem fractions waiting_nic (omega arith)

nic_calls : List NicOp
nic_calls =
    NicOp.submits (numbered 1)
    ∷ NicOp.submits_at (numbered 2) 7
    ∷ NicOp.submits (numbered 3)
    ∷ NicOp.transmits (numbered 4 ∷ numbered 5 ∷ numbered 6 ∷ [])
    ∷ NicOp.advances 5000
    ∷ NicOp.receives 1
    ∷ []

run-new-WithinLimits_example :
    WithinLimits fractions (Limits.run fractions nic_calls (nic_new fractions dma))
run-new-WithinLimits_example = run-new-WithinLimits fractions dma nic_calls

abbrev rx_calls : List RxOp
rx_calls =
    RxOp.submits (numbered 1)
    ∷ RxOp.advances 1000
    ∷ RxOp.submits (numbered 2)
    ∷ RxOp.submits (numbered 3)
    ∷ RxOp.advances 1600
    ∷ RxOp.receives 4
    ∷ []

rx_calls-Monotone : Monotone 0 rx_calls
rx_calls-Monotone = ground arith

run_fifo_example :
    let h = Fifo.run fractions rx_calls (start fractions dma) in
    h.accepted ≡ h.delivered ++ held fractions h.nic
run_fifo_example = run_fifo fractions dma rx_calls rx_calls-Monotone
