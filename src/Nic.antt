-- ===== src/Nic.antt =====
-- The NIC model of crates/cx5-emulator/src/lib.rs: the plain queue pair, and the CX5 whose received
-- packets pass a DMA delay. `drain(0..n).collect()` takes the first n entries off a vector.
pub mod Poll
pub mod Fifo
pub mod Limits
pub mod Idle
mod Tests
use Prim.Native.String.{String}
use aether_radio_sim.Base.{
  ℕ, ◌+◌, ◌-◌, List, [], ◌∷◌, ◌++◌, Bool, true, false, Result, ok, err, length, take, drop, ltb,
  leb, if◌then◌else◌, min, saturating_add, saturating_sub, wrapping_add,
}
use aether_radio_sim.Base.Floats.{Float64}
use aether_radio_sim.Base.Machine.{Method}
use aether_radio_sim.Types.{Packet}

-- `SimPacketIO`
pub record SimPacketIo : Type 0 where
  pub rx : List Packet
  pub tx : List Packet

unfoldable pub sim_rx_burst : ℕ → SimPacketIo → SimPacketIo × List Packet
sim_rx_burst n io = let k = min n (length io.rx) in (record io { rx = drop k io.rx }, take k io.rx)

unfoldable pub sim_tx_burst : List Packet → SimPacketIo → SimPacketIo × ℕ
sim_tx_burst packets io = (record io { tx = io.tx ++ packets }, length packets)

pub record NicDmaConfig (F : Float64) : Type 0 where
  pub version : String
  pub id : String
  pub nic_dma_latency_us : F.Num
  pub rx_queue_depth : ℕ
  pub tx_queue_depth : ℕ
  pub completion_queue_depth : ℕ

unfoldable pub dma_latency_ns : (F : Float64) → NicDmaConfig F → ℕ
dma_latency_ns F cfg = F.to_u64 (F.mul cfg.nic_dma_latency_us (F.of_nat 1000))

pub record PendingRx : Type 0 where
  pub ready_at_ns : ℕ
  pub packet : Packet

-- The texts in an error are the values that its message is formatted from.
pub data Cx5Error : Type 0 where
  config : List ℕ → Cx5Error
  queue_full : Cx5Error
  backend_unavailable : List ℕ → Bool → Cx5Error
  mbuf_exhausted : Cx5Error

-- The loop of `poll_completions` over the drained vector: what it has moved to `rx_ready`, the
-- counter, and what is still pending.
unfoldable pub poll_from :
    ℕ → List PendingRx → List Packet → ℕ → List PendingRx → List Packet × ℕ × List PendingRx
poll_from now [] rx_ready completions still = (rx_ready, completions, still)
poll_from now (p ∷ ps) rx_ready completions still = elim (leb p.ready_at_ns now) [
  | true ↦ poll_from now ps (rx_ready ++ (p.packet ∷ [])) (wrapping_add completions 1) still
  | false ↦ poll_from now ps rx_ready completions (still ++ (p ∷ []))
]

module _ (F : Float64) where
  pub record Cx5Nic : Type 0 where
    pub cfg : NicDmaConfig F
    pub now_ns : ℕ
    pub pending : List PendingRx
    pub rx_ready : List Packet
    pub tx : List Packet
    pub completions : ℕ

  unfoldable pub nic_new : NicDmaConfig F → Cx5Nic
  nic_new cfg = record {
    cfg = cfg;
    now_ns = 0;
    pending = [];
    rx_ready = [];
    tx = [];
    completions = 0;
  }

  unfoldable pub poll_completions : Cx5Nic → Cx5Nic
  poll_completions nic =
      let (ready, count, still) =
        poll_from nic.now_ns nic.pending nic.rx_ready nic.completions [] in
      record nic { rx_ready = ready; completions = count; pending = still }

  unfoldable pub advance_time : ℕ → Cx5Nic → Cx5Nic
  advance_time now nic = poll_completions (record nic { now_ns = now })

  unfoldable pub submit_rx_ready_at : Packet → ℕ → Method Cx5Nic Cx5Error (Unit {0})
  submit_rx_ready_at packet ready_at_ns nic =
      if leb nic.cfg.rx_queue_depth (length nic.pending + length nic.rx_ready)
      then (nic, err queue_full)
      else (
        poll_completions (record nic {
          pending = nic.pending ++ (record { ready_at_ns = ready_at_ns; packet = packet } ∷ []);
        }),
        ok tt,
      )

  unfoldable pub submit_rx : Packet → Method Cx5Nic Cx5Error (Unit {0})
  submit_rx packet nic =
      submit_rx_ready_at packet (saturating_add nic.now_ns (dma_latency_ns F nic.cfg)) nic

  unfoldable pub rx_burst : ℕ → Cx5Nic → Cx5Nic × List Packet
  rx_burst most nic =
      let polled = poll_completions nic in
      let n = min most (length polled.rx_ready) in
      (record polled { rx_ready = drop n polled.rx_ready }, take n polled.rx_ready)

  unfoldable pub tx_burst : List Packet → Cx5Nic → Cx5Nic × ℕ
  tx_burst packets nic =
      let n = length packets in
      let room = saturating_sub nic.cfg.tx_queue_depth (length nic.tx) in
      if ltb nic.cfg.tx_queue_depth (length nic.tx + n)
      then (record nic { tx = nic.tx ++ take room packets }, room)
      else (record nic { tx = nic.tx ++ packets }, n)
