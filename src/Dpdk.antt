-- ===== src/Dpdk.antt =====
-- The DPDK-shaped packet I/O of crates/cx5-emulator/src/lib.rs with its mbuf pool, and the stub of
-- crates/dpdk-adapter/src/lib.rs. A text that the code computes with is the list of its bytes.
pub mod Pool
mod Tests
use Prim.Native.String.{String}
use aether_radio_sim.Base.{
  ℕ, ◌+◌, ◌-◌, List, [], ◌∷◌, ◌++◌, map, Bool, true, false, not, ◌&&◌, ◌||◌, Result, ok, err,
  length, take, drop, leb, if◌then◌else◌, min, saturating_sub, wrapping_add,
}
use aether_radio_sim.Base.Machine.{Method}
use aether_radio_sim.Types.{Packet}
use aether_radio_sim.Nic.{Cx5Error, config, backend_unavailable, mbuf_exhausted}
use aether_radio_sim.Base.Text.{to_ascii_lowercase, text_eq, bytes_of}

pub record DpdkBackendConfig : Type 0 where
  pub version : String
  pub id : String
  pub backend : List ℕ
  pub enabled : Bool
  pub pci_address : String
  pub rx_queues : ℕ
  pub tx_queues : ℕ
  pub mbuf_pool_size : ℕ
  pub burst_size : ℕ
  pub poll_cost_ns : ℕ
  pub hugepage_mb : ℕ

pub record DpdkPacketIo : Type 0 where
  pub cfg : DpdkBackendConfig
  pub rx : List Packet
  pub tx : List Packet
  pub mbufs_in_use : ℕ
  pub poll_cycles : ℕ
  pub last_poll_cost_ns : ℕ

-- `matches!(mode, "hardware" | "libdpdk" | "real")`
unfoldable pub is_hardware : List ℕ → Bool
unfolding text_eq
is_hardware mode =
    text_eq mode (bytes_of "hardware")
    || (text_eq mode (bytes_of "libdpdk") || text_eq mode (bytes_of "real"))

-- `matches!(mode, "mock" | "simulation" | "sim")`
unfoldable pub is_mock : List ℕ → Bool
unfolding text_eq
is_mock mode =
    text_eq mode (bytes_of "mock")
    || (text_eq mode (bytes_of "simulation") || text_eq mode (bytes_of "sim"))

-- the freshly opened device
unfoldable pub opened : DpdkBackendConfig → DpdkPacketIo
opened cfg = record {
  cfg = cfg;
  rx = [];
  tx = [];
  mbufs_in_use = 0;
  poll_cycles = 0;
  last_poll_cost_ns = 0;
}

unfoldable pub open_config : DpdkBackendConfig → Result Cx5Error DpdkPacketIo
unfolding is_hardware is_mock to_ascii_lowercase
open_config cfg =
    let mode = to_ascii_lowercase cfg.backend in
    if is_hardware mode || not cfg.enabled
    then err (backend_unavailable mode cfg.enabled)
    else if not (is_mock mode)
    then err (config mode)
    else ok (opened cfg)

-- The loop of `inject_rx`: what was pushed before the pool ran out stays.
unfoldable pub inject_rx : List Packet → Method DpdkPacketIo Cx5Error (Unit {0})
inject_rx [] io = (io, ok tt)
inject_rx (p ∷ ps) io =
    let rest =
      inject_rx ps
        (record io { rx = io.rx ++ (p ∷ []); mbufs_in_use = wrapping_add io.mbufs_in_use 1 }) in
    if leb io.cfg.mbuf_pool_size io.mbufs_in_use then (io, err mbuf_exhausted) else rest

unfoldable pub rx_burst : ℕ → DpdkPacketIo → DpdkPacketIo × List Packet
rx_burst most io =
    let n = min (min most io.cfg.burst_size) (length io.rx) in
    let out = take n io.rx in
    (
      record io {
        rx = drop n io.rx;
        mbufs_in_use = saturating_sub io.mbufs_in_use (length out);
        poll_cycles = wrapping_add io.poll_cycles 1;
        last_poll_cost_ns = io.cfg.poll_cost_ns;
      },
      out,
    )

unfoldable pub tx_burst : List Packet → DpdkPacketIo → DpdkPacketIo × ℕ
tx_burst packets io =
    let room =
      min (min (saturating_sub io.cfg.mbuf_pool_size io.mbufs_in_use) io.cfg.burst_size)
        (length packets) in
    let taken = take room packets in
    let n = length taken in
    let in_use = wrapping_add io.mbufs_in_use n in
    (
      record io {
        tx = io.tx ++ taken;
        mbufs_in_use = saturating_sub in_use n;
        poll_cycles = wrapping_add io.poll_cycles 1;
        last_poll_cost_ns = io.cfg.poll_cost_ns;
      },
      n,
    )

-- crates/dpdk-adapter: the probe never finds hardware.
pub data AdapterError : Type 0 where
  unavailable : List ℕ → AdapterError
  adapter_config : List ℕ → AdapterError

pub data HardwareProbe : Type 0 where
  probe_unavailable : List ℕ → HardwareProbe

unfoldable pub probe_hardware : HardwareProbe
probe_hardware =
    probe_unavailable
      (bytes_of "dpdk-adapter spike build has no libdpdk/DOCA linkage; use backend=mock")

unfoldable pub open_hardware : List ℕ → Result AdapterError (Unit {0})
unfolding probe_hardware
open_hardware pci_address = elim probe_hardware [
  | probe_unavailable reason ↦ err (unavailable reason)
]
