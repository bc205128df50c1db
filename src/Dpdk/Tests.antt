-- ===== src/Dpdk/Tests.antt =====
-- Concrete devices of crates/cx5-emulator/src/lib.rs.
use aether_radio_sim.Base.{◌≡◌, ◌↔◌, ◌⊎◌, [], ok, err, true, false}
use aether_radio_sim.Nic.{Cx5Error, config, backend_unavailable}
use aether_radio_sim.Dpdk.{DpdkBackendConfig, DpdkPacketIo, is_mock, is_hardware, open_config}
use aether_radio_sim.Base.Text.{bytes_of, to_ascii_lowercase}
use aether_radio_sim.Dpdk.Pool.{open_config_lem}

abbrev mock_config : DpdkBackendConfig
mock_config = record {
  version = "v1";
  id = "dpdk";
  backend = bytes_of "Mock";
  enabled = true;
  pci_address = "0000:00:00.0";
  rx_queues = 1;
  tx_queues = 1;
  mbuf_pool_size = 3;
  burst_size = 2;
  poll_cost_ns = 120;
  hugepage_mb = 0;
}

open_config_lem_example :
    let mode = to_ascii_lowercase mock_config.backend in
    ((io : DpdkPacketIo)
      → (open_config mock_config ≡ ok io) ↔ (
          (mock_config.enabled ≡ true)
          × (is_mock mode ≡ true)
          × (io ≡ record {
            cfg = mock_config;
            rx = [];
            tx = [];
            mbufs_in_use = 0;
            poll_cycles = 0;
            last_poll_cost_ns = 0;
          })))
    × ((e : Cx5Error)
        → (open_config mock_config ≡ err e) ↔ (
            (((is_hardware mode ≡ true) ⊎ (mock_config.enabled ≡ false))
              × (e ≡ backend_unavailable mode mock_config.enabled))
            ⊎ ((mock_config.enabled ≡ true)
                × (is_hardware mode ≡ false)
                × (is_mock mode ≡ false)
                × (e ≡ config mode))))
open_config_lem_example = open_config_lem mock_config
