-- ===== src/Dpdk/Pool.antt =====
-- The mbuf pool of crates/cx5-emulator/src/lib.rs.
use aether_radio_sim.Base.{
  ℕ, zero, suc, wrapping_add, ◌+◌, ◌-◌, ◌^◌, ◌<◌, ◌≤◌, ◌≡◌, ◌↔◌, ◌⊎◌, refl, ap, sym, ◌∙◌, List, [],
  ◌∷◌, ◌++◌, length, length-append, length-take, length-drop, take, ltb, ltb-suc, leb,
  if◌then◌else◌, arith, Bool-cases, inl, inr, true, false, ok, err, min, subst, append_assoc,
  append-nil, take-append-drop,
}
use aether_radio_sim.Types.{Packet}
use aether_radio_sim.Nic.{Cx5Error, config, backend_unavailable, mbuf_exhausted}
use aether_radio_sim.Base.Text.{to_ascii_lowercase, text_eq, text_eq-eq, bytes_of}
use aether_radio_sim.Dpdk.{
  DpdkBackendConfig, DpdkPacketIo, is_hardware, is_mock, opened, open_config, inject_rx, rx_burst,
  tx_burst,
}

-- One mbuf for each packet that waits to be received, within the pool.
pub record MbufsValid (io : DpdkPacketIo) : Type 0 where
  pub held : io.mbufs_in_use ≡ length io.rx
  pub bounded : io.mbufs_in_use ≤ io.cfg.mbuf_pool_size
  pub small : io.cfg.mbuf_pool_size < 2 ^ 64

take-nil : (n : ℕ) → take {A = Packet} n [] ≡ []
take-nil zero = refl
take-nil (suc n) = refl

-- the device once a packet is pushed
abbrev pushed : Packet → DpdkPacketIo → DpdkPacketIo
pushed p io = record io { rx = io.rx ++ (p ∷ []); mbufs_in_use = wrapping_add io.mbufs_in_use 1 }

pushed-MbufsValid :
    (p : Packet) (io : DpdkPacketIo)
    → MbufsValid io
    → io.mbufs_in_use < io.cfg.mbuf_pool_size
    → MbufsValid (pushed p io)
pushed-MbufsValid p io v h = record {
  held = omega (arith, v, length-append io.rx (p ∷ []));
  bounded = omega (arith, v);
  small = v.small;
}

-- `inject_rx` takes packets from the front while the pool has mbufs, appends them in order, and fails
-- exactly when some packet is left over; what it took stays.
pub inject_rx_lem :
    (ps : List Packet) (io : DpdkPacketIo)
    → MbufsValid io
    → let room = io.cfg.mbuf_pool_size - io.mbufs_in_use in
      let (io', r) = inject_rx ps io in
      (io'.rx ≡ io.rx ++ take room ps)
      × (r ≡ (if ltb room (length ps) then err mbuf_exhausted else ok tt))
      × MbufsValid io'
unfolding inject_rx
inject_rx_lem [] io v = (
  sym (
      ap (λ xs. io.rx ++ xs) (take-nil (io.cfg.mbuf_pool_size - io.mbufs_in_use))
      ∙ append-nil io.rx),
  ground arith,
  v,
)
inject_rx_lem (p ∷ ps) io v = elim (Bool-cases (leb io.cfg.mbuf_pool_size io.mbufs_in_use)) [
  | inl full ↦
      let no_room : io.cfg.mbuf_pool_size - io.mbufs_in_use ≡ 0 = ground (arith, full) in
      rw (full, no_room) (sym (append-nil io.rx), ground arith, v)
  | inr room ↦
      let more : io.cfg.mbuf_pool_size - io.mbufs_in_use
          ≡ suc (io.cfg.mbuf_pool_size - (io.mbufs_in_use + 1)) =
        ground (arith, room) in
      let exact : wrapping_add io.mbufs_in_use 1 ≡ io.mbufs_in_use + 1 = ground (arith, room, v) in
      let (rx, r, valid) =
        inject_rx_lem ps (pushed p io) (pushed-MbufsValid p io v (ground (arith, room))) in
      rw
        (
          room,
          more,
          sym (
              append_assoc io.rx (p ∷ [])
                (take (io.cfg.mbuf_pool_size - (io.mbufs_in_use + 1)) ps)),
        )
        (
          subst
              (λ k.
                (inject_rx ps (pushed p io)).0.rx
                ≡ (io.rx ++ (p ∷ [])) ++ take (io.cfg.mbuf_pool_size - k) ps)
              exact rx,
          subst
                (λ k. (inject_rx ps (pushed p io)).1 ≡ (
                  if ltb (io.cfg.mbuf_pool_size - k) (length ps)
                  then err mbuf_exhausted
                  else ok tt))
                exact r
              ∙ ap (λ b. if b then err mbuf_exhausted else ok tt)
                  (sym (ltb-suc (io.cfg.mbuf_pool_size - (io.mbufs_in_use + 1)) (length ps))),
          valid,
        )
]

-- `rx_burst` hands over the oldest packets, at most as many as asked for and as a burst holds, and
-- returns their mbufs.
pub rx_burst_mbufs :
    (most : ℕ) (io : DpdkPacketIo)
    → MbufsValid io
    → let (io', out) = rx_burst most io in
      (out ++ io'.rx ≡ io.rx)
      × (length out ≡ min (min most io.cfg.burst_size) (length io.rx))
      × (io'.mbufs_in_use + length out ≡ io.mbufs_in_use)
      × MbufsValid io'
unfolding rx_burst
rx_burst_mbufs most io v =
    let n = min (min most io.cfg.burst_size) (length io.rx) in
    (
      take-append-drop n io.rx,
      omega (arith, length-take n io.rx),
      omega (arith, length-take n io.rx, v.held),
      record {
        held = omega (arith, length-take n io.rx, length-drop n io.rx, v.held);
        bounded = omega (arith, v.bounded);
        small = v.small;
      },
    )

-- `tx_burst` sends from the front what the free mbufs and the burst size allow, and gives the mbufs
-- back at once.
pub tx_burst_mbufs :
    (packets : List Packet) (io : DpdkPacketIo)
    → MbufsValid io
    → let (io', n) = tx_burst packets io in
      (n ≡ min (min (io.cfg.mbuf_pool_size - io.mbufs_in_use) io.cfg.burst_size) (length packets))
      × (io'.tx ≡ io.tx ++ take n packets)
      × (io'.mbufs_in_use ≡ io.mbufs_in_use)
      × MbufsValid io'
unfolding tx_burst
tx_burst_mbufs packets io v =
    let room =
      min (min (io.cfg.mbuf_pool_size - io.mbufs_in_use) io.cfg.burst_size) (length packets) in
    let all_taken : length (take room packets) ≡ room = omega (arith, length-take room packets) in
    (
      all_taken,
      ap (λ n. io.tx ++ take n packets) (sym all_taken),
      omega (arith, all_taken, v.bounded, v.small),
      record {
        held = omega (arith, all_taken, v.held, v.bounded, v.small);
        bounded = omega (arith, all_taken, v.bounded, v.small);
        small = v.small;
      },
    )

mock_not_hardware : (mode : List ℕ) → is_mock mode ≡ true → is_hardware mode ≡ false
unfolding is_mock is_hardware text_eq
mock_not_hardware mode h =
    let named : (name : List ℕ)
        → is_hardware name ≡ false
        → text_eq mode name ≡ true
        → is_hardware mode ≡ false =
      λ name no same. subst (λ t. is_hardware t ≡ false) (sym (text_eq-eq mode name same)) no in
    elim (Bool-cases (text_eq mode (bytes_of "mock"))) [
      | inl m ↦ named (bytes_of "mock") refl m
      | inr m ↦ elim (Bool-cases (text_eq mode (bytes_of "simulation"))) [
        | inl n ↦ named (bytes_of "simulation") refl n
        | inr n ↦ elim (Bool-cases (text_eq mode (bytes_of "sim"))) [
          | inl k ↦ named (bytes_of "sim") refl k
          | inr k ↦ ground (arith, h, m, n, k)
        ]
      ]
    ]

opens :
    (cfg : DpdkBackendConfig)
    → cfg.enabled ≡ true
    → is_mock (to_ascii_lowercase cfg.backend) ≡ true
    → open_config cfg ≡ ok (opened cfg)
unfolding open_config
opens cfg e m = rw (mock_not_hardware (to_ascii_lowercase cfg.backend) m, e, m) refl

-- Opening answers with a device exactly when the configuration is enabled and its backend, in lower
-- case, is one of the mock's names, and then with an empty one with no mbuf in use. It fails with
-- BackendUnavailable exactly for a name of the hardware or a configuration that is not enabled, and with
-- Config exactly for the other names. There is no other answer.
pub open_config_lem :
    (cfg : DpdkBackendConfig)
    → let mode = to_ascii_lowercase cfg.backend in
      ((io : DpdkPacketIo)
        → (open_config cfg ≡ ok io) ↔ (
            (cfg.enabled ≡ true)
            × (is_mock mode ≡ true)
            × (io ≡ record {
              cfg = cfg;
              rx = [];
              tx = [];
              mbufs_in_use = 0;
              poll_cycles = 0;
              last_poll_cost_ns = 0;
            })))
      × ((e : Cx5Error)
          → (open_config cfg ≡ err e) ↔ (
              (((is_hardware mode ≡ true) ⊎ (cfg.enabled ≡ false))
                × (e ≡ backend_unavailable mode cfg.enabled))
              ⊎ ((cfg.enabled ≡ true)
                  × (is_hardware mode ≡ false)
                  × (is_mock mode ≡ false)
                  × (e ≡ config mode))))
unfolding open_config opened
open_config_lem cfg =
    let mode = to_ascii_lowercase cfg.backend in
    (
      λ io. (λ h. ground arith, λ (e, m, same). opens cfg e m ∙ ap ok (sym same)),
      λ e. (λ h. ground arith, λ h. ground arith),
    )
