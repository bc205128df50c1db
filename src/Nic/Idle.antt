-- ===== src/Nic/Idle.antt =====
-- A NIC of crates/cx5-emulator/src/lib.rs that holds no received packet, as it is between two packets.
use aether_radio_sim.Base.{
  ℕ, ◌<◌, ◌≡◌, refl, sym, subst, true, false, List, [], ◌∷◌, Result, ok, leb, arith, saturating_add,
  Bool-cases, inl, inr,
}
use aether_radio_sim.Base.Floats.{Float64}
use aether_radio_sim.Types.{Packet}
use aether_radio_sim.Nic.{
  Cx5Error, Cx5Nic, NicDmaConfig, dma_latency_ns, poll_from, poll_completions, advance_time,
  submit_rx, submit_rx_ready_at, rx_burst,
}

module _ (F : Float64) where
  pub record IsEmpty (nic : Cx5Nic F) : Type 0 where
    pub none_pending : nic.pending ≡ []
    pub none_ready : nic.rx_ready ≡ []
    pub some_room : 0 < nic.cfg.rx_queue_depth

  -- an idle NIC, written out
  abbrev calm : NicDmaConfig F → ℕ → List Packet → ℕ → Cx5Nic F
  calm cfg now tx n = record {
    cfg = cfg;
    now_ns = now;
    pending = [];
    rx_ready = [];
    tx = tx;
    completions = n;
  }

  IsEmpty-calm :
      (nic : Cx5Nic F) → IsEmpty nic → nic ≡ calm nic.cfg nic.now_ns nic.tx nic.completions
  IsEmpty-calm nic v = λ i. record nic { pending = v.none_pending i; rx_ready = v.none_ready i }

  -- What a packet finds behind the NIC: itself, and an idle NIC.
  abbrev pub Passed : Packet → NicDmaConfig F → Cx5Nic F × List Packet → Type 0
  Passed pkt cfg x = (x.1 ≡ pkt ∷ []) × IsEmpty x.0 × (x.0.cfg ≡ cfg)

  leb_refl : (n : ℕ) → leb n n ≡ true
  leb_refl n = ground arith

  module _ (pkt : Packet) (now : ℕ) (cfg : NicDmaConfig F) (t : ℕ) (tx : List Packet) (n : ℕ)
      (room : 0 < cfg.rx_queue_depth) where
    -- the NIC while the DMA is under way
    under_dma : Cx5Nic F
    under_dma = record (calm cfg now tx n) {
      pending =
          record { ready_at_ns = saturating_add now (dma_latency_ns F cfg); packet = pkt } ∷ [];
    }

    under_dma-Passed :
        Passed pkt cfg
          (rx_burst F 32 (advance_time F (saturating_add now (dma_latency_ns F cfg)) under_dma))
    unfolding under_dma advance_time poll_completions poll_from rx_burst
    under_dma-Passed =
        rw (leb_refl (saturating_add now (dma_latency_ns F cfg)), poll_from)
          (refl, ground arith, refl)

    -- What is to be shown of the NIC and the result that `submit_rx` leaves.
    abbrev PassesLater : Cx5Nic F × Result Cx5Error (Unit {0}) → Type 0
    PassesLater x =
        let later = saturating_add now (dma_latency_ns F x.0.cfg) in
        (x.1 ≡ ok tt) × Passed pkt cfg (rx_burst F 32 (advance_time F later x.0))

    calm_dma : PassesLater (submit_rx F pkt (advance_time F now (calm cfg t tx n)))
    unfolding submit_rx submit_rx_ready_at advance_time poll_completions poll_from rx_burst
        under_dma
    calm_dma =
        let d = dma_latency_ns F cfg in
        let accepted : leb cfg.rx_queue_depth 0 ≡ false = ground (arith, room) in
        elim (Bool-cases (leb (saturating_add now d) now)) [
          | inl e ↦ rw (accepted, e, poll_from) (refl, (refl, ground arith, refl))
          | inr e ↦
              let waits : submit_rx F pkt (advance_time F now (calm cfg t tx n))
                  ≡ (under_dma, ok tt) =
                rw (accepted, e, poll_from) refl in
              subst PassesLater (sym waits) (refl, under_dma-Passed)
        ]

    calm_at_once :
        let (nic', r) = submit_rx_ready_at F pkt now (advance_time F now (calm cfg t tx n)) in
        (r ≡ ok tt) × Passed pkt cfg (rx_burst F 32 nic')
    unfolding submit_rx_ready_at advance_time poll_completions poll_from rx_burst
    calm_at_once =
        let accepted : leb cfg.rx_queue_depth 0 ≡ false = ground (arith, room) in
        rw (accepted, leb_refl now, poll_from) (refl, (refl, ground arith, refl))

  module _ (pkt : Packet) (now : ℕ) (nic : Cx5Nic F) (v : IsEmpty nic) where
    -- With DMA a packet is ready once its time has passed, though the clock may saturate.
    pub submit_rx-Passed :
        let (nic', r) = submit_rx F pkt (advance_time F now nic) in
        let later = saturating_add now (dma_latency_ns F nic'.cfg) in
        (r ≡ ok tt) × Passed pkt nic.cfg (rx_burst F 32 (advance_time F later nic'))
    submit_rx-Passed =
        subst
          (λ x.
            let (nic', r) = submit_rx F pkt (advance_time F now x) in
            let later = saturating_add now (dma_latency_ns F nic'.cfg) in
            (r ≡ ok tt) × Passed pkt nic.cfg (rx_burst F 32 (advance_time F later nic')))
          (sym (IsEmpty-calm nic v))
          (calm_dma pkt now nic.cfg nic.now_ns nic.tx nic.completions v.some_room)

    -- Without it is ready at once.
    pub submit_rx_ready_at-Passed :
        let (nic', r) = submit_rx_ready_at F pkt now (advance_time F now nic) in
        (r ≡ ok tt) × Passed pkt nic.cfg (rx_burst F 32 nic')
    submit_rx_ready_at-Passed =
        subst
          (λ x.
            let (nic', r) = submit_rx_ready_at F pkt now (advance_time F now x) in
            (r ≡ ok tt) × Passed pkt nic.cfg (rx_burst F 32 nic'))
          (sym (IsEmpty-calm nic v))
          (calm_at_once pkt now nic.cfg nic.now_ns nic.tx nic.completions v.some_room)
