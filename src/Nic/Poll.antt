-- ===== src/Nic/Poll.antt =====
-- `poll_completions` of crates/cx5-emulator/src/lib.rs against a description by two filters.
use aether_radio_sim.Base.{
  ℕ, ◌+◌, ◌%◌, ◌^◌, ◌<◌, ◌≤◌, ◌≡◌, refl, ap, sym, List, [], ◌∷◌, ◌++◌, map, append-nil,
  append_assoc, length, leb, if◌then◌else◌, All, All-append_one, arith, Bool-cases, inl, inr,
  wrapping_add,
}
use aether_radio_sim.Base.Floats.{Float64}
use aether_radio_sim.Types.{Packet}
use aether_radio_sim.Nic.{PendingRx, Cx5Nic, poll_from, poll_completions}

-- The packets whose DMA is complete at `now`, in order.
unfoldable pub due : ℕ → List PendingRx → List Packet
due now [] = []
due now (p ∷ ps) = let rest = due now ps in if leb p.ready_at_ns now then p.packet ∷ rest else rest

-- Those that are still under way.
unfoldable pub under_way : ℕ → List PendingRx → List PendingRx
under_way now [] = []
under_way now (p ∷ ps) =
    let rest = under_way now ps in if leb p.ready_at_ns now then rest else p ∷ rest

triple :
    {a a' : List Packet} {b b' : ℕ} {c c' : List PendingRx}
    → a ≡ a'
    → b ≡ b'
    → c ≡ c'
    → ◌≡◌ {A = List Packet × ℕ × List PendingRx} (a, b, c) (a', b', c')
triple p q r = λ i. (p i, q i, r i)

poll_from-due :
    (now : ℕ) (ps : List PendingRx) (ready : List Packet) (count : ℕ) (still : List PendingRx)
    → count < 2 ^ 64
    → poll_from now ps ready count still
      ≡ (ready ++ due now ps, (count + length (due now ps)) % 2 ^ 64, still ++ under_way now ps)
unfolding poll_from due under_way
poll_from-due now [] ready count still h =
    triple (sym (append-nil ready)) (omega arith) (sym (append-nil still))
poll_from-due now (p ∷ ps) ready count still h = ground (
  arith,
  poll_from-due now ps (ready ++ (p.packet ∷ [])) (wrapping_add count 1) still (omega arith),
  poll_from-due now ps ready count (still ++ (p ∷ [])) h,
  append_assoc ready (p.packet ∷ []) (due now ps),
  append_assoc still (p ∷ []) (under_way now ps),
)

module _ (F : Float64) where
  -- `poll_completions` moves exactly the packets whose time has come behind those already there, in
  -- order, counts them, and keeps the others in order.
  pub poll_completions_lem :
      (nic : Cx5Nic F)
      → nic.completions < 2 ^ 64
      → poll_completions F nic ≡ record nic {
        rx_ready = nic.rx_ready ++ due nic.now_ns nic.pending;
        completions = (nic.completions + length (due nic.now_ns nic.pending)) % 2 ^ 64;
        pending = under_way nic.now_ns nic.pending;
      }
  unfolding poll_completions
  poll_completions_lem nic h =
      ap (λ x. record nic { rx_ready = x.0; completions = x.1; pending = x.2 })
        (poll_from-due nic.now_ns nic.pending nic.rx_ready nic.completions [] h)

-- After the filter nothing that is due is left, and all that is left was there.
pub under_way-due : (now : ℕ) (ps : List PendingRx) → due now (under_way now ps) ≡ []
unfolding due under_way
under_way-due now [] = refl
under_way-due now (p ∷ ps) = ground (arith, under_way-due now ps)

pub under_way-under_way :
    (now : ℕ) (ps : List PendingRx) → under_way now (under_way now ps) ≡ under_way now ps
unfolding under_way
under_way-under_way now [] = refl
under_way-under_way now (p ∷ ps) = ground (arith, under_way-under_way now ps)

pub length-due-under_way :
    (now : ℕ) (ps : List PendingRx) → length (due now ps) + length (under_way now ps) ≡ length ps
unfolding due under_way
length-due-under_way now [] = omega arith
length-due-under_way now (p ∷ ps) = ground (arith, length-due-under_way now ps)

-- The completion times do not fall along the list.
abbrev pub Sorted : List PendingRx → Type 0
Sorted [] = Unit
Sorted (p ∷ ps) = All (λ q. p.ready_at_ns ≤ q.ready_at_ns) ps × Sorted ps

abbrev pub ReadyBy : ℕ → List PendingRx → Type 0
ReadyBy t = All (λ q. q.ready_at_ns ≤ t)

-- what is not due before a time has nothing due behind it
due-late :
    (now t : ℕ) (ps : List PendingRx)
    → now < t
    → All (λ q. t ≤ q.ready_at_ns) ps
    → (due now ps ≡ []) × (under_way now ps ≡ ps)
unfolding due under_way
due-late now t [] lt h = (refl, refl)
due-late now t (p ∷ ps) lt h = ground (arith, due-late now t ps lt h.1)

-- On a sorted list the due packets are a prefix.
pub due-prefix :
    (now : ℕ) (ps : List PendingRx)
    → Sorted ps
    → due now ps ++ map (λ p. p.packet) (under_way now ps) ≡ map (λ p. p.packet) ps
unfolding due under_way
due-prefix now [] s = refl
due-prefix now (p ∷ ps) s = ground (arith, due-prefix now ps s.1, due-late now p.ready_at_ns ps)

under_way-All :
    (P : PendingRx → Type 0) (now : ℕ) (ps : List PendingRx) → All P ps → All P (under_way now ps)
unfolding under_way
under_way-All P now [] h = tt
under_way-All P now (p ∷ ps) h = elim (Bool-cases (leb p.ready_at_ns now)) [
  | inl d ↦ rw d (under_way-All P now ps h.1)
  | inr w ↦ rw w (h.0, under_way-All P now ps h.1)
]

pub under_way-ReadyBy :
    (now t : ℕ) (ps : List PendingRx) → ReadyBy t ps → ReadyBy t (under_way now ps)
under_way-ReadyBy now t ps h = under_way-All (λ q. q.ready_at_ns ≤ t) now ps h

pub under_way-Sorted : (now : ℕ) (ps : List PendingRx) → Sorted ps → Sorted (under_way now ps)
unfolding under_way
under_way-Sorted now [] s = tt
under_way-Sorted now (p ∷ ps) s = elim (Bool-cases (leb p.ready_at_ns now)) [
  | inl d ↦ rw d (under_way-Sorted now ps s.1)
  | inr w ↦ rw w (under_way-All _ now ps s.0, under_way-Sorted now ps s.1)
]

-- A packet that is ready last goes to the end of a sorted list.
pub Sorted-append :
    (t : ℕ) (ps : List PendingRx) (q : PendingRx)
    → Sorted ps
    → ReadyBy t ps
    → t ≤ q.ready_at_ns
    → Sorted (ps ++ (q ∷ []))
Sorted-append t [] q s r h = (tt, tt)
Sorted-append t (p ∷ ps) q s r h = (
  All-append_one (λ x. p.ready_at_ns ≤ x.ready_at_ns) ps q s.0 (omega arith),
  Sorted-append t ps q s.1 r.1 h,
)
