-- ===== src/Transport/Sim/Numbers.antt =====
-- The sequence numbers of crates/aether-transport/src/check.rs as a count, stream by stream.
use aether_radio_sim.Base.{
  ℕ, zero, suc, ◌+◌, ◌%◌, ◌^◌, ◌≡◌, ◌≢◌, refl, ◌∙◌, List, [], ◌∷◌, ◌++◌, append-nil, ◌==◌,
  if◌then◌else◌, arith, Option-cases, inl, inr,
}
use aether_radio_sim.Base.Assoc.{lookup, lookup-insert}
use aether_radio_sim.Types.{Packet, StreamId}
use aether_radio_sim.Transport.Check.{SequenceChecker, expected, register_stream, resync}

-- The sequence numbers of a stream's packets.
unfoldable pub sequences_of : StreamId → List Packet → List ℕ
sequences_of id [] = []
sequences_of id (p ∷ ps) =
    let rest = sequences_of id ps in if p.stream_id == id then p.sequence ∷ rest else rest

-- `k` numbers from `n` on, as a `u64` counts
unfoldable pub counting : ℕ → ℕ → List ℕ
counting n zero = []
counting n (suc k) = n % 2 ^ 64 ∷ counting (n + 1) k

pub counting-suc : (n k : ℕ) → counting n (k + 1) ≡ counting n k ++ ((n + k) % 2 ^ 64 ∷ [])
unfolding counting
counting-suc n zero = ground arith
counting-suc n (suc k) = ground (arith, counting-suc (n + 1) k)

pub sequences_of-append :
    (id : StreamId) (ps qs : List Packet)
    → sequences_of id (ps ++ qs) ≡ sequences_of id ps ++ sequences_of id qs
unfolding sequences_of
sequences_of-append id [] qs = refl
sequences_of-append id (p ∷ ps) qs = ground (arith, sequences_of-append id ps qs)

pub expected-register_stream :
    (id j : StreamId) (c : SequenceChecker) → expected j (register_stream id c) ≡ expected j c
unfolding expected register_stream
expected-register_stream id j c = elim (Option-cases (lookup id c.next)) [
  | inl e ↦ ground (arith, e, lookup-insert id j c.start c.next)
  | inr (n, e) ↦ rw (e, register_stream) refl
]

pub expected-resync_other :
    (id j n : ℕ) (c : SequenceChecker) → id ≢ j → expected j (resync id n c) ≡ expected j c
unfolding expected resync
expected-resync_other id j n c ne = ground (arith, ne, lookup-insert id j n c.next)

pub sequences_of-one :
    (id : StreamId) (p : Packet) (ps : List Packet)
    → p.stream_id ≡ id
    → sequences_of id (ps ++ (p ∷ [])) ≡ sequences_of id ps ++ (p.sequence ∷ [])
unfolding sequences_of
sequences_of-one id p ps e = sequences_of-append id ps (p ∷ []) ∙ ground (arith, e)

pub sequences_of-other :
    (id : StreamId) (p : Packet) (ps : List Packet)
    → p.stream_id ≢ id
    → sequences_of id (ps ++ (p ∷ [])) ≡ sequences_of id ps
unfolding sequences_of
sequences_of-other id p ps ne =
    sequences_of-append id ps (p ∷ []) ∙ ground (arith, ne, append-nil (sequences_of id ps))
