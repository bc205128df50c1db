-- ===== src/Transport/Sim/Ingest.antt =====
-- `ingest` of crates/aether-transport/src/sim.rs, branch by branch.
use aether_radio_sim.Base.{
  ℕ, ◌+◌, ◌-◌, ◌%◌, ◌^◌, ◌<◌, ◌⊎◌, ◌≤◌, ◌≡◌, ◌≢◌, ◌↔◌, refl, ap, sym, ◌∙◌, [], ◌∷◌, ◌++◌, some,
  true, false, ok, err, eq→==, subst, if◌then◌else◌, wrapping_add, arith, Option-cases, Bool-cases,
  inl, inr,
}
use aether_radio_sim.Base.Assoc.{lookup, insert, lookup-insert}
use aether_radio_sim.Types.{Packet, StreamId}
use aether_radio_sim.Transport.{
  running, link_running, StreamState, TransportError, sequence_gap, late_packet, is_running,
  is_open,
}
use aether_radio_sim.Transport.Check.{
  SequenceChecker, expected, resync, check_sequence, check_timestamp,
}
use aether_radio_sim.Transport.Sim.{
  SimTransportEngine, StreamRuntime, admit, settle, ingest, recover_sequence, put_state,
}

-- What `ingest` asks of a packet and the engine.
pub record Admissible (p : Packet) (m : SimTransportEngine) : Type 0 where
  pub link : is_open m.link ≡ true
  pub runtime : StreamRuntime
  pub here : lookup p.stream_id m.streams ≡ some runtime
  pub runs : runtime.state ≡ running
  pub fresh : m.now_ns - p.timestamp ≤ m.ts.max_latency_ns

pub admit_lem :
    (p : Packet) (m : SimTransportEngine)
    → Admissible p m
    → (admit p m ≡ ok tt) × (check_timestamp m.ts p m.now_ns ≡ ok tt)
unfolding admit check_timestamp is_running
admit_lem p m a = (rw (a.link, a.here, a.runs) refl, ground (arith, a.fresh))

pub admit-Admissible :
    (p : Packet) (m : SimTransportEngine)
    → admit p m ≡ ok tt
    → check_timestamp m.ts p m.now_ns ≡ ok tt
    → Admissible p m
unfolding admit check_timestamp is_running
admit-Admissible p m a t = elim (Bool-cases (is_open m.link)) [
  | inl o ↦ elim (Option-cases (lookup p.stream_id m.streams)) [
    | inl e ↦ ground (arith, a, o, e)
    | inr (s, e) ↦ record {
      link = o;
      runtime = s;
      here = e;
      runs = ground (arith, a, o, e);
      fresh = ground (arith, t);
    }
  ]
  | inr o ↦ ground (arith, a, o)
]

pub check_sequence_due :
    (p : Packet) (c : SequenceChecker)
    → p.sequence ≡ expected p.stream_id c
    → check_sequence p c ≡ (resync p.stream_id (wrapping_add p.sequence 1) c, ok tt)
unfolding check_sequence
check_sequence_due p c e = ground (arith, e)

pub check_sequence_gap :
    (p : Packet) (c : SequenceChecker)
    → p.sequence ≢ expected p.stream_id c
    → (check_sequence p c).1 ≡ err (sequence_gap (expected p.stream_id c) p.sequence)
unfolding check_sequence
check_sequence_gap p c ne = ground (arith, ne)

-- The rest of `ingest` once the guards have let the packet through.
pub ingest_checked :
    (p : Packet) (m : SimTransportEngine)
    → Admissible p m
    → ingest p m
      ≡ settle p (record m { seq = (check_sequence p m.seq).0 }) (check_sequence p m.seq).1
unfolding ingest
ingest_checked p m a = let (guards, time) = admit_lem p m a in rw (guards, ingest, time) refl

pub ingest_due :
    (p : Packet) (m : SimTransportEngine)
    → Admissible p m
    → p.sequence ≡ expected p.stream_id m.seq
    → ingest p m ≡ (
      record m {
        seq = resync p.stream_id (wrapping_add p.sequence 1) m.seq;
        inbox = m.inbox ++ (p ∷ []);
      },
      ok tt,
    )
unfolding settle
ingest_due p m a e =
    ingest_checked p m a
    ∙ ap (λ x. settle p (record m { seq = x.0 }) x.1) (check_sequence_due p m.seq e)

-- `ingest` answers Ok exactly for a packet of a running stream over an open link that is not late and
-- bears the sequence number expected next.
pub ingest-accepts :
    (p : Packet) (m : SimTransportEngine)
    → ((ingest p m).1 ≡ ok tt) ↔ (Admissible p m × (p.sequence ≡ expected p.stream_id m.seq))
unfolding ingest settle check_sequence check_timestamp admit
ingest-accepts p m = (
  λ h. (admit-Admissible p m (ground arith) (ground arith), ground (arith, h)),
  λ (a, e). ap (λ x. x.1) (ingest_due p m a e),
)

-- The engine after `ingest` has refused a packet. A gap names the number that was expected and the
-- packet's; where reordering is allowed and the packet is ahead, its successor is expected from then on.
abbrev pub Refused : Packet → SimTransportEngine → SimTransportEngine → TransportError → Type 0
Refused p m m' (late_packet latency limit) =
    (m' ≡ record m { late_packets = wrapping_add m.late_packets 1 })
    × (latency ≡ m.now_ns - p.timestamp)
    × (limit ≡ m.ts.max_latency_ns)
    × (limit < latency)
Refused p m m' (sequence_gap want got) =
    (m' ≡ record m { seq = m'.seq; sequence_gaps = wrapping_add m.sequence_gaps 1 })
    × (want ≡ expected p.stream_id m.seq)
    × (got ≡ p.sequence)
    × (want ≢ got)
    × (((m.seq.allow_reorder ≡ true)
          × (want < got)
          × (m'.seq ≡ resync p.stream_id ((got + 1) % 2 ^ 64) m.seq))
        ⊎ (((m.seq.allow_reorder ≡ false) ⊎ (got < want)) × (m'.seq ≡ m.seq)))
Refused p m m' _ = m' ≡ m

-- A refusal is for lateness beyond the limit, with one late packet more; for a number other than the
-- expected one, with one gap more; or for another reason, with no change. Where reordering is allowed and
-- the packet is ahead, a gap moves its stream on to the successor of the packet, modulo 2^64.
pub ingest-Refused :
    (p : Packet) (m : SimTransportEngine) (e : TransportError)
    → (ingest p m).1 ≡ err e
    → Refused p m (ingest p m).0 e
unfolding ingest settle check_sequence check_timestamp admit
ingest-Refused p m e h = ground arith

pub ingest_gap-Admissible :
    (p : Packet) (m : SimTransportEngine) (want got : ℕ)
    → (ingest p m).1 ≡ err (sequence_gap want got)
    → Admissible p m
unfolding ingest check_timestamp admit
ingest_gap-Admissible p m want got h = admit-Admissible p m (ground arith) (ground arith)

pub expected-resync : (id n : ℕ) (c : SequenceChecker) → expected id (resync id n c) ≡ n
unfolding expected resync
expected-resync id n c = rw (expected, lookup-insert id id n c.next, eq→== id id refl) refl

unfoldable pub running_again : StreamRuntime → StreamRuntime
running_again s = record s { state = running }

put_state_here :
    (id : StreamId) (state : StreamState) (m : SimTransportEngine) (s : StreamRuntime)
    → lookup id m.streams ≡ some s
    → put_state id state m ≡ record m { streams = insert id (record s { state = state }) m.streams }
put_state_here id state m s e = rw (e, put_state) refl

-- Recovering a stream that is there sets it and the link running.
pub recovered :
    (id next_seq : ℕ) (m : SimTransportEngine) (s : StreamRuntime)
    → lookup id m.streams ≡ some s
    → recover_sequence id next_seq m ≡ record m {
      seq = resync id next_seq m.seq;
      streams = insert id (running_again s) m.streams;
      link = link_running;
    }
unfolding recover_sequence running_again
recovered id n m s e =
    ap {A = SimTransportEngine} (λ x. record x { link = link_running })
      (put_state_here id running (record m { seq = resync id n m.seq }) s e)

pub recovered-Admissible :
    (p : Packet) (m : SimTransportEngine) (next_seq : ℕ)
    → Admissible p m
    → Admissible p (recover_sequence p.stream_id next_seq m)
unfolding is_open running_again
recovered-Admissible p m n a =
    subst (Admissible p) (sym (recovered p.stream_id n m a.runtime a.here)) (record {
      link = refl;
      runtime = running_again a.runtime;
      here =
          lookup-insert p.stream_id p.stream_id (running_again a.runtime) m.streams
          ∙ ap (λ b. if b then some (running_again a.runtime) else lookup p.stream_id m.streams)
              (eq→== p.stream_id p.stream_id refl);
      runs = refl;
      fresh = a.fresh;
    })

pub gap_fresh :
    (p : Packet) (m : SimTransportEngine) (want got : ℕ)
    → (ingest p m).1 ≡ err (sequence_gap want got)
    → Admissible p (ingest p m).0
gap_fresh p m want got h =
    let a = ingest_gap-Admissible p m want got h in
    subst (Admissible p) (sym (ingest-Refused p m (sequence_gap want got) h).0)
      (record { link = a.link; runtime = a.runtime; here = a.here; runs = a.runs; fresh = a.fresh })

-- The second try of a packet that `ingest` has refused for a gap.
pub retry_due :
    (p : Packet) (m : SimTransportEngine) (want got : ℕ)
    → (ingest p m).1 ≡ err (sequence_gap want got)
    → let m2 = recover_sequence p.stream_id p.sequence (ingest p m).0 in
      ingest p m2 ≡ (
        record m2 {
          seq = resync p.stream_id (wrapping_add p.sequence 1) m2.seq;
          inbox = m2.inbox ++ (p ∷ []);
        },
        ok tt,
      )
retry_due p m want got h =
    let m1 = (ingest p m).0 in
    let m2 = recover_sequence p.stream_id p.sequence m1 in
    let a = gap_fresh p m want got h in
    let back = recovered p.stream_id p.sequence m1 a.runtime a.here in
    ingest_due p m2 (recovered-Admissible p m1 p.sequence a) (
      sym
        (ap (λ x. expected p.stream_id x.seq) back ∙ expected-resync p.stream_id p.sequence m1.seq))

-- A packet that `ingest` has refused for a gap is accepted once `recover_sequence` has set its stream
-- to its number; the packet joins the inbox, and its successor is expected next.
pub recover_sequence_lem :
    (p : Packet) (m : SimTransportEngine) (want got : ℕ)
    → (ingest p m).1 ≡ err (sequence_gap want got)
    → let (m', r) = ingest p (recover_sequence p.stream_id p.sequence (ingest p m).0) in
      (r ≡ ok tt)
      × (m'.inbox ≡ m.inbox ++ (p ∷ []))
      × (expected p.stream_id m'.seq ≡ wrapping_add p.sequence 1)
recover_sequence_lem p m want got h =
    let m1 = (ingest p m).0 in
    let m2 = recover_sequence p.stream_id p.sequence m1 in
    let a = gap_fresh p m want got h in
    let back = recovered p.stream_id p.sequence m1 a.runtime a.here in
    let same_inbox : m2.inbox ≡ m.inbox =
      ap (λ x. x.inbox) back ∙ ap (λ x. x.inbox) (ingest-Refused p m (sequence_gap want got) h).0 in
    rw (retry_due p m want got h) (
      refl,
      ap (λ xs. xs ++ (p ∷ [])) same_inbox,
      expected-resync p.stream_id (wrapping_add p.sequence 1) m2.seq,
    )
