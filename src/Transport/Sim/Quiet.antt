-- ===== src/Transport/Sim/Quiet.antt =====
-- An engine of crates/aether-transport/src/sim.rs whose inbox is empty and whose streams run, as it is
-- between two packets of the pipeline: each packet of these streams is late or goes in.
use aether_radio_sim.Base.{
  ℕ, ◌-◌, ◌<◌, ◌≤◌, ◌≡◌, ◌≢◌, refl, ap, sym, ◌∙◌, subst, [], ◌∷◌, ◌++◌, some, true, ok, err, leb,
  wrapping_add, arith, Bool-cases, inl, inr,
}
use native.Mathlib.Decide.{ℕ_discrete}
use aether_radio_sim.Base.Assoc.{lookup, lookup-insert}
use aether_radio_sim.Types.{Packet, StreamId}
use aether_radio_sim.Transport.{running, sequence_gap, late_packet, is_open, is_running}
use aether_radio_sim.Transport.Check.{expected, resync, check_sequence, check_timestamp}
use aether_radio_sim.Transport.Sim.{
  SimTransportEngine, StreamRuntime, admit, settle, ingest, recover_sequence,
}
use aether_radio_sim.Transport.Sim.Ingest.{
  Admissible, ingest_due, ingest_checked, check_sequence_gap, recovered, ingest-Refused,
  running_again, retry_due,
}

-- A stream that is there and runs.
abbrev pub Runs : StreamId → SimTransportEngine → Type 0
Runs id m = (s : StreamRuntime) × (lookup id m.streams ≡ some s) × (s.state ≡ running)

-- An open link, and the streams of `ids` run.
pub record IsServing (ids : StreamId → Type 0) (m : SimTransportEngine) : Type 0 where
  pub open_link : is_open m.link ≡ true
  pub runs : (id : StreamId) → ids id → Runs id m

-- The engine with a new inbox, checker, and counters.
IsServing-same :
    (ids : StreamId → Type 0) (m m' : SimTransportEngine)
    → m'.link ≡ m.link
    → m'.streams ≡ m.streams
    → IsServing ids m
    → IsServing ids m'
IsServing-same ids m m' l s v = record {
  open_link = ap is_open l ∙ v.open_link;
  runs = λ id h.
      subst (λ x. (t : StreamRuntime) × (lookup id x ≡ some t) × (t.state ≡ running)) (sym s)
        (v.runs id h);
}

module _ (ids : StreamId → Type 0) (p : Packet) (m : SimTransportEngine) (v : IsServing ids m)
    (mine : ids p.stream_id) where
  admissible : m.now_ns - p.timestamp ≤ m.ts.max_latency_ns → Admissible p m
  admissible fresh =
      let (s, here, runs) = v.runs p.stream_id mine in
      record { link = v.open_link; runtime = s; here = here; runs = runs; fresh = fresh }

  ingest_late :
      m.ts.max_latency_ns < m.now_ns - p.timestamp
      → ingest p m ≡ (
        record m { late_packets = wrapping_add m.late_packets 1 },
        err (late_packet (m.now_ns - p.timestamp) m.ts.max_latency_ns),
      )
  unfolding ingest admit check_timestamp is_running
  ingest_late h =
      let (s, here, runs) = v.runs p.stream_id mine in
      rw (v.open_link, here, runs, ingest) (ground (arith, h))

  -- The engine once the packet is in its inbox.
  pub record Holds (m' : SimTransportEngine) : Type 0 where
    pub inbox : m'.inbox ≡ m.inbox ++ (p ∷ [])
    pub serving : IsServing ids m'
    pub lates : m'.late_packets ≡ m.late_packets

  ingest_in_order :
      m.now_ns - p.timestamp ≤ m.ts.max_latency_ns
      → p.sequence ≡ expected p.stream_id m.seq
      → (m' : SimTransportEngine) × (ingest p m ≡ (m', ok tt)) × Holds m'
  ingest_in_order fresh due =
      let m' : SimTransportEngine = record m {
        seq = resync p.stream_id (wrapping_add p.sequence 1) m.seq;
        inbox = m.inbox ++ (p ∷ []);
      } in
      (
        m',
        ingest_due p m (admissible fresh) due,
        record { inbox = refl; serving = IsServing-same ids m m' refl refl v; lates = refl },
      )

  -- What the refusal for a gap leaves, and the recovery from it.
  gap_seen :
      m.now_ns - p.timestamp ≤ m.ts.max_latency_ns
      → p.sequence ≢ expected p.stream_id m.seq
      → (ingest p m).1 ≡ err (sequence_gap (expected p.stream_id m.seq) p.sequence)
  unfolding settle
  gap_seen fresh gap =
      ap (λ x. x.1) (ingest_checked p m (admissible fresh))
      ∙ ap (λ r. (settle p (record m { seq = (check_sequence p m.seq).0 }) r).1)
          (check_sequence_gap p m.seq gap)

  recovered-IsServing :
      (m1 : SimTransportEngine) (next_seq : ℕ)
      → IsServing ids m1
      → IsServing ids (recover_sequence p.stream_id next_seq m1)
  unfolding is_open running_again
  recovered-IsServing m1 n w =
      let (s, here, _) = w.runs p.stream_id mine in
      subst (IsServing ids) (sym (recovered p.stream_id n m1 s here)) (record {
        open_link = refl;
        runs = λ id h. elim (ℕ_discrete p.stream_id id) [
          | yes e ↦ (
            running_again s,
            lookup-insert p.stream_id id (running_again s) m1.streams ∙ ground (arith, e),
            refl,
          )
          | no ne ↦
              let (t, there, runs) = w.runs id h in
              (
                t,
                lookup-insert p.stream_id id (running_again s) m1.streams
                    ∙ ground (arith, ne, there),
                runs,
              )
        ];
      })

  ingest_gap :
      m.now_ns - p.timestamp ≤ m.ts.max_latency_ns
      → p.sequence ≢ expected p.stream_id m.seq
      → (m' : SimTransportEngine) × (ingest p
            (recover_sequence p.stream_id p.sequence (ingest p m).0)
          ≡ (m', ok tt))
        × Holds m'
  ingest_gap fresh gap =
      let want = expected p.stream_id m.seq in
      let m1 = (ingest p m).0 in
      let refused = (ingest-Refused p m (sequence_gap want p.sequence) (gap_seen fresh gap)).0 in
      let w = IsServing-same ids m m1 (ap (λ x. x.link) refused) (ap (λ x. x.streams) refused) v in
      let (s, here, _) = w.runs p.stream_id mine in
      let back = recovered p.stream_id p.sequence m1 s here in
      let m2 = recover_sequence p.stream_id p.sequence m1 in
      let m' : SimTransportEngine = record m2 {
        seq = resync p.stream_id (wrapping_add p.sequence 1) m2.seq;
        inbox = m2.inbox ++ (p ∷ []);
      } in
      (
        m',
        retry_due p m want p.sequence (gap_seen fresh gap),
        record {
          inbox = ap (λ xs. xs ++ (p ∷ [])) (ap (λ x. x.inbox) back ∙ ap (λ x. x.inbox) refused);
          serving = IsServing-same ids m2 m' refl refl (recovered-IsServing m1 p.sequence w);
          lates = ap (λ x. x.late_packets) back ∙ ap (λ x. x.late_packets) refused;
        },
      )

  -- What becomes of a packet: it is late, or in the inbox, at once or once its gap is made up for.
  pub data Outcome : Type 0 where
    comes_late :
        (latency limit : ℕ)
        → ingest p m ≡ (
          record m { late_packets = wrapping_add m.late_packets 1 },
          err (late_packet latency limit),
        )
        → Outcome
    comes_in : (m' : SimTransportEngine) → ingest p m ≡ (m', ok tt) → Holds m' → Outcome
    comes_back :
        (want : ℕ) (m1 m' : SimTransportEngine)
        → ingest p m ≡ (m1, err (sequence_gap want p.sequence))
        → ingest p (recover_sequence p.stream_id p.sequence m1) ≡ (m', ok tt)
        → Holds m'
        → Outcome

  pub ingest-Outcome : Outcome
  ingest-Outcome = elim (Bool-cases (leb (m.now_ns - p.timestamp) m.ts.max_latency_ns)) [
    | inr late ↦
        comes_late (m.now_ns - p.timestamp) m.ts.max_latency_ns (ingest_late (ground (arith, late)))
    | inl quick ↦
        let fresh : m.now_ns - p.timestamp ≤ m.ts.max_latency_ns = ground (arith, quick) in
        elim (ℕ_discrete p.sequence (expected p.stream_id m.seq)) [
          | yes due ↦ let (m', e, holds) = ingest_in_order fresh due in comes_in m' e holds
          | no gap ↦
              let (m', e, holds) = ingest_gap fresh gap in
              comes_back (expected p.stream_id m.seq) (ingest p m).0 m'
                (λ i. ((ingest p m).0, gap_seen fresh gap i)) e holds
        ]
  ]
