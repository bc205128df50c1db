-- ===== src/Trace/Recent.antt =====
-- What `TraceEngine` of crates/metrics-engine/src/trace.rs keeps: the most recent traces.
use aether_radio_sim.Base.{
  ℕ, zero, suc, ◌+◌, ◌-◌, ◌%◌, ◌^◌, ◌<◌, ◌≤◌, ◌≡◌, refl, ap, sym, ◌∙◌, List, [], ◌∷◌, ◌++◌, map,
  some, true, not, ◌||◌, ◌==◌, length, length-append, length-drop, append_assoc, append-nil, subst,
  Option-cases, drop, drop_all, leb, max, wrapping_add, Bool-cases, inl, inr, arith,
}
use mathlib.Core.List.{map-append}
use aether_radio_sim.Trace.{
  TraceStage, StageStamp, PacketTrace, TraceEngine, engine_new, start, stamp_last, stamp,
}

-- A call with its arguments.
pub data TraceOp : Type 0 where
  starts : ℕ → ℕ → TraceStage → ℕ → TraceOp
  stamps : ℕ → TraceStage → ℕ → TraceOp

unfoldable pub step : TraceOp → TraceEngine → TraceEngine
step (starts stream_id sequence first time_ns) engine =
    (start stream_id sequence first time_ns engine).0
step (stamps id stage time_ns) engine = stamp id stage time_ns engine

unfoldable pub run : List TraceOp → TraceEngine → TraceEngine
run [] engine = engine
run (o ∷ os) engine = run os (step o engine)

-- What names a trace: its id, stream and sequence number.
abbrev pub key : PacketTrace → ℕ × ℕ × ℕ
key t = (t.trace_id, t.stream_id, t.sequence)

-- The traces that calls start, the first with the id `id`.
unfoldable pub started : ℕ → List TraceOp → List (ℕ × ℕ × ℕ)
started id [] = []
started id (starts stream_id sequence first time_ns ∷ os) =
    (id, stream_id, sequence) ∷ started (wrapping_add id 1) os
started id (stamps _ _ _ ∷ os) = started id os

-- the last `n` entries
abbrev pub last_of : {A : Type 0} → ℕ → List A → List A
last_of n xs = drop (length xs - n) xs

drop-drop_one : {A : Type 0} (n : ℕ) (xs : List A) → drop 1 (drop n xs) ≡ drop (n + 1) xs
drop-drop_one zero xs = ground arith
drop-drop_one (suc n) [] = ground arith
drop-drop_one (suc n) (x ∷ xs) = ground (arith, drop-drop_one n xs)

drop-append_left :
    {A : Type 0} (n : ℕ) (xs ys : List A) → n ≤ length xs → drop n (xs ++ ys) ≡ drop n xs ++ ys
drop-append_left zero xs ys h = refl
drop-append_left (suc n) [] ys h = absurd (omega arith)
drop-append_left (suc n) (x ∷ xs) ys h = drop-append_left n xs ys (omega arith)

map-drop : {A B : Type 0} (f : A → B) (n : ℕ) (xs : List A) → map f (drop n xs) ≡ drop n (map f xs)
map-drop f zero xs = refl
map-drop f (suc n) [] = refl
map-drop f (suc n) (x ∷ xs) = map-drop f n xs

length-map : {A B : Type 0} (f : A → B) (xs : List A) → length (map f xs) ≡ length xs
length-map f [] = refl
length-map f (x ∷ xs) = omega (arith, length-map f xs)

-- An engine that has started the traces `all`.
pub record Recent (all : List (ℕ × ℕ × ℕ)) (engine : TraceEngine) : Type 0 where
  pub enabled : engine.enabled ≡ true
  pub some_room : 0 < engine.capacity
  pub kept : map key engine.traces ≡ last_of engine.capacity all
  pub dropped : engine.dropped ≡ (length all - engine.capacity) % 2 ^ 64

stamp_last-key :
    (id : ℕ) (s : StageStamp) (ts ts' : List PacketTrace)
    → stamp_last id s ts ≡ some ts'
    → map key ts' ≡ map key ts
unfolding stamp_last
stamp_last-key id s [] ts' e = absurd (ground arith)
stamp_last-key id s (t ∷ ts) ts' e = elim (Option-cases (stamp_last id s ts)) [
  | inr (us, h) ↦
      let is_later : ts' ≡ t ∷ us = ground (arith, e, h) in
      ap (map key) is_later ∙ ap (λ ks. key t ∷ ks) (stamp_last-key id s ts us h)
  | inl h ↦
      let is_this : ts' ≡ record t { stages = t.stages ++ (s ∷ []) } ∷ ts = ground (arith, e, h) in
      ap (map key) is_this
]

stamp-Recent :
    (all : List (ℕ × ℕ × ℕ)) (engine : TraceEngine) (id : ℕ) (stage : TraceStage) (time_ns : ℕ)
    → Recent all engine
    → Recent all (stamp id stage time_ns engine)
      × ((stamp id stage time_ns engine).next_id ≡ engine.next_id)
unfolding stamp
stamp-Recent all engine id stage time_ns v =
    let s : StageStamp = record { stage = stage; time_ns = time_ns } in
    elim (Bool-cases (not engine.enabled || id == 0)) [
      | inl off ↦ rw (off, stamp) (v, refl)
      | inr on ↦ elim (Option-cases (stamp_last id s engine.traces)) [
        | inl e ↦ rw (on, e, stamp) (v, refl)
        | inr (ts, e) ↦
            rw (on, e, stamp)
              (
                record {
                  enabled = v.enabled;
                  some_room = v.some_room;
                  kept = stamp_last-key id s engine.traces ts e ∙ v.kept;
                  dropped = v.dropped;
                },
                refl,
              )
      ]
    ]

-- The engine after a start, whether it is full or not.
module _ (all : List (ℕ × ℕ × ℕ)) (engine : TraceEngine) (v : Recent all engine) where
  length-kept : length engine.traces + (length all - engine.capacity) ≡ length all
  length-kept = omega (
    arith,
    length-map key engine.traces,
    ap length v.kept,
    length-drop (length all - engine.capacity) all,
  )

  kept_full :
      (t : PacketTrace)
      → engine.capacity ≤ length all
      → map key (drop 1 engine.traces ++ (t ∷ [])) ≡ last_of engine.capacity (all ++ (key t ∷ []))
  kept_full t full =
      map-append key (drop 1 engine.traces) (t ∷ [])
      ∙ (ap (λ ks. ks ++ (key t ∷ []))
            (map-drop key 1 engine.traces
              ∙ (ap (drop 1) v.kept ∙ drop-drop_one (length all - engine.capacity) all))
          ∙ (sym (
                drop-append_left (length all - engine.capacity + 1) all (key t ∷ [])
                  (omega (arith, full, v.some_room)))
              ∙ ap (λ n. drop n (all ++ (key t ∷ [])))
                  (omega (arith, full, length-append all (key t ∷ [])))))

  kept_room :
      (t : PacketTrace)
      → length all < engine.capacity
      → map key (engine.traces ++ (t ∷ [])) ≡ last_of engine.capacity (all ++ (key t ∷ []))
  kept_room t room =
      let none_old : length all - engine.capacity ≡ 0 = omega (arith, room) in
      let none_new : 0 ≡ length (all ++ (key t ∷ [])) - engine.capacity =
        omega (arith, room, length-append all (key t ∷ [])) in
      map-append key engine.traces (t ∷ [])
      ∙ (ap (λ ks. ks ++ (key t ∷ [])) (v.kept ∙ ap (λ n. drop n all) none_old)
          ∙ ap (λ n. drop n (all ++ (key t ∷ []))) none_new)

  start-Recent :
      (stream_id sequence : ℕ) (first : TraceStage) (time_ns : ℕ)
      → let engine' = (start stream_id sequence first time_ns engine).0 in
        Recent (all ++ ((engine.next_id, stream_id, sequence) ∷ [])) engine'
        × (engine'.next_id ≡ wrapping_add engine.next_id 1)
  unfolding start
  start-Recent stream_id sequence first time_ns =
      let k : ℕ × ℕ × ℕ = (engine.next_id, stream_id, sequence) in
      elim (Bool-cases (leb engine.capacity (length engine.traces))) [
        | inl e ↦
            let full : engine.capacity ≤ length all = ground (arith, e, length-kept) in
            rw (v.enabled, e, start)
              (
                record {
                  enabled = refl;
                  some_room = v.some_room;
                  kept = kept_full _ full;
                  dropped = omega (arith, v.dropped, full, length-append all (k ∷ []));
                },
                refl,
              )
        | inr e ↦
            let room : length all < engine.capacity = ground (arith, e, length-kept) in
            rw (v.enabled, e, start)
              (
                record {
                  enabled = refl;
                  some_room = v.some_room;
                  kept = kept_room _ room;
                  dropped = omega (arith, v.dropped, room, length-append all (k ∷ []));
                },
                refl,
              )
      ]

run-Recent :
    (os : List TraceOp) (all : List (ℕ × ℕ × ℕ)) (engine : TraceEngine)
    → Recent all engine
    → Recent (all ++ started engine.next_id os) (run os engine)
unfolding run started step
run-Recent [] all engine v = subst (λ ks. Recent ks engine) (sym (append-nil all)) v
run-Recent (starts stream_id sequence first time_ns ∷ os) all engine v =
    let engine' = (start stream_id sequence first time_ns engine).0 in
    let k : ℕ × ℕ × ℕ = (engine.next_id, stream_id, sequence) in
    let (now, next) = start-Recent all engine v stream_id sequence first time_ns in
    subst (λ ks. Recent ks (run os engine'))
      (append_assoc all (k ∷ []) (started engine'.next_id os)
        ∙ ap (λ id. all ++ (k ∷ started id os)) next)
      (run-Recent os (all ++ (k ∷ [])) engine' now)
run-Recent (stamps id stage time_ns ∷ os) all engine v =
    let engine' = stamp id stage time_ns engine in
    let (now, next) = stamp-Recent all engine id stage time_ns v in
    subst (λ ks. Recent ks (run os engine')) (ap (λ j. all ++ started j os) next)
      (run-Recent os all engine' now)

step-capacity : (o : TraceOp) (engine : TraceEngine) → (step o engine).capacity ≡ engine.capacity
unfolding step start stamp
step-capacity (starts stream_id sequence first time_ns) engine = ground arith
step-capacity (stamps id stage time_ns) engine = ground arith

run-capacity :
    (os : List TraceOp) (engine : TraceEngine) → (run os engine).capacity ≡ engine.capacity
unfolding run
run-capacity [] engine = refl
run-capacity (o ∷ os) engine = run-capacity os (step o engine) ∙ step-capacity o engine

-- A new engine keeps, under any calls of `start` and `stamp`, the traces started last, in order, as many
-- as the given capacity, or one if that is zero, with ids that count from 1 as a `u64` does; `dropped`
-- counts the others, modulo 2^64.
pub run_recent :
    (capacity : ℕ) (os : List TraceOp)
    → let engine = run os (engine_new capacity) in
      let all = started 1 os in
      let room = max capacity 1 in
      (map key engine.traces ≡ last_of room all) × (engine.dropped ≡ (length all - room) % 2 ^ 64)
unfolding engine_new
run_recent capacity os =
    let v = run-Recent os [] (engine_new capacity) (record {
      enabled = refl;
      some_room = omega arith;
      kept = sym (drop_all {A = ℕ × ℕ × ℕ} (0 - max capacity 1) [] (omega arith));
      dropped = omega arith;
    }) in
    let room = run-capacity os (engine_new capacity) in
    (
      v.kept ∙ ap (λ n. last_of n (started 1 os)) room,
      v.dropped ∙ ap (λ n. (length (started 1 os) - n) % 2 ^ 64) room,
    )
