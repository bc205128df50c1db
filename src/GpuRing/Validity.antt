-- ===== src/GpuRing/Validity.antt =====
-- The invariant of the ring in crates/gpu-runtime/src/ring.rs, and its occupancy.
use aether_radio_sim.Base.{
  ℕ, zero, suc, ◌+◌, ◌<◌, ◌≡◌, refl, ap, sym, ◌∙◌, subst, inl, inr, ◌↔◌, List, [], ◌∷◌, true, ok,
  err, get_elem?, set, get_elem?-set_self, get_elem?-set_ne, get_elem?-lt, replicate, Option-cases,
  none, some, arith,
}
use mathlib.Core.Option.{some-injective}
use native.Mathlib.Decide.{ℕ_discrete}
use aether_radio_sim.Base.Floats.{Float64}
use aether_radio_sim.Base.Search.{
  position-some, position-none_count, position-some_count, count_where-not,
}
use aether_radio_sim.GpuRing.{
  GpuRingConfig, new, free, receiving, RingSlot, GpuRingBuffer, ring_full, put_slot, find_state,
  begin_receive, occupied, slot_count, count_state, in_state, empty, state_eq, on_found,
  receive_slot, with_slot,
}
use aether_radio_sim.GpuRing.Slots.{SlotValid}
use aether_radio_sim.GpuRing.Cycle.{Op, step, run, Step, stay, move, step-Step}

-- Every slot is valid.
abbrev pub IsValid : GpuRingBuffer → Type 0
IsValid r = (idx : ℕ) (s : RingSlot) → get_elem? r.slots idx ≡ some s → SlotValid r.slot_bytes s

empty-SlotValid : (n : ℕ) → SlotValid n empty
empty-SlotValid n = record {
  fits = omega arith;
  blank_free = λ _. refl;
  blank_receiving = λ _. refl;
}

replicate-empty : (n i : ℕ) (s : RingSlot) → get_elem? (replicate n empty) i ≡ some s → s ≡ empty
replicate-empty zero i s e = absurd (ground arith)
replicate-empty (suc n) zero s e = ground arith
replicate-empty (suc n) (suc i) s e = replicate-empty n i s e

pub new-IsValid : (F : Float64) (cfg : GpuRingConfig F) → IsValid (new F cfg)
unfolding new
new-IsValid F cfg idx s e =
    subst (SlotValid cfg.slot_bytes) (sym (replicate-empty cfg.slot_count idx s e))
      (empty-SlotValid cfg.slot_bytes)

put_slot-IsValid :
    (r : GpuRingBuffer) (idx : ℕ) (s s' : RingSlot)
    → IsValid r
    → get_elem? r.slots idx ≡ some s
    → SlotValid r.slot_bytes s'
    → IsValid (put_slot idx s' r)
put_slot-IsValid r idx s s' v e keeps j t g = elim (ℕ_discrete idx j) [
  | yes same ↦ subst (SlotValid r.slot_bytes) (some-injective s' t (written same)) keeps
  | no other ↦ v j t (sym (get_elem?-set_ne r.slots idx j s' other) ∙ g)
]
  where
    written : idx ≡ j → some s' ≡ some t
    written same =
        sym (get_elem?-set_self r.slots idx s' (get_elem?-lt r.slots idx e))
        ∙ (ap (get_elem? (set r.slots idx s')) same ∙ g)

Step-IsValid : {r t : GpuRingBuffer} → Step r t → IsValid r → IsValid t
Step-IsValid (stay e) v = subst IsValid (sym e) v
Step-IsValid {r} (move idx s s' g edge keeps e) v =
    subst IsValid (sym e) (put_slot-IsValid r idx s s' v g (keeps (v idx s g)))

-- Every slot stays valid under each call.
pub step-IsValid : (o : Op) (r : GpuRingBuffer) → IsValid r → IsValid (step o r)
step-IsValid o r v = Step-IsValid (step-Step o r) v

pub run-IsValid : (os : List Op) (r : GpuRingBuffer) → IsValid r → IsValid (run os r)
unfolding run
run-IsValid [] r v = v
run-IsValid (o ∷ os) r v = run-IsValid os (step o r) (step-IsValid o r v)

-- From a new ring, no sequence of calls gives a slot a payload above `slot_bytes`, nor a free or
-- receiving slot any payload.
pub run-new-IsValid :
    (F : Float64) (cfg : GpuRingConfig F) (os : List Op) → IsValid (run os (new F cfg))
run-new-IsValid F cfg os = run-IsValid os (new F cfg) (new-IsValid F cfg)

pub occupied-add-free : (r : GpuRingBuffer) → count_state r free + occupied r ≡ slot_count r
unfolding count_state occupied slot_count
occupied-add-free r = count_where-not (in_state free) r.slots

begin_receive-none :
    (a : ℕ) (r : GpuRingBuffer) → find_state r free ≡ none → (begin_receive a r).1 ≡ err ring_full
unfolding begin_receive
begin_receive-none a r e = rw (e, on_found)

free_slot : (s : RingSlot) → in_state free s ≡ true → s.state ≡ free
unfolding state_eq
free_slot s h = ground arith

pub begin_receive-some :
    (a : ℕ) (r : GpuRingBuffer) (idx : ℕ)
    → find_state r free ≡ some idx
    → (s : RingSlot) × (get_elem? r.slots idx ≡ some s)
      × (s.state ≡ free)
      × (begin_receive a r ≡ (
        put_slot idx (record { state = receiving; payload = []; arrive_ns = a; done_ns = 0 }) r,
        ok idx,
      ))
unfolding begin_receive receive_slot find_state
begin_receive-some a r idx e =
    let (s, g, h) = position-some (in_state free) r.slots idx e in
    (s, g, free_slot s h, rw (e, on_found, g, with_slot) (ground (arith, free_slot s h)))

begin_receive_result :
    (a : ℕ) (r : GpuRingBuffer) (idx : ℕ)
    → find_state r free ≡ some idx
    → (begin_receive a r).1 ≡ ok idx
begin_receive_result a r idx e = ap (λ x. x.1) (begin_receive-some a r idx e).3

none_free : (r : GpuRingBuffer) → find_state r free ≡ none → count_state r free ≡ 0
unfolding find_state count_state
none_free r e = position-none_count (in_state free) r.slots e

some_free : (r : GpuRingBuffer) (idx : ℕ) → find_state r free ≡ some idx → 0 < count_state r free
unfolding find_state count_state
some_free r idx e = position-some_count (in_state free) r.slots idx e

-- `begin_receive` fails exactly on a ring that has every slot occupied, and then with RingFull.
pub begin_receive-full :
    (a : ℕ) (r : GpuRingBuffer)
    → ((begin_receive a r).1 ≡ err ring_full) ↔ (occupied r ≡ slot_count r)
begin_receive-full a r = elim (Option-cases (find_state r free)) [
  | inl e ↦
      ((λ _. omega (arith, occupied-add-free r, none_free r e)), (λ _. begin_receive-none a r e))
  | inr (idx, e) ↦ (
    (λ h. cc (begin_receive_result a r idx e)),
    (λ h. absurd (omega (arith, occupied-add-free r, some_free r idx e))),
  )
]
