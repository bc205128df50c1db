-- ===== src/Memory/Sim.antt =====
-- The simulated memory of crates/memory-manager/src/lib.rs: what a write leaves to be read, and what
-- is left of a buffer that was freed.
use aether_radio_sim.Base.{
  ℕ, zero, suc, ◌+◌, ◌-◌, ◌<◌, ◌≤◌, ◌^◌, ◌≡◌, ◌≢◌, refl, ap, sym, ◌∙◌, List, [], ◌∷◌, ◌++◌, Option,
  none, some, true, ok, err, length, set, take, drop, slice, copy_from_slice, replicate, arith,
  get_elem?-set_self, get_elem?-set_ne, get_elem?-append_left, get_elem?-append_end, length-append,
  take-append, drop-append, length-take, length-drop, get_elem?-none,
}
use aether_radio_sim.Memory.{
  MemoryKind, MemoryError, not_found, Buffer, SimMemory, stored, kind_of, sim_allocate, sim_write,
  sim_read, sim_free, in_bounds,
}

pub stored-lt :
    {A : Type 0} (xs : List (Option A)) (i : ℕ) {a : A} → stored xs i ≡ some a → i < length xs
stored-lt [] i e = absurd (ground arith)
stored-lt (x ∷ xs) zero e = omega arith
stored-lt (x ∷ xs) (suc i) e = omega (arith, stored-lt xs i e)

pub stored-set_self :
    {A : Type 0} (xs : List (Option A)) (i : ℕ) (v : Option A)
    → i < length xs
    → stored (set xs i v) i ≡ v
stored-set_self xs i v h = ground (arith, get_elem?-set_self xs i v h)

pub stored-set_ne :
    {A : Type 0} (xs : List (Option A)) (i j : ℕ) (v : Option A)
    → i ≢ j
    → stored (set xs i v) j ≡ stored xs j
stored-set_ne xs i j v h =
    ap (λ o. elim o [ none ↦ none | some slot ↦ slot ]) (get_elem?-set_ne xs i j v h)

drop_at : (n : ℕ) (xs ys : List ℕ) → length xs ≡ n → drop n (xs ++ ys) ≡ ys
drop_at n xs ys e = rw (← e) (drop-append xs ys)

take_at : (n : ℕ) (xs ys : List ℕ) → length xs ≡ n → take n (xs ++ ys) ≡ xs
take_at n xs ys e = rw (← e) (take-append xs ys)

-- The bytes that a copy wrote are read back.
pub slice-copy_from_slice :
    (xs src : List ℕ) (at : ℕ)
    → at + length src ≤ length xs
    → slice (copy_from_slice xs at src) at (at + length src) ≡ src
slice-copy_from_slice xs src at h =
    ap (take (at + length src - at)) (
      drop_at at (take at xs) (src ++ drop (at + length src) xs) (omega (arith, length-take at xs)))
    ∙ take_at (at + length src - at) src (drop (at + length src) xs) (omega arith)

pub length-copy_from_slice :
    (xs src : List ℕ) (at : ℕ)
    → at + length src ≤ length xs
    → length (copy_from_slice xs at src) ≡ length xs
length-copy_from_slice xs src at h = omega (
  arith,
  length-append (take at xs) (src ++ drop (at + length src) xs),
  length-append src (drop (at + length src) xs),
  length-take at xs,
  length-drop (at + length src) xs,
)

-- A buffer's ids are the indices of the vector.
pub record SimValid (m : SimMemory) : Type 0 where
  pub ids : m.next_id ≡ length m.buffers

in_bounds-true :
    (offset len size : ℕ)
    → offset + len < 2 ^ 64
    → offset + len ≤ size
    → in_bounds offset len size ≡ true
unfolding in_bounds
in_bounds-true offset len size h k = ground arith

-- the memory after a write of `src` into `b`
abbrev pub written : SimMemory → ℕ → ℕ → List ℕ → Buffer → SimMemory
written m id offset src b = record m {
  buffers = set m.buffers id (some (record b { bytes = copy_from_slice b.bytes offset src }));
}

pub sim_write-ok :
    (m : SimMemory) (id offset : ℕ) (src : List ℕ) (b : Buffer)
    → stored m.buffers id ≡ some b
    → offset + length src < 2 ^ 64
    → offset + length src ≤ length b.bytes
    → sim_write id offset src m ≡ (written m id offset src b, ok tt)
unfolding sim_write
sim_write-ok m id offset src b here small fits =
    rw (here, sim_write, in_bounds-true offset (length src) (length b.bytes) small fits)

pub sim_read-ok :
    (m : SimMemory) (id offset len : ℕ) (b : Buffer)
    → stored m.buffers id ≡ some b
    → offset + len < 2 ^ 64
    → offset + len ≤ length b.bytes
    → sim_read id offset len m ≡ (m, ok (slice b.bytes offset (offset + len)))
unfolding sim_read
sim_read-ok m id offset len b here small fits =
    rw (here, sim_read, in_bounds-true offset len (length b.bytes) small fits)

-- A write into a stored buffer that has room for it at its offset, where offset and length add up
-- below 2^64, succeeds. A read at the same place then gives the bytes written, the buffer's other
-- bytes, its kind and its length are as before, and so is every other buffer.
pub sim_write_lem :
    (m : SimMemory) (id offset : ℕ) (src : List ℕ) (b : Buffer)
    → stored m.buffers id ≡ some b
    → offset + length src < 2 ^ 64
    → offset + length src ≤ length b.bytes
    → let (m', r) = sim_write id offset src m in
      (r ≡ ok tt)
      × (sim_read id offset (length src) m' ≡ (m', ok src))
      × (stored m'.buffers id ≡ some (record b { bytes = copy_from_slice b.bytes offset src }))
      × (length (copy_from_slice b.bytes offset src) ≡ length b.bytes)
      × ((other : ℕ) → other ≢ id → stored m'.buffers other ≡ stored m.buffers other)
sim_write_lem m id offset src b here small fits =
    rw (sim_write-ok m id offset src b here small fits) (
      refl,
      sim_read-ok (written m id offset src b) id offset (length src)
            (record b { bytes = copy_from_slice b.bytes offset src }) now_here small
            (omega (arith, length-copy_from_slice b.bytes src offset fits))
          ∙ ap (λ x. (written m id offset src b, ok x))
              (slice-copy_from_slice b.bytes src offset fits),
      now_here,
      length-copy_from_slice b.bytes src offset fits,
      λ other ne. stored-set_ne m.buffers id other _ (λ e. ne (sym e)),
    )
  where
    now_here :
        stored (written m id offset src b).buffers id
        ≡ some (record b { bytes = copy_from_slice b.bytes offset src })
    now_here = stored-set_self m.buffers id _ (stored-lt m.buffers id here)

-- A call of `write`, `read` or `free` that fails leaves the memory as it was, and so does every
-- `read`.
pub sim_unchanged :
    (m : SimMemory) (id offset len : ℕ) (src : List ℕ) (e : MemoryError)
    → ((sim_write id offset src m).1 ≡ err e → (sim_write id offset src m).0 ≡ m)
      × ((sim_free id m).1 ≡ err e → (sim_free id m).0 ≡ m)
      × ((sim_read id offset len m).0 ≡ m)
unfolding sim_write sim_free sim_read
sim_unchanged m id offset len src e = (ground arith, ground arith, ground arith)

pub sim_free-ok :
    (m : SimMemory) (id : ℕ) (b : Buffer)
    → stored m.buffers id ≡ some b
    → sim_free id m ≡ (record m { buffers = set m.buffers id none }, ok tt)
unfolding sim_free
sim_free-ok m id b here = rw (here, sim_free)

-- A freed buffer is gone: `kind_of`, `read`, `write` and a second `free` all answer NotFound, with
-- the memory unchanged.
pub sim_free_lem :
    (m : SimMemory) (id offset len : ℕ) (src : List ℕ) (b : Buffer)
    → stored m.buffers id ≡ some b
    → let (m', r) = sim_free id m in
      (r ≡ ok tt)
      × (kind_of id m' ≡ err (not_found id))
      × (sim_read id offset len m' ≡ (m', err (not_found id)))
      × (sim_write id offset src m' ≡ (m', err (not_found id)))
      × (sim_free id m' ≡ (m', err (not_found id)))
      × ((other : ℕ) → other ≢ id → stored m'.buffers other ≡ stored m.buffers other)
unfolding kind_of sim_read sim_write sim_free
sim_free_lem m id offset len src b here = rw (sim_free-ok m id b here) (
  refl,
  rw (gone, kind_of),
  rw (gone, sim_read),
  rw (gone, sim_write),
  rw (gone, sim_free),
  λ other ne. stored-set_ne m.buffers id other none (λ e. ne (sym e)),
)
  where
    gone : stored (set m.buffers id none) id ≡ none
    gone = stored-set_self m.buffers id none (stored-lt m.buffers id here)

-- The id that `allocate` returns was not in use, and holds a zeroed buffer of the size and kind asked
-- for; every buffer there was is as before.
pub sim_allocate_lem :
    (m : SimMemory) (size : ℕ) (kind : MemoryKind)
    → SimValid m
    → let (m', r) = sim_allocate size kind m in
      (r ≡ ok m.next_id)
      × (stored m.buffers m.next_id ≡ none)
      × (stored m'.buffers m.next_id ≡ some (record { kind = kind; bytes = replicate size 0 }))
      × ((other : ℕ) → other < length m.buffers → stored m'.buffers other ≡ stored m.buffers other)
unfolding sim_allocate
sim_allocate_lem m size kind v = (
  refl,
  ground (arith, get_elem?-none m.buffers m.next_id (omega arith)),
  rw v.ids (
      ground (
        arith,
        get_elem?-append_end m.buffers (some (record { kind = kind; bytes = replicate size 0 })),
      )),
  λ other lt.
      ap (λ o. elim o [ none ↦ none | some slot ↦ slot ])
        (get_elem?-append_left m.buffers _ other lt),
)
