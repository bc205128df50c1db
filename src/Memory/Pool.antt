-- ===== src/Memory/Pool.antt =====
-- `PooledMemory` of crates/memory-manager/src/lib.rs over any sequence of calls, and what a copy does.
use aether_radio_sim.Base.{
  ℕ, zero, suc, ◌+◌, ◌≤◌, ◌≡◌, refl, ap, sym, ◌∙◌, List, [], ◌∷◌, map, Option, none, some, true, ok,
  err, length, get_elem?, set, arith, Option-cases, Bool-cases, inl, inr, ◌⊎◌, set-get_elem?,
  length-set,
}
use aether_radio_sim.Base.Floats.{Float64}
use aether_radio_sim.Memory.{
  MemoryKind, host, gpu, not_found, Buffer, SimMemory, stored, sim_write, sim_free, PooledMemory,
  pool_free, note_freed, in_bounds,
}
use aether_radio_sim.Memory.Sim.{length-copy_from_slice}
use aether_radio_sim.Memory.Invariant.{
  PoolValid, sized, weight, one, sum_by, sum_by-set, map-set, get_elem?-map,
}

stored-get_elem? :
    {A : Type 0} (xs : List (Option A)) (i : ℕ) {a : A}
    → stored xs i ≡ some a
    → get_elem? xs i ≡ some (some a)
stored-get_elem? xs i e = ground arith

stored-sized : (bs : List (Option Buffer)) (i : ℕ) → stored (map sized bs) i ≡ sized (stored bs i)
stored-sized [] i = refl
stored-sized (b ∷ bs) zero = refl
stored-sized (b ∷ bs) (suc i) = stored-sized bs i

-- Overwriting a buffer by one of its kind and length changes no size.
same_sizes :
    (bs : List (Option Buffer)) (i : ℕ) (b : Buffer) (bytes : List ℕ)
    → stored bs i ≡ some b
    → length bytes ≡ length b.bytes
    → map sized (set bs i (some (record b { bytes = bytes }))) ≡ map sized bs
same_sizes bs i b bytes here same =
    map-set sized bs i _
    ∙ (ap (λ n. set (map sized bs) i (some (b.kind, n))) same
        ∙ set-get_elem? (map sized bs) i (sized (some b))
            (get_elem?-map sized bs i (some b) (stored-get_elem? bs i here)))

in_bounds-le : (offset len size : ℕ) → in_bounds offset len size ≡ true → offset + len ≤ size
unfolding in_bounds
in_bounds-le offset len size h = ground arith

pub sim_write_sizes :
    (m : SimMemory) (id offset : ℕ) (src : List ℕ)
    → (map sized (sim_write id offset src m).0.buffers ≡ map sized m.buffers)
      × ((sim_write id offset src m).0.next_id ≡ m.next_id)
      × (length (sim_write id offset src m).0.buffers ≡ length m.buffers)
unfolding sim_write
sim_write_sizes m id offset src = elim (Option-cases (stored m.buffers id)) [
  | inl e ↦ rw (e, sim_write) (refl, refl, refl)
  | inr (b, e) ↦ elim (Bool-cases (in_bounds offset (length src) (length b.bytes))) [
    | inl t ↦
        rw (e, sim_write, t)
          (
            same_sizes m.buffers id b _ e
                (length-copy_from_slice b.bytes src offset (in_bounds-le offset _ _ t)),
            refl,
            length-set m.buffers id _,
          )
    | inr t ↦ rw (e, sim_write, t) (refl, refl, refl)
  ]
]

module _ (F : Float64) where
  -- the pool after `free` of the buffer `b`
  pub freed : ℕ → Buffer → PooledMemory F → PooledMemory F
  freed id b m =
      note_freed F id b.kind (length b.bytes)
        (record m { inner = record (m.inner) { buffers = set m.inner.buffers id none } })

  sizes_stored :
      (id : ℕ) (m : PooledMemory F)
      → PoolValid F m
      → stored m.sizes id ≡ sized (stored m.inner.buffers id)
  sizes_stored id m v = ap (λ xs. stored xs id) v.aligned ∙ stored-sized m.inner.buffers id

  -- `free` of an id that is not alive answers NotFound; else the buffer goes.
  pub pool_free_cases :
      (id : ℕ) (m : PooledMemory F)
      → PoolValid F m
      → (pool_free F id m ≡ (m, err (not_found id)))
        ⊎ ((b : Buffer) × (stored m.inner.buffers id ≡ some b)
            × (pool_free F id m ≡ (freed id b m, ok tt)))
  unfolding pool_free freed sim_free
  pool_free_cases id m v = elim (Option-cases (stored m.inner.buffers id)) [
    | inl e ↦ inl (rw (sizes_stored id m v ∙ ap sized e, pool_free))
    | inr (b, e) ↦ inr (b, e, rw (sizes_stored id m v ∙ ap sized e, pool_free) (ground (arith, e)))
  ]

  freed_sum :
      (f : Option (MemoryKind × ℕ) → ℕ) (id : ℕ) (kind : MemoryKind) (n : ℕ) (m : PooledMemory F)
      → stored m.sizes id ≡ some (kind, n)
      → sum_by f (set m.sizes id none) + f (some (kind, n)) ≡ sum_by f m.sizes + f none
  freed_sum f id kind n m here =
      sum_by-set f m.sizes id (some (kind, n)) none (stored-get_elem? m.sizes id here)

  note_freed-PoolValid :
      (id : ℕ) (kind : MemoryKind) (n : ℕ) (m : PooledMemory F)
      → PoolValid F m
      → stored m.sizes id ≡ some (kind, n)
      → PoolValid F (
          note_freed F id kind n
            (record m { inner = record (m.inner) { buffers = set m.inner.buffers id none } }))
  unfolding note_freed
  note_freed-PoolValid id host n m v here = record {
    ids = v.ids ∙ sym (length-set m.inner.buffers id none);
    aligned = ap (λ xs. set xs id none) v.aligned ∙ sym (map-set sized m.inner.buffers id none);
    host_total = ground (arith, v, freed_sum (weight host) id host n m here);
    gpu_total = ground (arith, v, freed_sum (weight gpu) id host n m here);
    live = ground (arith, v, freed_sum one id host n m here);
    host_limit = ground (arith, v);
    gpu_limit = ground (arith, v);
    count_limit = ground (arith, v);
    host_small = v.host_small;
    gpu_small = v.gpu_small;
    count_small = v.count_small;
  }
  note_freed-PoolValid id gpu n m v here = record {
    ids = v.ids ∙ sym (length-set m.inner.buffers id none);
    aligned = ap (λ xs. set xs id none) v.aligned ∙ sym (map-set sized m.inner.buffers id none);
    host_total = ground (arith, v, freed_sum (weight host) id gpu n m here);
    gpu_total = ground (arith, v, freed_sum (weight gpu) id gpu n m here);
    live = ground (arith, v, freed_sum one id gpu n m here);
    host_limit = ground (arith, v);
    gpu_limit = ground (arith, v);
    count_limit = ground (arith, v);
    host_small = v.host_small;
    gpu_small = v.gpu_small;
    count_small = v.count_small;
  }

  pub freed-PoolValid :
      (id : ℕ) (b : Buffer) (m : PooledMemory F)
      → PoolValid F m
      → stored m.inner.buffers id ≡ some b
      → PoolValid F (freed id b m)
  unfolding freed
  freed-PoolValid id b m v here =
      note_freed-PoolValid id b.kind (length b.bytes) m v (sizes_stored id m v ∙ ap sized here)

  note_freed_inner :
      (id : ℕ) (kind : MemoryKind) (n : ℕ) (m : PooledMemory F)
      → (note_freed F id kind n m).inner ≡ m.inner
  unfolding note_freed
  note_freed_inner id host n m = refl
  note_freed_inner id gpu n m = refl

  pub freed_inner :
      (id : ℕ) (b : Buffer) (m : PooledMemory F)
      → (freed id b m).inner ≡ record (m.inner) { buffers = set m.inner.buffers id none }
  unfolding freed
  freed_inner id b m = note_freed_inner id b.kind (length b.bytes) _
