-- ===== src/Memory/Calls.antt =====
-- Any sequence of calls on a `PooledMemory` of crates/memory-manager/src/lib.rs.
use aether_radio_sim.Base.{
  ℕ, suc, ◌+◌, ◌<◌, ◌≤◌, ◌^◌, ◌≡◌, ap, sym, ◌∙◌, subst, Option, List, [], ◌∷◌, ok, length,
  length-append, length-set, arith, inl, inr, some, none, replicate, u64_max, wrapping_add,
}
use aether_radio_sim.Base.Floats.{Float64}
use aether_radio_sim.Base.Machine.{Method, ◌>>=◌, ◌>>◌, >>=_keeps}
use aether_radio_sim.Memory.{
  MemoryKind, MemoryError, pool_exhausted, PooledMemory, MemoryPoolConfig, pool_new, pool_allocate,
  pool_write, pool_read, pool_free, copy, copy_cost, kind_of, sim_allocate,
}
use aether_radio_sim.Memory.Sim.{sim_unchanged}
use aether_radio_sim.Memory.Invariant.{
  PoolValid, allocated, pool_allocate_cases, allocated-PoolValid, allocated_inner,
  pool_new-PoolValid,
}
use aether_radio_sim.Memory.Pool.{sim_write_sizes, pool_free_cases, freed-PoolValid, freed_inner}

-- A call with its arguments.
pub data PoolOp : Type 0 where
  allocates : ℕ → MemoryKind → PoolOp
  writes : ℕ → ℕ → List ℕ → PoolOp
  reads : ℕ → ℕ → ℕ → PoolOp
  frees : ℕ → PoolOp
  copies : ℕ → ℕ → ℕ → MemoryKind → PoolOp

module _ (F : Float64) where
  -- The pool after a call, whatever the call returns.
  unfoldable pub step : PoolOp → PooledMemory F → PooledMemory F
  step (allocates size kind) m = (pool_allocate F size kind m).0
  step (writes id offset src) m = (pool_write F id offset src m).0
  step (reads id offset len) m = (pool_read F id offset len m).0
  step (frees id) m = (pool_free F id m).0
  step (copies src offset len kind) m = (copy F src offset len kind m).0

  unfoldable pub run : List PoolOp → PooledMemory F → PooledMemory F
  run [] m = m
  run (o ∷ os) m = run os (step o m)

  -- The books are right, and at most `n` buffers were ever made.
  pub record Booked (n : ℕ) (m : PooledMemory F) : Type 0 where
    pub valid : PoolValid F m
    pub made : length m.inner.buffers ≤ n

  Booked-mono : {n : ℕ} {m : PooledMemory F} → Booked n m → Booked (suc n) m
  Booked-mono b = record { valid = b.valid; made = omega (arith, b.made) }

  made :
      (size : ℕ) (kind : MemoryKind) (m : PooledMemory F) (n : ℕ)
      → length m.inner.buffers ≤ n
      → length (allocated F size kind m).inner.buffers ≤ suc n
  unfolding sim_allocate
  made size kind m n h = omega (
    arith,
    ap (λ i. length i.buffers) (allocated_inner F size kind m),
    length-append m.inner.buffers (some (record { kind = kind; bytes = replicate size 0 }) ∷ []),
  )

  pool_allocate-Booked :
      (n size : ℕ) (kind : MemoryKind) (m : PooledMemory F)
      → Booked n m
      → n + 1 < 2 ^ 64
      → Booked (suc n) (pool_allocate F size kind m).0
  pool_allocate-Booked n size kind m b small = elim (pool_allocate_cases F size kind m) [
    | inl (e, _) ↦ subst (Booked (suc n)) (sym (ap (λ x. x.0) e)) (Booked-mono b)
    | inr (e, c, h) ↦ subst (Booked (suc n)) (sym (ap (λ x. x.0) e)) (record {
      valid = allocated-PoolValid F size kind m b.valid c h (omega (arith, b.made));
      made = made size kind m n b.made;
    })
  ]

  pool_write-Booked :
      (n id offset : ℕ) (src : List ℕ) (m : PooledMemory F)
      → Booked n m
      → Booked n (pool_write F id offset src m).0
  unfolding pool_write
  pool_write-Booked n id offset src m b =
      let (sizes, ids, len) = sim_write_sizes m.inner id offset src in
      record {
        valid = record {
          ids = ids ∙ (b.valid.ids ∙ sym len);
          aligned = b.valid.aligned ∙ sym sizes;
          host_total = b.valid.host_total;
          gpu_total = b.valid.gpu_total;
          live = b.valid.live;
          host_limit = b.valid.host_limit;
          gpu_limit = b.valid.gpu_limit;
          count_limit = b.valid.count_limit;
          host_small = b.valid.host_small;
          gpu_small = b.valid.gpu_small;
          count_small = b.valid.count_small;
        };
        made = omega (arith, b.made, len);
      }

  pool_read-same : (id offset len : ℕ) (m : PooledMemory F) → (pool_read F id offset len m).0 ≡ m
  unfolding pool_read
  pool_read-same id offset len m =
      λ i. record m { inner = (sim_unchanged m.inner id offset len [] (pool_exhausted)).2 i }

  pool_free-Booked : (n id : ℕ) (m : PooledMemory F) → Booked n m → Booked n (pool_free F id m).0
  pool_free-Booked n id m b = elim (pool_free_cases F id m b.valid) [
    | inl e ↦ subst (Booked n) (sym (ap (λ x. x.0) e)) b
    | inr (x, here, e) ↦ subst (Booked n) (sym (ap (λ x. x.0) e)) (record {
      valid = freed-PoolValid F id x m b.valid here;
      made = omega (
        arith,
        b.made,
        ap (λ i. length i.buffers) (freed_inner F id x m),
        length-set m.inner.buffers id none,
      );
    })
  ]

  pool_read-Booked :
      (n id offset len : ℕ) (m : PooledMemory F)
      → Booked n m
      → Booked n (pool_read F id offset len m).0
  pool_read-Booked n id offset len m b = subst (Booked n) (sym (pool_read-same id offset len m)) b

  noted-Booked :
      (n : ℕ) (ns : Option ℕ) (ops : ℕ) (m : PooledMemory F)
      → Booked n m
      → Booked n (record m { last_copy_ns = ns; copy_ops = ops })
  noted-Booked n ns ops m b = record {
    valid = record {
      ids = b.valid.ids;
      aligned = b.valid.aligned;
      host_total = b.valid.host_total;
      gpu_total = b.valid.gpu_total;
      live = b.valid.live;
      host_limit = b.valid.host_limit;
      gpu_limit = b.valid.gpu_limit;
      count_limit = b.valid.count_limit;
      host_small = b.valid.host_small;
      gpu_small = b.valid.gpu_small;
      count_small = b.valid.count_small;
    };
    made = b.made;
  }

  copy-Booked :
      (n src offset len : ℕ) (kind : MemoryKind) (m : PooledMemory F)
      → Booked n m
      → n + 1 < 2 ^ 64
      → Booked (suc n) (copy F src offset len kind m).0
  unfolding copy pool_read
  copy-Booked n src offset len kind m b small =
      >>=_keeps (Booked n) (Booked (suc n)) (λ t. (t, kind_of src t.inner)) read_then m b
        (λ t. Booked-mono)
        λ src_kind t1 b1.
          >>=_keeps (Booked n) (Booked (suc n)) (pool_read F src offset len)
            (allocate_then src_kind) t1 (pool_read-Booked n src offset len t1 b1) (λ t. Booked-mono)
            λ bytes t2 b2.
              >>=_keeps (Booked (suc n)) (Booked (suc n)) (pool_allocate F len kind)
                (write_then src_kind bytes) t2 (pool_allocate-Booked n len kind t2 b2 small)
                (λ t c. c)
                λ dst t3 b3.
                  >>=_keeps (Booked (suc n)) (Booked (suc n)) (pool_write F dst 0 bytes)
                    (λ _. note src_kind dst) t3 (pool_write-Booked (suc n) dst 0 bytes t3 b3)
                    (λ t c. c)
                    λ _ t4 b4.
                      noted-Booked (suc n) (some (copy_cost F t4.cfg src_kind kind len))
                        (wrapping_add t4.copy_ops 1) t4 b4
    where
      note : MemoryKind → ℕ → Method (PooledMemory F) MemoryError (ℕ × ℕ)
      note src_kind dst t =
          let ns = copy_cost F t.cfg src_kind kind len in
          (record t { last_copy_ns = some ns; copy_ops = wrapping_add t.copy_ops 1 }, ok (dst, ns))

      write_then : MemoryKind → List ℕ → ℕ → Method (PooledMemory F) MemoryError (ℕ × ℕ)
      write_then src_kind bytes dst = pool_write F dst 0 bytes >> note src_kind dst

      allocate_then : MemoryKind → List ℕ → Method (PooledMemory F) MemoryError (ℕ × ℕ)
      allocate_then src_kind bytes = pool_allocate F len kind >>= write_then src_kind bytes

      read_then : MemoryKind → Method (PooledMemory F) MemoryError (ℕ × ℕ)
      read_then src_kind = pool_read F src offset len >>= allocate_then src_kind

  step-Booked :
      (o : PoolOp) (n : ℕ) (m : PooledMemory F)
      → Booked n m
      → n + 1 < 2 ^ 64
      → Booked (suc n) (step o m)
  unfolding step
  step-Booked (allocates size kind) n m b h = pool_allocate-Booked n size kind m b h
  step-Booked (writes id offset src) n m b h = Booked-mono (pool_write-Booked n id offset src m b)
  step-Booked (reads id offset len) n m b h = Booked-mono (pool_read-Booked n id offset len m b)
  step-Booked (frees id) n m b h = Booked-mono (pool_free-Booked n id m b)
  step-Booked (copies src offset len kind) n m b h = copy-Booked n src offset len kind m b h

  run-Booked :
      (os : List PoolOp) (n : ℕ) (m : PooledMemory F)
      → Booked n m
      → n + length os < 2 ^ 64
      → PoolValid F (run os m)
  unfolding run
  run-Booked [] n m b h = b.valid
  run-Booked (o ∷ os) n m b h =
      run-Booked os (suc n) (step o m) (step-Booked o n m b (omega arith)) (omega arith)

  none_made : (cfg : MemoryPoolConfig F) → length (pool_new F cfg).inner.buffers ≤ 0
  unfolding pool_new
  none_made cfg = omega arith

  -- After any sequence of calls on a new pool with limits below 2^64 - 1, fewer calls than 2^64, the
  -- counters are the sums of sizes and the number of the buffers alive, and lie within the limits.
  pub run-PoolValid :
      (cfg : MemoryPoolConfig F) (os : List PoolOp)
      → cfg.host_pool_bytes < u64_max
      → cfg.gpu_pool_bytes < u64_max
      → cfg.max_buffers ≤ u64_max
      → length os < 2 ^ 64
      → PoolValid F (run os (pool_new F cfg))
  run-PoolValid cfg os h g c small =
      run-Booked os 0 (pool_new F cfg)
        (record { valid = pool_new-PoolValid F cfg h g c; made = none_made cfg }) (omega arith)
