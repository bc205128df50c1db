-- ===== src/Memory/Copy.antt =====
-- `copy` of crates/memory-manager/src/lib.rs: the new buffer holds the bytes asked for.
use aether_radio_sim.Base.{
  ℕ, ◌+◌, ◌-◌, ◌<◌, ◌≤◌, ◌^◌, ◌≡◌, ap, ◌∙◌, List, ◌++◌, some, true, ok, length, arith, inl, inr,
  slice, copy_from_slice, replicate, drop, drop_all, length-take, length-drop, append-nil,
  length-replicate, wrapping_add,
}
use aether_radio_sim.Base.Floats.{Float64}
use aether_radio_sim.Base.Machine.{Method, ◌>>=◌, ◌>>◌, >>=_ok}
use aether_radio_sim.Memory.{
  MemoryKind, MemoryError, Buffer, stored, kind_of, PooledMemory, pool_allocate, pool_write,
  pool_read, copy, copy_cost, has_room,
}
use aether_radio_sim.Memory.Sim.{
  written, sim_write-ok, sim_read-ok, sim_allocate_lem, stored-lt, stored-set_self, stored-set_ne,
}
use aether_radio_sim.Memory.Invariant.{
  PoolValid, allocated, allocated_inner, allocated_cfg, pool_allocate_cases,
}

-- Overwriting a whole buffer leaves what was written.
copy_whole : (xs src : List ℕ) → length src ≡ length xs → copy_from_slice xs 0 src ≡ src
copy_whole xs src e =
    ap (λ ys. src ++ ys) (drop_all (0 + length src) xs (omega arith)) ∙ append-nil src

length-slice :
    (xs : List ℕ) (offset len : ℕ)
    → offset + len ≤ length xs
    → length (slice xs offset (offset + len)) ≡ len
length-slice xs offset len h =
    omega (arith, length-take (offset + len - offset) (drop offset xs), length-drop offset xs)

module _ (F : Float64) (m : PooledMemory F) (v : PoolValid F m) (src offset len : ℕ)
    (kind : MemoryKind) (b : Buffer) (here : stored m.inner.buffers src ≡ some b)
    (inside : offset + len ≤ length b.bytes) (small : offset + len < 2 ^ 64) where
  pool_allocate-ok :
      m.buffer_count < m.cfg.max_buffers
      → has_room F kind len m ≡ true
      → pool_allocate F len kind m ≡ (allocated F len kind m, ok m.inner.next_id)
  pool_allocate-ok c h = elim (pool_allocate_cases F len kind m) [
    | inl (e, no_room) ↦ absurd (ground (arith, no_room))
    | inr (e, _, _) ↦ e
  ]

  bytes : List ℕ
  bytes = slice b.bytes offset (offset + len)

  length-bytes : length bytes ≡ len
  unfolding bytes
  length-bytes = length-slice b.bytes offset len inside

  -- the zeroed buffer that is copied into
  blank : Buffer
  blank = record { kind = kind; bytes = replicate len 0 }

  blank_here : stored (allocated F len kind m).inner.buffers m.inner.next_id ≡ some blank
  unfolding blank
  blank_here =
      ap (λ i. stored i.buffers m.inner.next_id) (allocated_inner F len kind m)
      ∙ (sim_allocate_lem m.inner len kind (record { ids = v.ids })).2

  blank_fits : 0 + length bytes ≤ length blank.bytes
  unfolding blank
  blank_fits = omega (arith, length-bytes, length-replicate {A = ℕ} len 0)

  -- the pool when the copy is done
  copied : PooledMemory F
  unfolding bytes blank
  copied = record (allocated F len kind m) {
    inner = written (allocated F len kind m).inner m.inner.next_id 0 bytes blank;
    last_copy_ns = some (copy_cost F (allocated F len kind m).cfg b.kind kind len);
    copy_ops = wrapping_add (allocated F len kind m).copy_ops 1;
  }

  pool_write-copied : pool_write F m.inner.next_id 0 bytes (allocated F len kind m) ≡ (
    record (allocated F len kind m) {
      inner = written (allocated F len kind m).inner m.inner.next_id 0 bytes blank;
    },
    ok tt,
  )
  unfolding pool_write
  pool_write-copied =
      ap (λ x. (record (allocated F len kind m) { inner = x.0 }, x.1))
        (sim_write-ok (allocated F len kind m).inner m.inner.next_id 0 bytes blank blank_here
          (omega (arith, length-bytes)) blank_fits)

  note : MemoryKind → ℕ → Method (PooledMemory F) MemoryError (ℕ × ℕ)
  note src_kind dst t =
      let ns = copy_cost F t.cfg src_kind kind len in
      (record t { last_copy_ns = some ns; copy_ops = wrapping_add t.copy_ops 1 }, ok (dst, ns))

  write_then : MemoryKind → List ℕ → ℕ → Method (PooledMemory F) MemoryError (ℕ × ℕ)
  unfolding note
  write_then src_kind xs dst = pool_write F dst 0 xs >> note src_kind dst

  allocate_then : MemoryKind → List ℕ → Method (PooledMemory F) MemoryError (ℕ × ℕ)
  unfolding write_then
  allocate_then src_kind xs = pool_allocate F len kind >>= write_then src_kind xs

  read_then : MemoryKind → Method (PooledMemory F) MemoryError (ℕ × ℕ)
  unfolding allocate_then
  read_then src_kind = pool_read F src offset len >>= allocate_then src_kind

  kind_read : kind_of src m.inner ≡ ok b.kind
  unfolding kind_of
  kind_read = rw (here, kind_of)

  copy-copied :
      m.buffer_count < m.cfg.max_buffers
      → has_room F kind len m ≡ true
      → copy F src offset len kind m
        ≡ (copied, ok (m.inner.next_id, copy_cost F (allocated F len kind m).cfg b.kind kind len))
  unfolding copy copied read_then pool_read
  copy-copied c h =
      >>=_ok (λ t. (t, kind_of src t.inner)) read_then m (ap (λ k. (m, k)) kind_read)
      ∙ (>>=_ok (pool_read F src offset len) (allocate_then b.kind) m (
            ap (λ x. (record m { inner = x.0 }, x.1))
              (sim_read-ok m.inner src offset len b here small inside))
          ∙ (>>=_ok (pool_allocate F len kind) (write_then b.kind bytes) m (pool_allocate-ok c h)
              ∙ >>=_ok (pool_write F m.inner.next_id 0 bytes) (λ _. note b.kind m.inner.next_id)
                  (allocated F len kind m) pool_write-copied))

  copied_here :
      stored copied.inner.buffers m.inner.next_id
      ≡ some (record { kind = kind; bytes = slice b.bytes offset (offset + len) })
  unfolding copied
  copied_here =
      stored-set_self (allocated F len kind m).inner.buffers m.inner.next_id _
        (stored-lt (allocated F len kind m).inner.buffers m.inner.next_id blank_here)
      ∙ ap (λ xs. some (record { kind = kind; bytes = xs }))
          (copy_whole blank.bytes bytes
            (omega (arith, length-bytes, length-replicate {A = ℕ} len 0)))

  copied_others :
      (other : ℕ)
      → other < length m.inner.buffers
      → stored copied.inner.buffers other ≡ stored m.inner.buffers other
  unfolding copied
  copied_others other lt =
      stored-set_ne (allocated F len kind m).inner.buffers m.inner.next_id other _
        (λ e. omega (arith, v.ids, e))
      ∙ (ap (λ i. stored i.buffers other) (allocated_inner F len kind m)
          ∙ (sim_allocate_lem m.inner len kind (record { ids = v.ids })).3 other lt)

  -- A copy of bytes inside a stored buffer, with a free entry and room in the pool, returns a new
  -- id with the cost for the two kinds. The new buffer is of the kind asked for and holds exactly the
  -- bytes copied; every buffer there was, the source included, is as before; the cost is noted.
  pub copy_lem :
      m.buffer_count < m.cfg.max_buffers
      → has_room F kind len m ≡ true
      → let (m', r) = copy F src offset len kind m in
        (r ≡ ok (m.inner.next_id, copy_cost F m.cfg b.kind kind len))
        × (stored m'.inner.buffers m.inner.next_id
            ≡ some (record { kind = kind; bytes = slice b.bytes offset (offset + len) }))
        × ((other : ℕ)
            → other < length m.inner.buffers
            → stored m'.inner.buffers other ≡ stored m.inner.buffers other)
        × (m'.last_copy_ns ≡ some (copy_cost F m.cfg b.kind kind len))
  unfolding copied
  copy_lem c h = rw (copy-copied c h) (
    ap (λ g. ok (m.inner.next_id, copy_cost F g b.kind kind len)) (allocated_cfg F len kind m),
    copied_here,
    copied_others,
    ap (λ g. some (copy_cost F g b.kind kind len)) (allocated_cfg F len kind m),
  )
