-- ===== src/Memory/Invariant.antt =====
-- The books of `PooledMemory` in crates/memory-manager/src/lib.rs: the counters are the sums over
-- the buffers that are alive, and they stay within the limits.
use aether_radio_sim.Base.{
  ℕ, zero, suc, ◌+◌, ◌-◌, ◌<◌, ◌≤◌, ◌^◌, ◌≡◌, refl, ap, sym, ◌∙◌, List, [], ◌∷◌, ◌++◌, map, Option,
  none, some, true, false, ok, err, length, get_elem?, set, replicate, arith, ◌⊎◌, length-append,
  u64_max, length-replicate,
}
use mathlib.Core.Option.{some-injective}
use aether_radio_sim.Base.Floats.{Float64}
use aether_radio_sim.Memory.{
  MemoryKind, host, gpu, pool_exhausted, Buffer, sim_allocate, PooledMemory, MemoryPoolConfig,
  pool_new, pool_allocate, has_room, grow, note_allocated,
}

-- An entry of `sizes` as the buffer's.
abbrev pub sized : Option Buffer → Option (MemoryKind × ℕ)
sized none = none
sized (some b) = some (b.kind, length b.bytes)

abbrev pub weight : MemoryKind → Option (MemoryKind × ℕ) → ℕ
weight k none = 0
weight host (some (host, n)) = n
weight host (some (gpu, n)) = 0
weight gpu (some (host, n)) = 0
weight gpu (some (gpu, n)) = n

abbrev pub one : Option (MemoryKind × ℕ) → ℕ
one none = 0
one (some _) = 1

-- the sum of `f` over the entries
unfoldable pub sum_by {ℓ} : {A : Type ℓ} → (A → ℕ) → List A → ℕ
sum_by f [] = 0
sum_by f (x ∷ xs) = f x + sum_by f xs

pub sum_by-append {ℓ} :
    {A : Type ℓ} (f : A → ℕ) (xs ys : List A) → sum_by f (xs ++ ys) ≡ sum_by f xs + sum_by f ys
unfolding sum_by
sum_by-append f [] ys = omega arith
sum_by-append f (x ∷ xs) ys = omega (arith, sum_by-append f xs ys)

pub sum_by-set {ℓ} :
    {A : Type ℓ} (f : A → ℕ) (xs : List A) (i : ℕ) (x y : A)
    → get_elem? xs i ≡ some x
    → sum_by f (set xs i y) + f x ≡ sum_by f xs + f y
unfolding sum_by
sum_by-set f [] i x y e = absurd (ground arith)
sum_by-set f (z ∷ xs) zero x y e = omega (arith, ap f (some-injective z x e))
sum_by-set f (z ∷ xs) (suc i) x y e = omega (arith, sum_by-set f xs i x y e)

pub map-set {ℓ κ} :
    {A : Type ℓ} {B : Type κ} (f : A → B) (xs : List A) (i : ℕ) (v : A)
    → map f (set xs i v) ≡ set (map f xs) i (f v)
map-set f [] i v = refl
map-set f (x ∷ xs) zero v = refl
map-set f (x ∷ xs) (suc i) v = ap (◌∷◌ (f x)) (map-set f xs i v)

pub length-map {ℓ κ} :
    {A : Type ℓ} {B : Type κ} (f : A → B) (xs : List A) → length (map f xs) ≡ length xs
length-map f [] = refl
length-map f (x ∷ xs) = ap suc (length-map f xs)

pub get_elem?-map {ℓ κ} :
    {A : Type ℓ} {B : Type κ} (f : A → B) (xs : List A) (i : ℕ) (x : A)
    → get_elem? xs i ≡ some x
    → get_elem? (map f xs) i ≡ some (f x)
get_elem?-map f [] i x e = absurd (ground arith)
get_elem?-map f (z ∷ xs) zero x e = ap (λ y. some (f y)) (some-injective z x e)
get_elem?-map f (z ∷ xs) (suc i) x e = get_elem?-map f xs i x e

set_last :
    {A : Type 0} (xs : List A) (w v : A) → set (xs ++ (w ∷ [])) (length xs) v ≡ xs ++ (v ∷ [])
set_last [] w v = refl
set_last (x ∷ xs) w v = ap (◌∷◌ x) (set_last xs w v)

-- Growing a full vector to its next index and writing there appends.
set-grow :
    {A : Type 0} (xs : List (Option A)) (v : Option A)
    → set (grow xs (length xs)) (length xs) v ≡ xs ++ (v ∷ [])
set-grow xs v =
    let one_more : suc (length xs) - length xs ≡ 1 = omega arith in
    ap (λ n. set (xs ++ replicate n none) (length xs) v) one_more ∙ set_last xs none v

map-append_one {ℓ κ} :
    {A : Type ℓ} {B : Type κ} (f : A → B) (xs : List A) (x : A)
    → map f (xs ++ (x ∷ [])) ≡ map f xs ++ (f x ∷ [])
map-append_one f [] x = refl
map-append_one f (y ∷ ys) x = ap (◌∷◌ (f y)) (map-append_one f ys x)

-- What the counters of a pool say, with the limits below the range of `usize`.
pub record PoolValid (F : Float64) (m : PooledMemory F) : Type 0 where
  pub ids : m.inner.next_id ≡ length m.inner.buffers
  pub aligned : m.sizes ≡ map sized m.inner.buffers
  pub host_total : m.host_used ≡ sum_by (weight host) m.sizes
  pub gpu_total : m.gpu_used ≡ sum_by (weight gpu) m.sizes
  pub live : m.buffer_count ≡ sum_by one m.sizes
  pub host_limit : m.host_used ≤ m.cfg.host_pool_bytes
  pub gpu_limit : m.gpu_used ≤ m.cfg.gpu_pool_bytes
  pub count_limit : m.buffer_count ≤ m.cfg.max_buffers
  pub host_small : m.cfg.host_pool_bytes < u64_max
  pub gpu_small : m.cfg.gpu_pool_bytes < u64_max
  pub count_small : m.cfg.max_buffers ≤ u64_max

module _ (F : Float64) where
  pub pool_new-PoolValid :
      (cfg : MemoryPoolConfig F)
      → cfg.host_pool_bytes < u64_max
      → cfg.gpu_pool_bytes < u64_max
      → cfg.max_buffers ≤ u64_max
      → PoolValid F (pool_new F cfg)
  unfolding pool_new sum_by
  pool_new-PoolValid cfg h g c = ground arith

  -- the pool after `allocate` has found room
  unfoldable pub allocated : ℕ → MemoryKind → PooledMemory F → PooledMemory F
  allocated size kind m =
      note_allocated F m.inner.next_id kind size
        (record m { inner = (sim_allocate size kind m.inner).0 })

  -- `allocate` refuses and changes nothing, or has room and books the new buffer.
  pub pool_allocate_cases :
      (size : ℕ) (kind : MemoryKind) (m : PooledMemory F)
      → ((pool_allocate F size kind m ≡ (m, err pool_exhausted))
          × ((m.cfg.max_buffers ≤ m.buffer_count) ⊎ (has_room F kind size m ≡ false)))
        ⊎ ((pool_allocate F size kind m ≡ (allocated size kind m, ok m.inner.next_id))
            × (m.buffer_count < m.cfg.max_buffers)
            × (has_room F kind size m ≡ true))
  unfolding pool_allocate allocated sim_allocate
  pool_allocate_cases size kind m = ground arith

  at_end :
      (size : ℕ) (kind : MemoryKind) (m : PooledMemory F)
      → PoolValid F m
      → set (grow m.sizes m.inner.next_id) m.inner.next_id (some (kind, size))
        ≡ m.sizes ++ (some (kind, size) ∷ [])
  at_end size kind m v =
      ap (λ n. set (grow m.sizes n) n (some (kind, size)))
        (v.ids ∙ sym (ap length v.aligned ∙ length-map sized m.inner.buffers))
      ∙ set-grow m.sizes (some (kind, size))

  allocated_sizes :
      (size : ℕ) (kind : MemoryKind) (m : PooledMemory F)
      → PoolValid F m
      → (allocated size kind m).sizes ≡ m.sizes ++ (some (kind, size) ∷ [])
  unfolding allocated note_allocated sim_allocate
  allocated_sizes size host m v = at_end size host m v
  allocated_sizes size gpu m v = at_end size gpu m v

  allocated_aligned :
      (size : ℕ) (kind : MemoryKind) (m : PooledMemory F)
      → PoolValid F m
      → m.sizes ++ (some (kind, size) ∷ []) ≡ map sized (sim_allocate size kind m.inner).0.buffers
  unfolding sim_allocate
  allocated_aligned size kind m v =
      ap (λ xs. xs ++ (some (kind, size) ∷ [])) v.aligned
      ∙ (ap (λ n. map sized m.inner.buffers ++ (some (kind, n) ∷ []))
            (sym (length-replicate size 0))
          ∙ sym (map-append_one sized m.inner.buffers _))

  allocated_sum :
      (f : Option (MemoryKind × ℕ) → ℕ) (size : ℕ) (kind : MemoryKind) (m : PooledMemory F)
      → PoolValid F m
      → sum_by f (allocated size kind m).sizes ≡ sum_by f m.sizes + f (some (kind, size))
  unfolding sum_by
  allocated_sum f size kind m v =
      ap (sum_by f) (allocated_sizes size kind m v)
      ∙ (sum_by-append f m.sizes (some (kind, size) ∷ []) ∙ omega arith)

  next_ids :
      (size : ℕ) (kind : MemoryKind) (m : PooledMemory F)
      → PoolValid F m
      → length m.inner.buffers + 1 < 2 ^ 64
      → (sim_allocate size kind m.inner).0.next_id
        ≡ length (sim_allocate size kind m.inner).0.buffers
  unfolding sim_allocate
  next_ids size kind m v small = omega (
    arith,
    v.ids,
    length-append m.inner.buffers (some (record { kind = kind; bytes = replicate size 0 }) ∷ []),
  )

  pub allocated-PoolValid :
      (size : ℕ) (kind : MemoryKind) (m : PooledMemory F)
      → PoolValid F m
      → m.buffer_count < m.cfg.max_buffers
      → has_room F kind size m ≡ true
      → length m.inner.buffers + 1 < 2 ^ 64
      → PoolValid F (allocated size kind m)
  unfolding allocated note_allocated has_room sim_allocate
  allocated-PoolValid size host m v c h small = record {
    ids = next_ids size host m v small;
    aligned = allocated_sizes size host m v ∙ allocated_aligned size host m v;
    host_total = ground (arith, v, allocated_sum (weight host) size host m v);
    gpu_total = ground (arith, v, allocated_sum (weight gpu) size host m v);
    live = ground (arith, v, allocated_sum one size host m v);
    host_limit = ground (arith, v);
    gpu_limit = ground (arith, v);
    count_limit = ground (arith, v);
    host_small = v.host_small;
    gpu_small = v.gpu_small;
    count_small = v.count_small;
  }
  allocated-PoolValid size gpu m v c h small = record {
    ids = next_ids size gpu m v small;
    aligned = allocated_sizes size gpu m v ∙ allocated_aligned size gpu m v;
    host_total = ground (arith, v, allocated_sum (weight host) size gpu m v);
    gpu_total = ground (arith, v, allocated_sum (weight gpu) size gpu m v);
    live = ground (arith, v, allocated_sum one size gpu m v);
    host_limit = ground (arith, v);
    gpu_limit = ground (arith, v);
    count_limit = ground (arith, v);
    host_small = v.host_small;
    gpu_small = v.gpu_small;
    count_small = v.count_small;
  }

  pub allocated_inner :
      (size : ℕ) (kind : MemoryKind) (m : PooledMemory F)
      → (allocated size kind m).inner ≡ (sim_allocate size kind m.inner).0
  unfolding allocated note_allocated
  allocated_inner size host m = refl
  allocated_inner size gpu m = refl

  pub allocated_cfg :
      (size : ℕ) (kind : MemoryKind) (m : PooledMemory F) → (allocated size kind m).cfg ≡ m.cfg
  unfolding allocated note_allocated
  allocated_cfg size host m = refl
  allocated_cfg size gpu m = refl
