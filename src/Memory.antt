-- ===== src/Memory.antt =====
-- The host and GPU memory of crates/memory-manager/src/lib.rs: the simulated address spaces and the
-- pools with limits. A `BufferId` is a `u64`; `id as usize` keeps it on a 64-bit target.
pub mod Sim
pub mod Invariant
pub mod Pool
pub mod Calls
pub mod Copy
mod Tests
use Prim.Native.String.{String}
use mathlib.Core.Option
use aether_radio_sim.Base.{
  ℕ, zero, suc, ◌+◌, ◌-◌, ◌<◌, List, [], ◌∷◌, ◌++◌, Option, none, some, Bool, true, false, Result,
  ok, err, length, get_elem?, set, slice, copy_from_slice, replicate, ltb, leb, if◌then◌else◌,
  saturating_add, saturating_sub, wrapping_add, u64_mod,
}
use aether_radio_sim.Base.Floats.{Float64}
use aether_radio_sim.Base.Machine.{Method, ◌>>=◌, ◌>>◌, pure, fail}

pub data MemoryKind : Type 0 where
  host gpu : MemoryKind

pub data MemoryError : Type 0 where
  not_found : ℕ → MemoryError
  out_of_bounds : MemoryError
  pool_exhausted : MemoryError
  config : String → MemoryError

pub record Buffer : Type 0 where
  pub kind : MemoryKind
  pub bytes : List ℕ

-- `get(id).and_then(as_ref)` on a vector of options: what is stored there, if anything.
abbrev pub stored {ℓ} : {A : Type ℓ} → List (Option A) → ℕ → Option A
stored xs id = elim (get_elem? xs id) [ none ↦ none | some slot ↦ slot ]

pub record SimMemory : Type 0 where
  pub next_id : ℕ
  pub buffers : List (Option Buffer)

-- `SimMemory::new`
abbrev pub sim_new : SimMemory
sim_new = record { next_id = 0; buffers = [] }

pub kind_of : ℕ → SimMemory → Result MemoryError MemoryKind
kind_of id m = elim (stored m.buffers id) [ none ↦ err (not_found id) | some b ↦ ok b.kind ]

-- `SimMemory::allocate`; `next_id += 1` wraps in a release build.
unfoldable pub sim_allocate : ℕ → MemoryKind → Method SimMemory MemoryError ℕ
sim_allocate size kind m = (
  record {
    next_id = wrapping_add m.next_id 1;
    buffers = m.buffers ++ (some (record { kind = kind; bytes = replicate size 0 }) ∷ []);
  },
  ok m.next_id,
)

-- `offset.checked_add(len)`, then the test against the buffer's length
unfoldable pub in_bounds : ℕ → ℕ → ℕ → Bool
in_bounds offset len size = if ltb (offset + len) u64_mod then leb (offset + len) size else false

-- `SimMemory::write`
unfoldable pub sim_write : ℕ → ℕ → List ℕ → Method SimMemory MemoryError (Unit {0})
unfolding in_bounds
sim_write id offset src m = elim (stored m.buffers id) [
  | none ↦ (m, err (not_found id))
  | some b ↦
      if in_bounds offset (length src) (length b.bytes)
      then (
        record m {
          buffers =
              set m.buffers id (some (record b { bytes = copy_from_slice b.bytes offset src }));
        },
        ok tt,
      )
      else (m, err out_of_bounds)
]

-- `SimMemory::read`
unfoldable pub sim_read : ℕ → ℕ → ℕ → Method SimMemory MemoryError (List ℕ)
unfolding in_bounds
sim_read id offset len m = elim (stored m.buffers id) [
  | none ↦ (m, err (not_found id))
  | some b ↦
      if in_bounds offset len (length b.bytes)
      then (m, ok (slice b.bytes offset (offset + len)))
      else (m, err out_of_bounds)
]

-- `SimMemory::free`; `take()` leaves `None` in the slot.
unfoldable pub sim_free : ℕ → Method SimMemory MemoryError (Unit {0})
sim_free id m = elim (stored m.buffers id) [
  | none ↦ (m, err (not_found id))
  | some b ↦ (record m { buffers = set m.buffers id none }, ok tt)
]

pub record MemoryPoolConfig (F : Float64) : Type 0 where
  pub version : String
  pub id : String
  pub host_pool_bytes : ℕ
  pub gpu_pool_bytes : ℕ
  pub max_buffers : ℕ
  pub h2d_bandwidth_gbps : F.Num
  pub d2h_bandwidth_gbps : F.Num
  pub fixed_copy_latency_ns : ℕ

-- `while sizes.len() <= id { push(None) }`: the loop runs `id + 1 - len` times.
abbrev pub grow {ℓ} : {A : Type ℓ} → List (Option A) → ℕ → List (Option A)
grow sizes id = sizes ++ replicate (suc id - length sizes) none

module _ (F : Float64) where
  pub record PooledMemory : Type 0 where
    pub cfg : MemoryPoolConfig F
    pub inner : SimMemory
    pub host_used : ℕ
    pub gpu_used : ℕ
    pub buffer_count : ℕ
    pub sizes : List (Option (MemoryKind × ℕ))
    pub last_copy_ns : Option ℕ
    pub copy_ops : ℕ

  unfoldable pub pool_new : MemoryPoolConfig F → PooledMemory
  pool_new cfg = record {
    cfg = cfg;
    inner = sim_new;
    host_used = 0;
    gpu_used = 0;
    buffer_count = 0;
    sizes = [];
    last_copy_ns = none;
    copy_ops = 0;
  }

  -- `1e9` is 10^9.
  unfoldable pub copy_latency_ns : MemoryPoolConfig F → ℕ → Bool → ℕ
  copy_latency_ns cfg bytes h2d =
      let gbps = if h2d then cfg.h2d_bandwidth_gbps else cfg.d2h_bandwidth_gbps in
      let giga = F.of_nat 1_000_000_000 in
      let wire =
        if F.le gbps (F.of_nat 0)
        then 0
        else F.to_u64
            (F.mul (F.div (F.mul (F.of_nat bytes) (F.of_nat 8)) (F.mul gbps giga)) giga) in
      saturating_add wire cfg.fixed_copy_latency_ns

  -- A method of `inner`, which leaves the counters alone.
  abbrev pub lifted :
      {A : Type 0} → Method SimMemory MemoryError A → Method PooledMemory MemoryError A
  lifted f m = let (inner, result) = f m.inner in (record m { inner = inner }, result)

  -- whether the pool of `kind` has `size` bytes left
  unfoldable pub has_room : MemoryKind → ℕ → PooledMemory → Bool
  has_room host size m = leb (saturating_add m.host_used size) m.cfg.host_pool_bytes
  has_room gpu size m = leb (saturating_add m.gpu_used size) m.cfg.gpu_pool_bytes

  -- `used += size` for the pool of `kind`
  abbrev pub charge : MemoryKind → ℕ → PooledMemory → PooledMemory
  charge host size m = record m { host_used = wrapping_add m.host_used size }
  charge gpu size m = record m { gpu_used = wrapping_add m.gpu_used size }

  -- `used.saturating_sub(size)` for the pool of `kind`
  abbrev pub refund : MemoryKind → ℕ → PooledMemory → PooledMemory
  refund host size m = record m { host_used = saturating_sub m.host_used size }
  refund gpu size m = record m { gpu_used = saturating_sub m.gpu_used size }

  -- what `allocate` does once `inner` has made the buffer `id`
  pub note_allocated : ℕ → MemoryKind → ℕ → PooledMemory → PooledMemory
  note_allocated id kind size m = charge kind size (record m {
    sizes = set (grow m.sizes id) id (some (kind, size));
    buffer_count = wrapping_add m.buffer_count 1;
  })

  -- `PooledMemory::allocate`
  unfoldable pub pool_allocate : ℕ → MemoryKind → Method PooledMemory MemoryError ℕ
  unfolding has_room note_allocated
  pool_allocate size kind m =
      if leb m.cfg.max_buffers m.buffer_count
      then (m, err pool_exhausted)
      else if has_room kind size m
      then (do id ← lifted (sim_allocate size kind); λ m'. (note_allocated id kind size m', ok id))
          m
      else (m, err pool_exhausted)

  unfoldable pub pool_write : ℕ → ℕ → List ℕ → Method PooledMemory MemoryError (Unit {0})
  pool_write id offset src = lifted (sim_write id offset src)

  unfoldable pub pool_read : ℕ → ℕ → ℕ → Method PooledMemory MemoryError (List ℕ)
  pool_read id offset len = lifted (sim_read id offset len)

  pub note_freed : ℕ → MemoryKind → ℕ → PooledMemory → PooledMemory
  note_freed id kind size m =
      refund kind size
        (record m { sizes = set m.sizes id none; buffer_count = saturating_sub m.buffer_count 1 })

  -- `PooledMemory::free`
  unfoldable pub pool_free : ℕ → Method PooledMemory MemoryError (Unit {0})
  unfolding note_freed
  pool_free id m = elim (stored m.sizes id) [
    | none ↦ (m, err (not_found id))
    | some (kind, size) ↦ (do lifted (sim_free id); λ m'. (note_freed id kind size m', ok tt)) m
  ]

  -- The cost of a copy of `len` bytes between the two kinds.
  unfoldable pub copy_cost : MemoryPoolConfig F → MemoryKind → MemoryKind → ℕ → ℕ
  copy_cost cfg host gpu len = copy_latency_ns cfg len true
  copy_cost cfg gpu host len = copy_latency_ns cfg len false
  copy_cost cfg host host len = cfg.fixed_copy_latency_ns
  copy_cost cfg gpu gpu len = cfg.fixed_copy_latency_ns

  -- `PooledMemory::copy`
  unfoldable pub copy : ℕ → ℕ → ℕ → MemoryKind → Method PooledMemory MemoryError (ℕ × ℕ)
  copy src offset len dst_kind = do
    src_kind ← λ m. (m, kind_of src m.inner)
    bytes ← lifted (sim_read src offset len)
    dst ← pool_allocate len dst_kind
    pool_write dst 0 bytes
    λ m.
        let ns = copy_cost m.cfg src_kind dst_kind len in
        (record m { last_copy_ns = some ns; copy_ops = wrapping_add m.copy_ops 1 }, ok (dst, ns))
