-- ===== src/Memory/Tests.antt =====
-- Concrete memories of crates/memory-manager/src/lib.rs.
use aether_radio_sim.Base.{
  ℕ, List, [], ◌∷◌, ◌≡◌, ◌<◌, ◌^◌, refl, ok, length, arith, some, none, true,
}
use aether_radio_sim.Base.Floats.{fractions}
use aether_radio_sim.Memory.{
  host, gpu, Buffer, MemoryPoolConfig, PooledMemory, stored, pool_new, copy, copy_cost, has_room,
}
use aether_radio_sim.Memory.Invariant.{PoolValid, sum_by}
use aether_radio_sim.Memory.Calls.{
  PoolOp, allocates, writes, reads, frees, copies, run, run-PoolValid,
}
use aether_radio_sim.Memory.Copy.{copy_lem}

abbrev small_buffer : Buffer
small_buffer = record { kind = host; bytes = 1 ∷ 2 ∷ 3 ∷ 4 ∷ [] }

abbrev pool_limits : MemoryPoolConfig fractions
pool_limits = record {
  version = "v1";
  id = "pool";
  host_pool_bytes = 8;
  gpu_pool_bytes = 8;
  max_buffers = 3;
  h2d_bandwidth_gbps = (8, 1);
  d2h_bandwidth_gbps = (4, 1);
  fixed_copy_latency_ns = 100;
}

some_calls : List PoolOp
some_calls =
    allocates 4 host ∷ writes 0 1 (7 ∷ []) ∷ copies 0 1 2 gpu ∷ reads 1 0 2 ∷ frees 0 ∷ frees 0 ∷ []

some_calls_few : length some_calls < 2 ^ 64
unfolding some_calls
some_calls_few = omega arith

run-PoolValid_example :
    PoolValid fractions (run fractions some_calls (pool_new fractions pool_limits))
run-PoolValid_example =
    run-PoolValid fractions pool_limits some_calls (omega arith) (omega arith) (omega arith)
      some_calls_few

-- one host buffer
abbrev one_buffer : PooledMemory fractions
one_buffer = record {
  cfg = pool_limits;
  inner = record { next_id = 1; buffers = some small_buffer ∷ [] };
  host_used = 4;
  gpu_used = 0;
  buffer_count = 1;
  sizes = some (host, 4) ∷ [];
  last_copy_ns = none;
  copy_ops = 0;
}

one_buffer-PoolValid : PoolValid fractions one_buffer
unfolding sum_by
one_buffer-PoolValid = record {
  ids = refl;
  aligned = refl;
  host_total = refl;
  gpu_total = refl;
  live = refl;
  host_limit = omega arith;
  gpu_limit = omega arith;
  count_limit = omega arith;
  host_small = omega arith;
  gpu_small = omega arith;
  count_small = omega arith;
}

room_left : has_room fractions gpu 2 one_buffer ≡ true
unfolding has_room
room_left = refl

copy_lem_example :
    let (m', r) = copy fractions 0 1 2 gpu one_buffer in
    (r ≡ ok (1, copy_cost fractions pool_limits host gpu 2))
    × (stored m'.inner.buffers 1 ≡ some (record { kind = gpu; bytes = 2 ∷ 3 ∷ [] }))
    × ((other : ℕ)
        → other < 1
        → stored m'.inner.buffers other ≡ stored one_buffer.inner.buffers other)
    × (m'.last_copy_ns ≡ some (copy_cost fractions pool_limits host gpu 2))
copy_lem_example =
    copy_lem fractions one_buffer one_buffer-PoolValid 0 1 2 gpu small_buffer refl (omega arith)
      (omega arith) (omega arith) room_left
