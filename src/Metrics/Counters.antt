-- ===== src/Metrics/Counters.antt =====
-- What `MetricsEngine` of crates/metrics-engine/src/lib.rs holds after any sequence of its calls.
use aether_radio_sim.Base.{
  ℕ, ◌+◌, ◌-◌, ◌^◌, ◌<◌, ◌≤◌, ◌≡◌, refl, List, [], ◌∷◌, ◌++◌, length, length-append, Bool, min, max,
  u64_max, arith, append_assoc, append-nil, subst, ◌%◌, u64_mod,
}
use aether_radio_sim.Base.Floats.{Float64}
use aether_radio_sim.Layers.{TransportLayerMetrics}
use aether_radio_sim.Metrics.{
  MetricsEngine, new, sampled, record_rx, record_tx, record_drop, record_sequence_gap,
  record_late_packet, record_deadline_miss, record_error, set_ring_occupancy, record_buffer_full,
  set_memory_buffers, record_rx_bytes, record_tx_bytes, record_latency_sample, record_symbol,
  record_kernel_ns, set_link_up,
}

-- Figures of a list of samples.
unfoldable pub smallest : List ℕ → ℕ
smallest [] = 0
smallest (x ∷ []) = x
smallest (x ∷ y ∷ ys) = min x (smallest (y ∷ ys))

unfoldable pub largest : List ℕ → ℕ
largest [] = 0
largest (x ∷ xs) = max x (largest xs)

unfoldable pub total : List ℕ → ℕ
total [] = 0
total (x ∷ xs) = x + total xs

unfoldable pub final : List ℕ → ℕ
final [] = 0
final (x ∷ []) = x
final (x ∷ y ∷ ys) = final (y ∷ ys)

smallest-append :
    (x : ℕ) (xs : List ℕ) (y : ℕ) → smallest ((x ∷ xs) ++ (y ∷ [])) ≡ min (smallest (x ∷ xs)) y
unfolding smallest
smallest-append x [] y = refl
smallest-append x (z ∷ zs) y = omega (arith, smallest-append z zs y)

largest-append : (xs : List ℕ) (y : ℕ) → largest (xs ++ (y ∷ [])) ≡ max (largest xs) y
unfolding largest
largest-append [] y = omega arith
largest-append (x ∷ xs) y = omega (arith, largest-append xs y)

total-append : (xs : List ℕ) (y : ℕ) → total (xs ++ (y ∷ [])) ≡ total xs + y
unfolding total
total-append [] y = omega arith
total-append (x ∷ xs) y = omega (arith, total-append xs y)

final-append : (xs : List ℕ) (y : ℕ) → final (xs ++ (y ∷ [])) ≡ y
unfolding final
final-append [] y = refl
final-append (x ∷ []) y = refl
final-append (x ∷ z ∷ zs) y = final-append (z ∷ zs) y

smallest-le-final : (xs : List ℕ) → smallest xs ≤ final xs
unfolding smallest final
smallest-le-final [] = omega arith
smallest-le-final (x ∷ []) = omega arith
smallest-le-final (x ∷ y ∷ ys) = omega (arith, smallest-le-final (y ∷ ys))

final-le-largest : (xs : List ℕ) → final xs ≤ largest xs
unfolding largest final
final-le-largest [] = omega arith
final-le-largest (x ∷ []) = omega arith
final-le-largest (x ∷ y ∷ ys) = omega (arith, final-le-largest (y ∷ ys))

-- The latency figures of a layer are those of the samples.
pub record Summarises (xs : List ℕ) (t : TransportLayerMetrics) : Type 0 where
  pub samples : t.latency_samples ≡ length xs
  pub least : t.latency_min_ns ≡ smallest xs
  pub greatest : t.latency_max_ns ≡ largest xs
  pub last : t.latency_last_ns ≡ final xs
  pub sum : t.latency_sum_ns ≡ min (total xs) u64_max
  pub spread : t.jitter_ns ≤ largest xs - smallest xs

pub sampled-Summarises :
    (x : ℕ) (xs : List ℕ) (t : TransportLayerMetrics)
    → Summarises xs t
    → length xs + 1 < 2 ^ 64
    → Summarises (xs ++ (x ∷ [])) (sampled x t)
unfolding sampled smallest largest total
sampled-Summarises x [] t v room = ground (arith, final-append [] x)
sampled-Summarises x (z ∷ zs) t v room = ground (
  arith,
  smallest-append z zs x,
  largest-append (z ∷ zs) x,
  total-append (z ∷ zs) x,
  final-append (z ∷ zs) x,
  length-append (z ∷ zs) (x ∷ []),
  smallest-le-final (z ∷ zs),
  final-le-largest (z ∷ zs),
)

module _ (F : Float64) where
  pub data MetricsOp : Type 0 where
    rx tx dropped gap late missed faulty full symbol : MetricsOp
    occupancy rx_bytes tx_bytes latency kernel : ℕ → MetricsOp
    buffers : ℕ → ℕ → MetricsOp
    link : Bool → F.Num → MetricsOp

  unfoldable pub step : MetricsOp → MetricsEngine F → MetricsEngine F
  step rx = record_rx F
  step tx = record_tx F
  step dropped = record_drop F
  step gap = record_sequence_gap F
  step late = record_late_packet F
  step missed = record_deadline_miss F
  step faulty = record_error F
  step full = record_buffer_full F
  step symbol = record_symbol F
  step (occupancy n) = set_ring_occupancy F n
  step (rx_bytes n) = record_rx_bytes F n
  step (tx_bytes n) = record_tx_bytes F n
  step (latency n) = record_latency_sample F n
  step (kernel n) = record_kernel_ns F n
  step (buffers h g) = set_memory_buffers F h g
  step (link up speed) = set_link_up F up speed

  unfoldable pub run : List MetricsOp → MetricsEngine F → MetricsEngine F
  run [] m = m
  run (op ∷ ops) m = run ops (step op m)

  -- The latencies that the calls report, and how many of them count a received packet.
  unfoldable pub samples_in : MetricsOp → List ℕ
  samples_in (latency n) = n ∷ []
  samples_in _ = []

  unfoldable pub samples_of : List MetricsOp → List ℕ
  samples_of [] = []
  samples_of (op ∷ ops) = samples_in op ++ samples_of ops

  unfoldable pub received_in : MetricsOp → ℕ
  received_in rx = 1
  received_in (rx_bytes _) = 1
  received_in _ = 0

  unfoldable pub received : List MetricsOp → ℕ
  received [] = 0
  received (op ∷ ops) = received_in op + received ops

  -- The engine after calls that report the latencies `xs` and count `n` received packets: the figures
  -- are those of the latencies, and the counters that are kept twice agree.
  pub record Agrees (xs : List ℕ) (n : ℕ) (m : MetricsEngine F) : Type 0 where
    pub latencies : Summarises xs m.layered.transport
    pub packets : m.layered.transport.rx_packets ≡ n % u64_mod
    pub kept_last : m.last_latency_ns ≡ m.layered.transport.latency_last_ns
    pub misses : m.layered.radio.deadline_miss ≡ m.layered.radio.slot_deadline_miss
    pub overflows : m.layered.memory.buffer_full ≡ m.layered.memory.overflow
    pub slots : m.layered.radio.slot_received ≡ m.layered.radio.symbol_received
    pub processed : m.layered.radio.slot_processed ≡ m.layered.radio.symbol_received

  new-Agrees : Agrees [] 0 (new F)
  unfolding new smallest largest total final
  new-Agrees = ground arith

  step-Agrees :
      (op : MetricsOp) (xs : List ℕ) (n : ℕ) (m : MetricsEngine F)
      → Agrees xs n m
      → length xs + 1 < 2 ^ 64
      → Agrees (xs ++ samples_in op) (n + received_in op) (step op m)
  unfolding step samples_in received_in record_rx record_tx record_drop record_sequence_gap
      record_late_packet record_deadline_miss record_error record_buffer_full record_symbol
      set_ring_occupancy record_rx_bytes record_tx_bytes record_kernel_ns set_memory_buffers
      set_link_up record_latency_sample
  step-Agrees (latency x) xs n m v room = record {
    latencies = sampled-Summarises x xs m.layered.transport v.latencies room;
    packets = ground arith;
    kept_last = refl;
    misses = v.misses;
    overflows = v.overflows;
    slots = v.slots;
    processed = v.processed;
  }
  step-Agrees _ xs n m v room = rw (append-nil xs) (ground arith)

  samples_in-le : (op : MetricsOp) → length (samples_in op) ≤ 1
  unfolding samples_in
  samples_in-le (latency x) = omega arith
  samples_in-le _ = omega arith

  run-Agrees :
      (ops : List MetricsOp) (xs : List ℕ) (n : ℕ) (m : MetricsEngine F)
      → Agrees xs n m
      → length xs + length ops < 2 ^ 64
      → Agrees (xs ++ samples_of ops) (n + received ops) (run ops m)
  unfolding run samples_of received
  run-Agrees [] xs n m v room = rw (append-nil xs) (ground arith)
  run-Agrees (op ∷ ops) xs n m v room =
      let rest =
        run-Agrees ops (xs ++ samples_in op) (n + received_in op) (step op m)
          (step-Agrees op xs n m v (omega (arith, room)))
          (omega (arith, room, length-append xs (samples_in op), samples_in-le op)) in
      subst (λ ys. Agrees ys (n + (received_in op + received ops)) (run ops (step op m)))
        (append_assoc xs (samples_in op) (samples_of ops))
        (subst (λ k. Agrees ((xs ++ samples_in op) ++ samples_of ops) k (run ops (step op m)))
          (omega arith) rest)

  -- After any sequence of fewer than 2^64 calls on a new engine its latency figures are those of the
  -- reported latencies: their number, least, greatest, last and sum, which saturates, and a jitter
  -- that is at most the distance between the least and the greatest; the received packets are the
  -- calls of record_rx and record_rx_bytes, modulo 2^64, and the counters that are kept twice agree.
  pub run-new :
      (ops : List MetricsOp)
      → length ops < 2 ^ 64
      → Agrees (samples_of ops) (received ops) (run ops (new F))
  run-new ops room =
      subst (λ k. Agrees (samples_of ops) k (run ops (new F))) (omega arith)
        (run-Agrees ops [] 0 (new F) new-Agrees (omega (arith, room)))
