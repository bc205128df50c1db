-- ===== src/Lib.antt =====
-- Verification library of the Aether Radio data plane simulation: packets are framed, come in
-- through a NIC model, pass memory and a GPU slot ring, and are checked by the transport.
--
-- * Types models crates/aether-types/src/lib.rs. A `Packet` is what every other part passes on.
-- * Protocol models crates/aether-protocol/src/lib.rs: `encode`, `decode`, `encode_frame` and
--   `decode_frame` on lists of bytes. Protocol/Bytes has the lemmas on little-endian words.
-- * GpuRing models crates/gpu-runtime/src/ring.rs and the enums of crates/gpu-runtime/src/lib.rs: a
--   `GpuRingBuffer` is its list of slots, and a method returns the new ring beside its `Result`. What
--   each method does to its slot is a function of its own (`receive_slot`, `fill_slot`, ...).
-- * Memory models crates/memory-manager/src/lib.rs: `SimMemory` (`sim_` functions) and `PooledMemory`
--   (`pool_` functions and `copy`), which calls it.
-- * Nic models the queue pair and the `Cx5Nic` of crates/cx5-emulator/src/lib.rs, Dpdk its
--   `DpdkPacketIO` with the stub of crates/dpdk-adapter/src/lib.rs.
-- * Transport models crates/aether-transport: Check its check.rs, Sim its sim.rs, and Mock the mock
--   engine of its lib.rs.
-- * Fpga models crates/fpga-emulator/src/lib.rs: the symbol clock (Fpga/Clock) and the packets that the
--   emulator emits (Fpga/Emission).
-- * Fault models crates/fault-injection/src/lib.rs: the policy (Fault/Policy) and the injector, which
--   changes, drops and reorders packets on their way (Fault/Injector, Fault/Carried).
-- * Shm models crates/shm-io/src/lib.rs: the ring in a mapped file (Shm/Queue and Shm/Pop on one call,
--   Shm/Runs on any order of calls), the sender's retries and the receiver's polling.
-- * Layers models crates/metrics-engine/src/layers.rs, Trace its trace.rs, Health the state machine of
--   its health.rs (Health/Moves on one evaluation, Health/Recovery on two), Metrics the engine of its lib.rs, and Recovery the policy of its recovery.rs.
-- * Ethernet models crates/ethernet-model/src/lib.rs, and Bench the statistics of
--   crates/benchmark/src/lib.rs.
-- * Pipeline models crates/benchmark/src/pipeline.rs, which runs all of these. Pipeline has the closure
--   `process_one`, which a packet goes through, with the variables that it changes as a record, and
--   Pipeline/Run the rest of `run`. Each `match` of the source is a function by clauses on the result
--   that it splits (`taken`, `retried`, `begun`, `received`, ...). The books of the pipeline are the
--   `Ledger` of Pipeline/Accounts; Pipeline/Delivery follows one packet through an idle pipeline, and
--   Pipeline/Opening, Pipeline/Conservation and Pipeline/Complete put a whole run together.
-- * Gates models crates/benchmark/src/soak.rs and acceptance.rs, and the verdict of fault_drill.rs, over
--   the benchmark as a parameter: Gates/Rounds is the loop of the soak run, Gates/Soak and
--   Gates/Acceptance are what the two decide.
-- * Net models crates/net-io/src/lib.rs: binding, sending and polling over a socket that is what its
--   calls answer (Net/Polling), when a poll returns (Net/Returns), and a sink and a host on one network
--   (Net/Link).
-- * Base has what they share: list and word operations, tests, `Result`, methods with state, maps, and
--   the floating-point interface. The Tests module of a part has concrete inputs.
--
-- Conventions. Words are native numbers. `+=` on a counter wraps, as in a release build; a debug
-- build panics where the wrap happens. `usize` has 64 bits. A `HashMap` is an association list,
-- read by key only. `f64` is a parameter, the record `Float64`, whose one law is that a cast to
-- `u64` saturates, and `f32` another, whose one law is the width of its encoding; the tests
-- instantiate them. A Vec keeps no capacity. Loops over a vector are recursions on the list, and
-- a loop with a counter is a recursion on the number of its turns. The `while let` loop over what
-- the injector holds takes fuel for two turns, which is proved enough. A call of the shared-memory
-- ring is one step: its loads and stores are not interleaved with those of the other process.
--
-- Not modelled: the loading of YAML, files, the CUDA backend, the command line and the text
-- of metrics, which are I/O or calls of libraries; and the crates that no file here names.
pub mod Base
pub mod Types
pub mod Protocol
pub mod GpuRing
pub mod Memory
pub mod Nic
pub mod Dpdk
pub mod Transport
pub mod Fpga
pub mod Fault
pub mod Shm
pub mod Trace
pub mod Health
pub mod Layers
pub mod Metrics
pub mod Recovery
pub mod Ethernet
pub mod Bench
pub mod Pipeline
pub mod Gates
pub mod Net
