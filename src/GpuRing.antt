-- ===== src/GpuRing.antt =====
-- The GPU slot ring of crates/gpu-runtime/src/ring.rs, with the slot states and errors of
-- crates/gpu-runtime/src/lib.rs. Vectors keep no capacity; YAML loading is left out.
pub mod Slots
pub mod Cycle
pub mod Validity
pub mod Packet
pub mod Idle
mod Tests
use Prim.Native.String.{String}
use aether_radio_sim.Base.{
  ℕ, ◌<◌, List, [], Option, none, some, Bool, true, false, not, Result, ok, err, length, get_elem?,
  set, replicate, ltb, if◌then◌else◌, saturating_add, saturating_sub,
}
use aether_radio_sim.Base.Floats.{Float64}
use aether_radio_sim.Base.Machine.{Method, ◌>>=◌, ◌>>◌, pure, fail}
use aether_radio_sim.Base.Search.{position, count_where}

pub data BufferState : Type 0 where
  free receiving ready processing done : BufferState

pub data GpuError : Type 0 where
  not_found : ℕ → GpuError
  ring_full : GpuError
  -- from, to
  invalid_transition : BufferState → BufferState → GpuError
  no_slot : BufferState → GpuError
  config : String → GpuError
  payload_too_large : GpuError

-- the derived `==` of `BufferState`
unfoldable pub state_eq : BufferState → BufferState → Bool
state_eq free free = true
state_eq receiving receiving = true
state_eq ready ready = true
state_eq processing processing = true
state_eq done done = true
state_eq _ _ = false

pub record GpuRingConfig (F : Float64) : Type 0 where
  pub version : String
  pub id : String
  pub slot_count : ℕ
  pub slot_bytes : ℕ
  pub kernel_delay_us : F.Num

unfoldable pub config_kernel_delay_ns : (F : Float64) → GpuRingConfig F → ℕ
config_kernel_delay_ns F cfg = F.to_u64 (F.mul cfg.kernel_delay_us (F.of_nat 1000))

pub record RingSlot : Type 0 where
  pub state : BufferState
  pub payload : List ℕ
  pub arrive_ns : ℕ
  pub done_ns : ℕ

-- `RingSlot::empty`
abbrev pub empty : RingSlot
empty = record { state = free; payload = []; arrive_ns = 0; done_ns = 0 }

pub record GpuRingBuffer : Type 0 where
  pub slots : List RingSlot
  pub slot_bytes : ℕ
  pub kernel_delay_ns : ℕ

unfoldable pub new : (F : Float64) → GpuRingConfig F → GpuRingBuffer
new F cfg = record {
  slots = replicate cfg.slot_count empty;
  slot_bytes = cfg.slot_bytes;
  kernel_delay_ns = config_kernel_delay_ns F cfg;
}

pub slot_count : GpuRingBuffer → ℕ
slot_count r = length r.slots

abbrev pub in_state : BufferState → RingSlot → Bool
in_state state s = state_eq s.state state

unfoldable pub find_state : GpuRingBuffer → BufferState → Option ℕ
find_state r state = position (in_state state) r.slots

-- the `matches!` of `transition`
unfoldable pub is_edge : BufferState → BufferState → Bool
is_edge free receiving = true
is_edge receiving ready = true
is_edge ready processing = true
is_edge processing done = true
is_edge done free = true
is_edge _ _ = false

-- On an error the slot stays as it was.
unfoldable pub transition : RingSlot → BufferState → Result GpuError RingSlot
transition slot to =
    if not (is_edge slot.state to)
    then err (invalid_transition slot.state to)
    else ok (record slot { state = to })

abbrev pub put_slot : ℕ → RingSlot → GpuRingBuffer → GpuRingBuffer
put_slot idx slot r = record r { slots = set r.slots idx slot }

-- `f` on `&mut self.slots[idx]`: the new slot and the result. `missing` is the error of
-- `get_mut(idx).ok_or(missing)`; where the source indexes a slot that it has just found, the slot is
-- there.
abbrev pub with_slot :
    {A : Type 0}
    → ℕ
    → GpuError
    → (RingSlot → RingSlot × Result GpuError A)
    → Method GpuRingBuffer GpuError A
with_slot idx missing f r = elim (get_elem? r.slots idx) [
  | none ↦ (r, err missing)
  | some slot ↦ let (slot', result) = f slot in (put_slot idx slot' r, result)
]

-- The same for the slot that a search has found, `nothing` being the error if it found none.
abbrev pub on_found :
    {A : Type 0}
    → Option ℕ
    → GpuError
    → GpuError
    → (ℕ → RingSlot → RingSlot × Result GpuError A)
    → Method GpuRingBuffer GpuError A
on_found found nothing missing f r = elim found [
  | none ↦ (r, err nothing)
  | some idx ↦ with_slot idx missing (f idx) r
]

-- A slot after a `transition`, if that goes through.
abbrev moved :
    {A : Type 0}
    → RingSlot
    → Result GpuError RingSlot
    → (RingSlot → RingSlot)
    → A
    → RingSlot × Result GpuError A
moved slot (ok slot') after a = (after slot', ok a)
moved slot (err e) after a = (slot, err e)

pub receive_slot : ℕ → ℕ → RingSlot → RingSlot × Result GpuError ℕ
unfolding transition is_edge
receive_slot idx arrive_ns slot =
    moved slot (transition slot receiving)
      (λ s. record s { arrive_ns = arrive_ns; done_ns = 0; payload = [] }) idx

unfoldable pub begin_receive : ℕ → Method GpuRingBuffer GpuError ℕ
unfolding receive_slot find_state
begin_receive arrive_ns r =
    on_found (find_state r free) ring_full ring_full (λ idx. receive_slot idx arrive_ns) r

pub fill_slot : ℕ → List ℕ → RingSlot → RingSlot × Result GpuError (Unit {0})
unfolding transition is_edge state_eq
fill_slot slot_bytes payload slot =
    if not (state_eq slot.state receiving)
    then (slot, err (invalid_transition slot.state ready))
    else if ltb slot_bytes (length payload)
    then (slot, err payload_too_large)
    else let filled : RingSlot = record slot { payload = payload } in
      moved filled (transition filled ready) (λ s. s) tt

unfoldable pub complete_receive : ℕ → List ℕ → Method GpuRingBuffer GpuError (Unit {0})
unfolding fill_slot
complete_receive idx payload r =
    with_slot idx (no_slot receiving) (fill_slot r.slot_bytes payload) r

pub start_slot : ℕ × ℕ → RingSlot → RingSlot × Result GpuError (ℕ × ℕ)
unfolding transition is_edge
start_slot result slot = moved slot (transition slot processing) (λ s. s) result

-- The slot that is found is the first that is ready, in index order.
unfoldable pub begin_process : ℕ → Method GpuRingBuffer GpuError (ℕ × ℕ)
unfolding start_slot find_state
begin_process now_ns r =
    on_found (find_state r ready) (no_slot ready) (no_slot ready)
      (λ idx. start_slot (idx, saturating_add now_ns r.kernel_delay_ns)) r

pub finish_slot : ℕ → RingSlot → RingSlot × Result GpuError ℕ
unfolding transition is_edge state_eq
finish_slot done_ns slot =
    if not (state_eq slot.state processing)
    then (slot, err (invalid_transition slot.state done))
    else let stamped : RingSlot = record slot { done_ns = done_ns } in
      moved stamped (transition stamped done) (λ s. s) (saturating_sub done_ns slot.arrive_ns)

unfoldable pub complete_process : ℕ → ℕ → Method GpuRingBuffer GpuError ℕ
unfolding finish_slot
complete_process idx done_ns = with_slot idx (no_slot processing) (finish_slot done_ns)

pub clear_slot : RingSlot → RingSlot × Result GpuError (Unit {0})
unfolding transition is_edge state_eq
clear_slot slot =
    if not (state_eq slot.state done)
    then (slot, err (invalid_transition slot.state free))
    else let cleared : RingSlot = record slot { payload = [] } in
      moved cleared (transition cleared free) (λ s. s) tt

unfoldable pub release : ℕ → Method GpuRingBuffer GpuError (Unit {0})
unfolding clear_slot
release idx = with_slot idx (no_slot done) clear_slot

unfoldable pub process_packet : List ℕ → ℕ → Method GpuRingBuffer GpuError ℕ
process_packet payload arrive_ns = do
  idx ← begin_receive arrive_ns
  complete_receive idx payload
  (idx', done_at) ← begin_process arrive_ns
  latency ← complete_process idx' done_at
  release idx'
  pure latency

unfoldable pub count_state : GpuRingBuffer → BufferState → ℕ
count_state r state = count_where (in_state state) r.slots

unfoldable pub occupied : GpuRingBuffer → ℕ
occupied r = count_where (λ s. not (in_state free s)) r.slots
