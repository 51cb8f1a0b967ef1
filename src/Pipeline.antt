-- ===== src/Pipeline.antt =====
-- The acquisition thread over the zero-suppressed context: AcquirePublisher
-- (AqMD3_console/src/acquirepublisher.cpp) with CstZs1Context (libaqmd3/src/cstzs1context.cpp),
-- StreamingContext (libaqmd3/src/streamingcontext.cpp) and the pool, put together. The driver is the
-- interface of `Card` with a script of fetch answers, and what other threads do between two calls of
-- `acquire` is a script too.
pub mod Rows
pub mod Delivery
pub mod Filed
pub mod Disk
pub mod Generator
pub mod Routing
use aq_md3_acquisition_conso.Common.{
  ℕ, ◌-◌, Bool, true, false, Option, none, some, List, [], ◌∷◌, get_elem?, set,
}
use aq_md3_acquisition_conso.Common.Int.{ℤ}
use aq_md3_acquisition_conso.Buffer.{AcquisitionBuffer, create}
use aq_md3_acquisition_conso.Pool.{AcquisitionBufferPool, Slot, get_buffer}
use aq_md3_acquisition_conso.Stream.{
  AcquiredData, Failure, driver_error, fetch_refused, timed_out, leftover_markers, dummy_gate,
  unexpected_header, markers_replayed, Fetch,
}
use aq_md3_acquisition_conso.Card.{
  Driver, Result, ok, thrown, begin_acquisition, abort_acquisition, get_is_acquiring,
}
use aq_md3_acquisition_conso.Zs1
use aq_md3_acquisition_conso.Zs1.{Zs1Context}
use aq_md3_acquisition_conso.Zs1.Acquire
use aq_md3_acquisition_conso.Zs1.Acquire.{Outcome, returned, threw, waiting}
use aq_md3_acquisition_conso.Publish.{
  Reply, delivered, frame_damaged, std_exception, hangs, Context,
}

-- What happens before a turn of the thread's loop: whether `should_stop` was set, and the slots of
-- the pool that a consumer let go of.
pub record Turn : Type 0 where
  pub should_stop : Bool
  pub released : List ℕ

pub record Machine (D : Type 0) : Type 0 where
  pub card : D
  pub context : Zs1Context
  pub buffer_pool : AcquisitionBufferPool
  pub fetches : List Fetch
  pub turns : List Turn

abbrev let_go : Slot → Slot
let_go s = record s { holders = s.holders - 1 }

abbrev pub release : List ℕ → List Slot → List Slot
release [] slots = slots
release (i ∷ is) slots = elim (get_elem? slots i) [
  | none ↦ release is slots
  | some s ↦ release is (set slots i (let_go s))
]

-- The pool as the next call of `acquire` finds it, and the turns after.
abbrev pub next_turn : {D : Type 0} → List Turn → Machine D → Machine D
next_turn [] m = m
next_turn (turn ∷ turns) m = record m {
  buffer_pool = record (m.buffer_pool) {
    samples_buffer_pool = release turn.released m.buffer_pool.samples_buffer_pool;
  };
  turns = turns;
}

abbrev pub asks_to_stop : List Turn → Bool
asks_to_stop [] = false
asks_to_stop (turn ∷ turns) = turn.should_stop

-- The buffer of the slot that `get_buffer` gave; every such slot is there.
abbrev pub buffer_of : AcquisitionBufferPool → ℕ → AcquisitionBuffer
buffer_of p index = elim (get_elem? p.samples_buffer_pool index) [
  | none ↦ create p.max_triggers_per_read p.samples_per_trigger
  | some s ↦ s.buffer
]

abbrev pub fill : ℕ → AcquisitionBuffer → List Slot → Option Slot → List Slot
fill index b slots none = slots
fill index b slots (some s) = set slots index (record s { buffer = b })

-- The pool shares the buffer that the call filled.
abbrev pub keep_buffer : ℕ → AcquisitionBuffer → AcquisitionBufferPool → AcquisitionBufferPool
keep_buffer index b p = record p {
  samples_buffer_pool = fill index b p.samples_buffer_pool (get_elem? p.samples_buffer_pool index);
}

-- The handler that an exception comes to.
unfoldable pub caught : Failure → Reply
caught markers_replayed = frame_damaged
caught (driver_error status) = std_exception
caught (fetch_refused elements) = std_exception
caught timed_out = std_exception
caught leftover_markers = std_exception
caught dummy_gate = std_exception
caught (unexpected_header header) = std_exception

-- After a throw the buffer goes back to the pool, and the thread asks for no more data in this frame:
-- the answers that are left are of no account.
unfoldable pub answered :
    {D : Type 0}
    → Machine D
    → ℕ
    → AcquisitionBufferPool
    → Outcome (AcquiredData × Zs1Context)
    → Reply × Machine D
answered m index p (returned (d, c) fs) = (
  delivered d,
  record m { context = c; buffer_pool = keep_buffer index d.samples_buffer p; fetches = fs },
)
answered m index p (threw e c) = (
  caught e,
  record m {
    context = c;
    buffer_pool = record p { samples_buffer_pool = release (index ∷ []) p.samples_buffer_pool };
  },
)
answered m index p waiting = (hangs, m)

module _ {R D : Type 0} (driver : Driver R D) (use_timeout : Bool) where
  abbrev queried : Machine D → Result Bool × D → Option (Bool × Machine D)
  queried m (ok b, d) = some (b, record m { card = d })
  queried m (thrown e, d) = none

  -- What is left of a call of the driver, with the context changed as the override changes it.
  abbrev called : (Zs1Context → Zs1Context) → Machine D → Result ℤ × D → Option (Machine D)
  called then m (ok a, d) = some (record m { card = d; context = then m.context })
  called then m (thrown e, d) = none

  unfoldable pub acquire : ℕ → Machine D → Reply × Machine D
  unfolding answered
  acquire triggers_to_read m =
      let m' = next_turn m.turns m in
      let (p, index) = get_buffer m'.buffer_pool in
      answered m' index p
        (Acquire.acquire triggers_to_read use_timeout m'.fetches (buffer_of p index) m'.context)

  -- CstZs1Context as the publisher's `digitizer`.
  unfoldable pub zs1 : Context (Machine D)
  unfolding acquire
  zs1 = record {
    get_is_acquiring = λ m. queried m (get_is_acquiring driver m.card);
    start = λ m. called Zs1.start m (begin_acquisition driver m.card);
    stop = λ m. called Zs1.stop m (abort_acquisition driver m.card);
    acquire = acquire;
    should_stop = λ m. asks_to_stop m.turns;
  }
