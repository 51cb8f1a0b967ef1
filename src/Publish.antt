-- ===== src/Publish.antt =====
-- The acquisition thread: AcquirePublisher (AqMD3_console/src/acquirepublisher.cpp and
-- AqMD3_console/include/acquirepublisher.h), with the state of
-- AqMD3_console/include/acquisitioncontrol.h and the completion of
-- AqMD3_console/include/publisher.h.
-- The streaming context and the flag that another thread sets are the interface `Context`, over a
-- state `S` of the world. What the thread does to the outside is a list of events; log lines are left
-- out, and a status message is given by its kind.
pub mod Events
pub mod Turns
pub mod Frame
pub mod Stopping
use aq_md3_acquisition_conso.Common.{
  ℕ, zero, suc, ◌+◌, ◌-◌, Bool, true, false, not, ◌||◌, List, [], ◌∷◌, ◌++◌, length, leb, ltb,
  if◌then◌else◌, Option, none, some,
}
use aq_md3_acquisition_conso.Stream.{AcquiredData}
use aq_md3_acquisition_conso.Encode.{UimfFrameParameters, UimfAcquisitionRecord}

-- How a call of `acquire` ends: with data, with a `FrameDamaged`, with another exception, with a throw
-- that is none, or never.
pub data Reply : Type 0 where
  delivered : AcquiredData → Reply
  frame_damaged : Reply
  std_exception : Reply
  unknown_throw : Reply
  hangs : Reply

pub record Context (S : Type 0) : Type 0 where
  -- `none` where the call throws.
  pub get_is_acquiring : S → Option (Bool × S)
  pub start : S → Option S
  pub stop : S → Option S
  pub acquire : ℕ → S → Reply × S
  -- What the load of `should_stop` reads.
  pub should_stop : S → Bool

pub data Event : Type 0 where
  digitizer_start : Event
  digitizer_stop : Event
  notified : UimfAcquisitionRecord → Event
  -- Status "error data: ... in frame", "error ...", "finished" and "finished acquire".
  status_error_data : ℕ → Event
  status_error : Event
  status_finished : Event
  status_finished_acquire : Event
  -- The subscribers are told to end, and are waited for.
  subscribers_completed : Event
  worker_joined : Event

pub data State : Type 0 where
  acquiring stopped errored unknown : State

-- Where the loop ends: the scans acquired, `has_errored`, the world, and the events on the way.
pub data Loop (S : Type 0) : Type 0 where
  ended : ℕ → Bool → S → List Event → Loop S
  hung : List Event → Loop S
  out_of_fuel : Loop S

abbrev pub emit : {S : Type 0} → Event → Loop S → Loop S
emit e (ended scans has_errored s events) = ended scans has_errored s (e ∷ events)
emit e (hung events) = hung (e ∷ events)
emit e out_of_fuel = out_of_fuel

unfoldable pub to_acquire_count : ℕ → ℕ → ℕ → ℕ
to_acquire_count segment_size total acquired =
    if ltb (total - acquired) segment_size then total - acquired else segment_size

abbrev pub acquisition_record : UimfFrameParameters → AcquiredData → ℕ → UimfAcquisitionRecord
acquisition_record parameters data' start = record {
  parameters = parameters;
  acquired = data';
  start_scan_index = start;
}

-- The `try` of one turn and its handlers, then the rest of the loop.
unfoldable pub after_acquire :
    {S : Type 0} → UimfFrameParameters → ℕ → Reply × S → (ℕ → Bool → S → Loop S) → Loop S
after_acquire parameters acquired (delivered d, s) rest =
    emit (notified (acquisition_record parameters d acquired))
      (rest (acquired + length d.stamps) false s)
after_acquire parameters acquired (frame_damaged, s) rest =
    emit (status_error_data parameters.frame_number) (rest acquired true s)
after_acquire parameters acquired (std_exception, s) rest = emit status_error (rest acquired true s)
after_acquire parameters acquired (unknown_throw, s) rest = emit status_error (rest acquired true s)
after_acquire parameters acquired (hangs, s) rest = hung []

-- The `while` loop, on fuel.
unfoldable pub acquire_loop :
    {S : Type 0} → Context S → ℕ → UimfFrameParameters → ℕ → ℕ → Bool → S → Loop S
unfolding to_acquire_count
acquire_loop c segment_size parameters zero acquired has_errored s = out_of_fuel
acquire_loop c segment_size parameters (suc fuel) acquired has_errored s =
    if leb parameters.frame_length acquired
    then ended acquired has_errored s []
    else if has_errored || c.should_stop s
    then ended acquired has_errored s []
    else after_acquire parameters acquired
        (c.acquire (to_acquire_count segment_size parameters.frame_length acquired) s)
        (λ scans failed s'. acquire_loop c segment_size parameters fuel scans failed s')

-- What the thread has come to: it returns, or an exception leaves it, which ends the process, or
-- neither.
pub data Worked (S : Type 0) : Type 0 where
  returned : State → S → List Event → Worked S
  terminated : List Event → Worked S
  stuck : Worked S

-- The call of the digitizer's `stop`, and what follows it.
unfoldable pub after_stop : {S : Type 0} → List Event → Option S → Worked S
after_stop events none = terminated (events ++ (digitizer_stop ∷ []))
after_stop events (some s) = returned stopped s (events ++ (digitizer_stop ∷ status_finished ∷ []))

abbrev pub finish : {S : Type 0} → Context S → List Event → Loop S → Worked S
finish c before (ended scans has_errored s events) = after_stop (before ++ events) (c.stop s)
finish c before (hung events) = stuck
finish c before out_of_fuel = stuck

-- From the call of the digitizer's `start`, which no `try` of the thread holds.
unfoldable pub after_start :
    {S : Type 0} → Context S → ℕ → ℕ → UimfFrameParameters → Option S → Worked S
after_start c segment_size fuel parameters none = terminated (digitizer_start ∷ [])
after_start c segment_size fuel parameters (some s) =
    finish c (digitizer_start ∷ []) (acquire_loop c segment_size parameters fuel 0 false s)

unfoldable pub after_query :
    {S : Type 0} → Context S → ℕ → ℕ → UimfFrameParameters → Option (Bool × S) → Worked S
after_query c segment_size fuel parameters none = terminated []
after_query c segment_size fuel parameters (some (true, s)) = finish c [] (ended 0 false s [])
after_query c segment_size fuel parameters (some (false, s)) =
    after_start c segment_size fuel parameters (c.start s)

-- The body of the thread.
unfoldable pub work : {S : Type 0} → Context S → ℕ → ℕ → UimfFrameParameters → S → Worked S
unfolding after_query after_start
work c segment_size fuel parameters s =
    after_query c segment_size fuel parameters (c.get_is_acquiring s)

-- `start`: a publisher that is acquiring starts no second thread.
unfoldable pub start : {S : Type 0} → Context S → ℕ → ℕ → UimfFrameParameters → State → S → Worked S
start c segment_size fuel parameters acquiring s = returned acquiring s []
start c segment_size fuel parameters stopped s = work c segment_size fuel parameters s
start c segment_size fuel parameters errored s = work c segment_size fuel parameters s
start c segment_size fuel parameters unknown s = work c segment_size fuel parameters s

-- What `stop` reads and leaves: whether the completion was signalled, and whether there is a thread
-- to join.
pub record Control : Type 0 where
  pub should_stop : Bool
  pub completed : Bool
  pub joinable : Bool

abbrev pub join_worker : Control → Control × List Event
join_worker k = if k.joinable then (record k { joinable = false }, worker_joined ∷ []) else (k, [])

-- `notify_completed` sets the promise again if it is called again, since the future stays valid:
-- that throws, and the rest of `stop` is not run.
unfoldable pub stop : Bool → Control → Control × List Event
stop terminate k =
    let k' : Control = record k { should_stop = true } in
    if not terminate
    then join_worker k'
    else if k.completed
    then (k', [])
    else (let (k'', joined) = join_worker (record k' { completed = true }) in
        (k'', subscribers_completed ∷ status_finished_acquire ∷ joined))
