-- ===== src/Chain.antt =====
-- The life of an acquisition chain under a client's commands: the handler's "acquire", "acquire frame"
-- and "stop" (AqMD3_console/src/aqmd3_console.cpp) on the controller that they share, with
-- AcquirePublisher::start and stop (AqMD3_console/src/acquirepublisher.cpp) and the completion of
-- AqMD3_console/include/publisher.h. The command thread, the acquisition thread and the subscriber's
-- thread interleave as steps. What a frame does is in `Publish`; here it hands records on, and ends. The
-- card's own `start` and `stop` do not throw here. A command that fails before it reaches the
-- controller changes nothing here, and is no step.
pub mod Polite
pub mod Safety
pub mod Return
pub mod Kill
pub mod Loss
use aq_md3_acquisition_conso.Common.{
  ℕ, suc, ◌+◌, ◌≡◌, Bool, true, false, not, List, [], ◌∷◌, if◌then◌else◌,
}
use aq_md3_acquisition_conso.Publish.{State, acquiring, stopped, errored, unknown}

-- The thread behind `worker_handle`: none yet, made but not running yet, at the test of its loop, within
-- a turn, past the store of `STOPPED`, at its end, and joined.
pub data Worker : Type 0 where
  no_worker starting running turning closing ended joined : Worker

-- Where the command thread stands: it takes the next command, waits for the subscribers, or joins the
-- worker.
pub data Control : Type 0 where
  ready waiting joining : Control

pub record Chain : Type 0 where
  pub state : State
  pub should_stop : Bool
  pub worker : Worker
  pub control : Control
  -- The promise is set, and the subscriber's thread has seen it and come to its end.
  pub completed : Bool
  pub subscriber_ended : Bool
  -- The records handed to the subscriber, and those of them that came after its end.
  pub handed : ℕ
  pub lost : ℕ

-- A std::thread that is destroyed unless it was joined ends the process.
abbrev pub is_joinable : Worker → Bool
is_joinable no_worker = false
is_joinable starting = true
is_joinable running = true
is_joinable turning = true
is_joinable closing = true
is_joinable ended = true
is_joinable joined = false

abbrev pub is_acquiring : State → Bool
is_acquiring acquiring = true
is_acquiring stopped = false
is_acquiring errored = false
is_acquiring unknown = false

-- The console as a client finds it: no controller yet, a chain, a process that was terminated, or one
-- that called a null controller.
pub data System : Type 0 where
  no_controller : System
  alive : Chain → System
  terminated : System
  null_call : System

pub data Command : Type 0 where
  acquire acquire_frame : Command
  -- "stop", and whether "acquire" follows.
  stop : Bool → Command

-- The constructors of AcquirePublisher, its bases and its one subscriber.
unfoldable pub fresh : Chain
fresh = record {
  state = unknown;
  should_stop = false;
  worker = no_worker;
  control = ready;
  completed = false;
  subscriber_ended = false;
  handed = 0;
  lost = 0;
}

abbrev pub launch : Chain → Chain
launch s = record s { should_stop = false; worker = starting }

-- `AcquirePublisher::start`: the new thread's handle takes the place of the old one's, which is
-- destroyed.
unfoldable pub start_frame : Chain → System
start_frame s =
    if is_acquiring s.state
    then alive s
    else if is_joinable s.worker
    then terminated
    else alive (launch s)

-- `AcquirePublisher::stop`, up to where it waits. A promise that is set a second time throws.
unfoldable pub stop_chain : Bool → Chain → Chain
stop_chain false s = record s { should_stop = true; control = joining }
stop_chain true s =
    if s.completed
    then record s { should_stop = true }
    else record s { should_stop = true; completed = true; control = waiting }

-- "acquire" makes a new chain and destroys the old one, whose worker is destroyed with it.
abbrev pub perform_acquire : System → System
perform_acquire no_controller = start_frame fresh
perform_acquire (alive s) = if is_joinable s.worker then terminated else start_frame fresh
perform_acquire terminated = terminated
perform_acquire null_call = null_call

abbrev pub perform_acquire_frame : System → System
perform_acquire_frame no_controller = null_call
perform_acquire_frame (alive s) = start_frame s
perform_acquire_frame terminated = terminated
perform_acquire_frame null_call = null_call

abbrev pub perform_stop : Bool → System → System
perform_stop terminate no_controller = no_controller
perform_stop terminate (alive s) = alive (stop_chain terminate s)
perform_stop terminate terminated = terminated
perform_stop terminate null_call = null_call

-- What a command does to the controller.
unfoldable pub perform : Command → System → System
unfolding fresh start_frame stop_chain
perform acquire x = perform_acquire x
perform acquire_frame x = perform_acquire_frame x
perform (stop terminate) x = perform_stop terminate x

-- What the threads may do between two commands. A turn ends with `hands_on` or `fails` when the card's
-- `acquire` comes back, which is the card's to decide: that it may end here does not say that it will.
pub data Move : Chain → Chain → Type 0 where
  begins :
      (s : Chain) → s.worker ≡ starting → Move s (record s { worker = running; state = acquiring })
  turns :
      (s : Chain)
      → s.worker ≡ running
      → s.should_stop ≡ false
      → Move s (record s { worker = turning })
  -- `notify`, at the end of a turn.
  hands_on :
      (s : Chain)
      → s.worker ≡ turning
      → Move s (record s {
        worker = running;
        handed = suc s.handed;
        lost = if s.subscriber_ended then suc s.lost else s.lost;
      })
  -- A turn that throws is the last one.
  fails : (s : Chain) → s.worker ≡ turning → Move s (record s { worker = closing; state = stopped })
  leaves :
      (s : Chain) → s.worker ≡ running → Move s (record s { worker = closing; state = stopped })
  returns : (s : Chain) → s.worker ≡ closing → Move s (record s { worker = ended })
  -- The subscriber's thread sees the promise, its queue empty.
  subscriber_ends :
      (s : Chain)
      → s.completed ≡ true
      → s.subscriber_ended ≡ false
      → Move s (record s { subscriber_ended = true })
  -- `notify_completed_and_wait` returns, and "finished acquire" is said.
  waited :
      (s : Chain)
      → s.control ≡ waiting
      → s.subscriber_ended ≡ true
      → Move s (record s { control = joining })
  joins :
      (s : Chain)
      → s.control ≡ joining
      → s.worker ≡ ended
      → Move s (record s { control = ready; worker = joined })
  joins_none :
      (s : Chain)
      → s.control ≡ joining
      → is_joinable s.worker ≡ false
      → Move s (record s { control = ready })

abbrev pub TakesCommand : System → Type 0
TakesCommand no_controller = Unit
TakesCommand (alive s) = s.control ≡ ready
TakesCommand terminated = ⊥
TakesCommand null_call = ⊥

-- The systems that commands lead to, the last command first.
pub data Reach : List Command → System → Type 0 where
  at_start : Reach [] no_controller
  moved :
      {commands : List Command} {s t : Chain}
      → Reach commands (alive s)
      → Move s t
      → Reach commands (alive t)
  commanded :
      {commands : List Command} {x : System} (c : Command)
      → Reach commands x
      → TakesCommand x
      → Reach (c ∷ commands) (perform c x)
