-- ===== src/Chain/Return.antt =====
-- What a stop waits for (AqMD3_console/src/acquirepublisher.cpp, AqMD3_console/include/publisher.h).
use aq_md3_acquisition_conso.Common.{
  inl, inr, ℕ, suc, ◌+◌, ◌<◌, ◌≤◌, refl, ap, ◌∙◌, ◌≡◌, ◌≢◌, ◌⊎◌, Bool, true, false, List,
  if◌then◌else◌, arith,
}
use aq_md3_acquisition_conso.Chain.{
  Chain, Worker, no_worker, starting, running, turning, closing, ended, joined, Control, ready,
  waiting, joining, System, no_controller, alive, terminated, null_call, Command, acquire,
  acquire_frame, stop, fresh, start_frame, stop_chain, perform, is_joinable, is_acquiring, Move,
  begins, turns, hands_on, fails, leaves, returns, subscriber_ends, waited, joins, joins_none,
  TakesCommand, Reach, at_start, moved, commanded,
}

abbrev worker_rank : Worker → ℕ
worker_rank no_worker = 0
worker_rank starting = 5
worker_rank running = 3
worker_rank turning = 4
worker_rank closing = 2
worker_rank ended = 1
worker_rank joined = 0

abbrev control_rank : Control → ℕ
control_rank ready = 0
control_rank waiting = 2
control_rank joining = 1

-- The moves that a chain told to stop has left, at most.
unfoldable pub rank : Chain → ℕ
rank s = worker_rank s.worker + control_rank s.control + (if s.subscriber_ended then 0 else 1)

pub record IsInStep (s : Chain) : Type 0 where
  pub past : (s.worker ≡ closing) ⊎ (s.worker ≡ ended) → is_acquiring s.state ≡ false
  pub told : s.control ≢ ready → s.should_stop ≡ true
  pub promised : s.control ≡ waiting → s.completed ≡ true

abbrev pub InStep : System → Type 0
InStep no_controller = Unit
InStep (alive s) = IsInStep s
InStep terminated = Unit
InStep null_call = Unit

Move-IsInStep : {s t : Chain} → Move s t → IsInStep s → IsInStep t
Move-IsInStep (begins s e) h = ground arith
Move-IsInStep (turns s e e') h = ground arith
Move-IsInStep (hands_on s e) h = ground arith
Move-IsInStep (fails s e) h = ground arith
Move-IsInStep (leaves s e) h = ground arith
Move-IsInStep (returns s e) h = ground arith
Move-IsInStep (subscriber_ends s e e') h = ground arith
Move-IsInStep (waited s e e') h = ground arith
Move-IsInStep (joins s e e') h = ground arith
Move-IsInStep (joins_none s e e') h = ground arith

perform-InStep : (c : Command) (x : System) → TakesCommand x → InStep x → InStep (perform c x)
unfolding perform start_frame stop_chain fresh
perform-InStep acquire no_controller takes h = ground arith
perform-InStep acquire (alive s) takes h = ground arith
perform-InStep acquire_frame no_controller takes h = tt
perform-InStep acquire_frame (alive s) takes h = ground arith
perform-InStep (stop terminate) no_controller takes h = tt
perform-InStep (stop false) (alive s) takes h = ground arith
perform-InStep (stop true) (alive s) takes h = ground arith
perform-InStep c terminated takes h = absurd takes
perform-InStep c null_call takes h = absurd takes

pub Reach-InStep : {commands : List Command} {x : System} → Reach commands x → InStep x
Reach-InStep at_start = tt
Reach-InStep (moved r m) = Move-IsInStep m (Reach-InStep r)
Reach-InStep (commanded {commands} {x} c r takes) = perform-InStep c x takes (Reach-InStep r)

Move-rank : {s t : Chain} → Move s t → s.should_stop ≡ true → rank t < rank s
unfolding rank
Move-rank (begins s e) h = ground arith
Move-rank (turns s e e') h = ground arith
Move-rank (hands_on s e) h = ground arith
Move-rank (fails s e) h = ground arith
Move-rank (leaves s e) h = ground arith
Move-rank (returns s e) h = ground arith
Move-rank (subscriber_ends s e e') h = ground arith
Move-rank (waited s e e') h = ground arith
Move-rank (joins s e e') h = ground arith
Move-rank (joins_none s e e') h = ground arith

worker_rank_le : (w : Worker) → worker_rank w ≤ 5
worker_rank_le no_worker = ground arith
worker_rank_le starting = ground arith
worker_rank_le running = ground arith
worker_rank_le turning = ground arith
worker_rank_le closing = ground arith
worker_rank_le ended = ground arith
worker_rank_le joined = ground arith

control_rank_le : (c : Control) → control_rank c ≤ 2
control_rank_le ready = ground arith
control_rank_le waiting = ground arith
control_rank_le joining = ground arith

rank_le : (s : Chain) → rank s ≤ 8
unfolding rank
rank_le s = ground (arith, worker_rank_le s.worker, control_rank_le s.control)

Move-should_stop : {s t : Chain} → Move s t → t.should_stop ≡ s.should_stop
Move-should_stop (begins s e) = refl
Move-should_stop (turns s e e') = refl
Move-should_stop (hands_on s e) = refl
Move-should_stop (fails s e) = refl
Move-should_stop (leaves s e) = refl
Move-should_stop (returns s e) = refl
Move-should_stop (subscriber_ends s e e') = refl
Move-should_stop (waited s e e') = refl
Move-should_stop (joins s e e') = refl
Move-should_stop (joins_none s e e') = refl

-- The moves of the console's own threads. The end of a turn is the card's.
abbrev pub IsOwn : {s t : Chain} → Move s t → Type 0
IsOwn (begins s e) = Unit
IsOwn (turns s e e') = Unit
IsOwn (hands_on s e) = ⊥
IsOwn (fails s e) = ⊥
IsOwn (leaves s e) = Unit
IsOwn (returns s e) = Unit
IsOwn (subscriber_ends s e e') = Unit
IsOwn (waited s e e') = Unit
IsOwn (joins s e e') = Unit
IsOwn (joins_none s e e') = Unit

abbrev pub CanMove : Chain → Type 0
CanMove s = (t : Chain) × (m : Move s t) × IsOwn m

-- The command thread joins a thread that is within a turn, for as long as the card's `acquire` is.
abbrev pub AwaitsCard : Chain → Type 0
AwaitsCard s = (s.control ≡ joining) × (s.worker ≡ turning)

joining_moves :
    (s : Chain) → s.control ≡ joining → (w : Worker) → s.worker ≡ w → CanMove s ⊎ AwaitsCard s
joining_moves s e no_worker v = inl (_, joins_none s e (ap is_joinable v), tt)
joining_moves s e starting v = inl (_, begins s v, tt)
joining_moves s e running v = inl (_, leaves s v, tt)
joining_moves s e turning v = inr (e, v)
joining_moves s e closing v = inl (_, returns s v, tt)
joining_moves s e ended v = inl (_, joins s e v, tt)
joining_moves s e joined v = inl (_, joins_none s e (ap is_joinable v), tt)

waiting_moves :
    (s : Chain) → IsInStep s → s.control ≡ waiting → (b : Bool) → s.subscriber_ended ≡ b → CanMove s
waiting_moves s h e true v = (_, waited s e v, tt)
waiting_moves s h e false v = (_, subscriber_ends s (h.promised e) v, tt)

ready_or_moves :
    (s : Chain)
    → IsInStep s
    → (c : Control) → s.control ≡ c
    → (s.control ≡ ready) ⊎ CanMove s ⊎ AwaitsCard s
ready_or_moves s h ready e = inl e
ready_or_moves s h waiting e = inr (inl (waiting_moves s h e s.subscriber_ended refl))
ready_or_moves s h joining e = inr (joining_moves s e s.worker refl)

-- Runs of the threads, with the number of their moves.
pub data Moves : ℕ → Chain → Chain → Type 0 where
  none_yet : {s : Chain} → Moves 0 s s
  then_move : {n : ℕ} {s t u : Chain} → Moves n s t → Move t u → Moves (suc n) s u

Moves-Reach :
    {commands : List Command} {n : ℕ} {s t : Chain}
    → Moves n s t
    → Reach commands (alive s)
    → Reach commands (alive t)
Moves-Reach none_yet r = r
Moves-Reach (then_move ms m) r = moved (Moves-Reach ms r) m

Moves-rank :
    {n : ℕ} {s t : Chain}
    → Moves n s t
    → s.should_stop ≡ true
    → (n + rank t ≤ rank s) × (t.should_stop ≡ true)
Moves-rank none_yet told = (ground arith, told)
Moves-rank (then_move ms m) told =
    let before = Moves-rank ms told in
    let fewer = Move-rank m before.1 in (ground arith, Move-should_stop m ∙ before.1)

-- Whichever commands came before, only the card can keep a stop from coming back: from a chain whose
-- command still waits or joins, no run of the threads has more than 8 moves, and each run has come to
-- where the console takes commands again, or a thread of the console can move on by itself, or the stop
-- joins the acquisition thread while the card's `acquire` has not come back.
pub stop_returns :
    {commands : List Command} {s t : Chain} {n : ℕ}
    → Reach commands (alive s)
    → s.control ≢ ready
    → Moves n s t
    → (n ≤ 8) × ((t.control ≡ ready) ⊎ CanMove t ⊎ AwaitsCard t)
stop_returns {commands} {s} {t} {n} r busy ms =
    let told = (Reach-InStep r).told busy in
    let counted = (Moves-rank ms told).0 in
    let small = rank_le s in
    (
      omega (arith, counted, small),
      ready_or_moves t (Reach-InStep (Moves-Reach ms r)) t.control refl,
    )
