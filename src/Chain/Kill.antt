-- ===== src/Chain/Kill.antt =====
-- The frames that end the process (AqMD3_console/src/acquirepublisher.cpp): the handle of a thread that
-- has come to its end and was not joined is destroyed by the next start.
use aq_md3_acquisition_conso.Common.{◌≡◌, refl, ap, inr, true, List, arith}
use aq_md3_acquisition_conso.Chain.{
  Chain, Worker, no_worker, starting, running, turning, closing, ended, joined, ready, alive,
  terminated, Command, acquire, acquire_frame, start_frame, perform, is_joinable, begins, fails,
  leaves, returns, Reach, moved,
}
use aq_md3_acquisition_conso.Chain.Return.{Reach-InStep}

-- A system that the threads reach by themselves, before the next command.
abbrev pub IsDeadly : List Command → Chain → Type 0
IsDeadly commands t =
    Reach commands (alive t)
    × (t.control ≡ ready)
    × (t.worker ≡ ended)
    × (perform acquire_frame (alive t) ≡ terminated)
    × (perform acquire (alive t) ≡ terminated)

ended-IsDeadly :
    {commands : List Command} (s : Chain)
    → Reach commands (alive s)
    → s.control ≡ ready
    → s.worker ≡ ended
    → IsDeadly commands s
unfolding perform start_frame
ended-IsDeadly s r e v =
    let h = Reach-InStep r in
    let quiet = h.past (inr v) in
    (r, e, v, ground (arith, ap is_joinable v), ground (arith, ap is_joinable v))

abbrev pub Deadly : List Command → Type 0
Deadly commands = (t : Chain) × IsDeadly commands t

closing-Deadly :
    {commands : List Command} (s : Chain)
    → Reach commands (alive s)
    → s.control ≡ ready
    → s.worker ≡ closing
    → Deadly commands
closing-Deadly s r e v = (_, ended-IsDeadly _ (moved r (returns s v)) e refl)

running-Deadly :
    {commands : List Command} (s : Chain)
    → Reach commands (alive s)
    → s.control ≡ ready
    → s.worker ≡ running
    → Deadly commands
running-Deadly s r e v = closing-Deadly _ (moved r (leaves s v)) e refl

worker-Deadly :
    {commands : List Command} (s : Chain)
    → Reach commands (alive s)
    → s.control ≡ ready
    → is_joinable s.worker ≡ true
    → (w : Worker) → s.worker ≡ w
    → Deadly commands
worker-Deadly s r e j no_worker v = ground (arith, ap is_joinable v)
worker-Deadly s r e j starting v = running-Deadly _ (moved r (begins s v)) e refl
worker-Deadly s r e j running v = running-Deadly s r e v
worker-Deadly s r e j turning v = closing-Deadly _ (moved r (fails s v)) e refl
worker-Deadly s r e j closing v = closing-Deadly s r e v
worker-Deadly s r e j ended v = (s, ended-IsDeadly s r e v)
worker-Deadly s r e j joined v = ground (arith, ap is_joinable v)

-- From any system in which a frame was started and not joined, and whose console takes commands, the
-- threads alone lead to one whose thread has ended, so that "finished" was said, and in which the next
-- "acquire frame", or "acquire", terminates the process.
pub unstopped_frame_terminates :
    {commands : List Command} {s : Chain}
    → Reach commands (alive s)
    → s.control ≡ ready
    → is_joinable s.worker ≡ true
    → Deadly commands
unstopped_frame_terminates {commands} {s} r e j = worker-Deadly s r e j s.worker refl
