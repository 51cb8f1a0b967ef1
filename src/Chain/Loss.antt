-- ===== src/Chain/Loss.antt =====
-- What the end of a chain loses (AqMD3_console/src/acquirepublisher.cpp,
-- AqMD3_console/include/publisher.h, AqMD3_console/include/subscriber.h).
use aq_md3_acquisition_conso.Common.{suc, ◌≡◌, refl, subst, true, false, List, ◌∷◌, arith}
use aq_md3_acquisition_conso.Chain.{
  Chain, running, turning, waiting, ready, System, no_controller, alive, terminated, null_call,
  Command, acquire, acquire_frame, stop, fresh, start_frame, stop_chain, perform, Move, begins,
  turns, hands_on, fails, leaves, returns, subscriber_ends, waited, joins, joins_none, Reach,
  at_start, moved, commanded,
}
use aq_md3_acquisition_conso.Chain.Polite.{IsOpen}

record IsHeld (commands : List Command) (s : Chain) : Type 0 where
  unfinished : IsOpen commands → s.completed ≡ false
  attended : s.completed ≡ false → s.subscriber_ended ≡ false
  none_lost : s.completed ≡ false → s.lost ≡ 0

abbrev Held : List Command → System → Type 0
Held commands no_controller = Unit
Held commands (alive s) = IsHeld commands s
Held commands terminated = Unit
Held commands null_call = Unit

Move-IsHeld :
    {commands : List Command} {s t : Chain} → Move s t → IsHeld commands s → IsHeld commands t
Move-IsHeld (begins s e) h = ground arith
Move-IsHeld (turns s e e') h = ground arith
Move-IsHeld (hands_on s e) h = ground arith
Move-IsHeld (fails s e) h = ground arith
Move-IsHeld (leaves s e) h = ground arith
Move-IsHeld (returns s e) h = ground arith
Move-IsHeld (subscriber_ends s e e') h = ground arith
Move-IsHeld (waited s e e') h = ground arith
Move-IsHeld (joins s e e') h = ground arith
Move-IsHeld (joins_none s e e') h = ground arith

perform-Held :
    (c : Command) (commands : List Command) (x : System)
    → Held commands x
    → Held (c ∷ commands) (perform c x)
unfolding perform start_frame stop_chain fresh IsOpen
perform-Held acquire commands no_controller h = ground arith
perform-Held acquire commands (alive s) h = ground arith
perform-Held acquire_frame commands no_controller h = tt
perform-Held acquire_frame commands (alive s) h = ground arith
perform-Held (stop terminate) commands no_controller h = tt
perform-Held (stop false) commands (alive s) h = ground arith
perform-Held (stop true) commands (alive s) h = ground arith
perform-Held acquire commands terminated h = tt
perform-Held acquire_frame commands terminated h = tt
perform-Held (stop terminate) commands terminated h = tt
perform-Held acquire commands null_call h = tt
perform-Held acquire_frame commands null_call h = tt
perform-Held (stop terminate) commands null_call h = tt

Reach-Held : {commands : List Command} {x : System} → Reach commands x → Held commands x
Reach-Held at_start = tt
Reach-Held (moved r m) = Move-IsHeld m (Reach-Held r)
Reach-Held (commanded {commands} {x} c r takes) = perform-Held c commands x (Reach-Held r)

-- What one `stop` of a running chain may come to: it is the last command, and one record more is lost.
abbrev pub Losing : List Command → Chain → Type 0
Losing commands s = (t : Chain) × Reach (stop true ∷ commands) (alive t) × (t.lost ≡ suc s.lost)

abbrev told_turning : Chain → Chain
told_turning s = record s {
  worker = turning;
  should_stop = true;
  completed = true;
  control = waiting;
}

ends_turning :
    (s : Chain)
    → s.completed ≡ false
    → perform (stop true) (alive (record s { worker = turning })) ≡ alive (told_turning s)
unfolding perform stop_chain
ends_turning s unended = ground arith

-- Until a chain is ended no record is handed to a subscriber that has come to its end.
pub unended_loses_none :
    {commands : List Command} {s : Chain} → IsOpen commands → Reach commands (alive s) → s.lost ≡ 0
unended_loses_none unended r = let h = Reach-Held r in h.none_lost (h.unfinished unended)

-- From every system whose console takes commands while a frame runs, in a chain that was not ended, the
-- "stop" that ends the chain may lose a record: the subscriber is told to end and is waited for while
-- the thread is in its turn, and the record of that turn comes after.
pub ending_can_lose :
    {commands : List Command} {s : Chain}
    → Reach commands (alive s)
    → s.control ≡ ready
    → s.worker ≡ running
    → s.should_stop ≡ false
    → s.completed ≡ false
    → Losing commands s
ending_can_lose {commands} {s} r e v going unended =
    let h = Reach-Held (moved r (turns s v going)) in
    let told =
      subst (λ x. Reach (stop true ∷ commands) x) (ends_turning s unended)
        (commanded (stop true) (moved r (turns s v going)) e) in
    (_, moved (moved told (subscriber_ends _ refl (h.attended unended))) (hands_on _ refl), refl)
