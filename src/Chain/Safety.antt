-- ===== src/Chain/Safety.antt =====
-- What a polite client is promised (AqMD3_console/src/aqmd3_console.cpp,
-- AqMD3_console/src/acquirepublisher.cpp).
use aq_md3_acquisition_conso.Common.{◌≡◌, ◌≢◌, refl, ◌⊎◌, refl, true, false, List, ◌∷◌, arith}
use aq_md3_acquisition_conso.Chain.{
  Chain, running, turning, ready, System, no_controller, alive, terminated, null_call, Command,
  acquire, acquire_frame, stop, fresh, launch, start_frame, stop_chain, perform, is_joinable,
  is_acquiring, Move, begins, turns, hands_on, fails, leaves, returns, subscriber_ends, waited,
  joins, joins_none, TakesCommand, Reach, at_start, moved, commanded,
}
use aq_md3_acquisition_conso.Chain.Polite.{HasChain, IsOpen, IsStopped, IsPolite}

pub record IsSound (commands : List Command) (s : Chain) : Type 0 where
  pub there : HasChain commands
  pub acquires : is_acquiring s.state ≡ true → (s.worker ≡ running) ⊎ (s.worker ≡ turning)
  pub quiet : s.control ≡ ready → IsStopped commands → is_joinable s.worker ≡ false
  pub unfinished : IsOpen commands → s.completed ≡ false

abbrev pub Sound : List Command → System → Type 0
Sound commands no_controller = ¬ HasChain commands
Sound commands (alive s) = IsSound commands s
Sound commands terminated = ⊥
Sound commands null_call = ⊥

Move-IsSound :
    {commands : List Command} {s t : Chain} → Move s t → IsSound commands s → IsSound commands t
Move-IsSound (begins s e) h = ground arith
Move-IsSound (turns s e e') h = ground arith
Move-IsSound (fails s e) h = ground arith
Move-IsSound (hands_on s e) h = ground arith
Move-IsSound (leaves s e) h = ground arith
Move-IsSound (returns s e) h = ground arith
Move-IsSound (subscriber_ends s e e') h = ground arith
Move-IsSound (waited s e e') h = ground arith
Move-IsSound (joins s e e') h = ground arith
Move-IsSound (joins_none s e e') h = ground arith

earlier : (c : Command) (commands : List Command) → IsPolite (c ∷ commands) → IsPolite commands
unfolding IsPolite
earlier acquire commands polite = polite.1
earlier acquire_frame commands polite = polite.1.1
earlier (stop terminate) commands polite = polite

perform-Sound :
    (c : Command) (commands : List Command) (x : System)
    → TakesCommand x
    → IsPolite (c ∷ commands)
    → Sound commands x
    → Sound (c ∷ commands) (perform c x)
unfolding perform start_frame stop_chain fresh HasChain IsOpen IsStopped IsPolite
perform-Sound acquire commands no_controller takes polite h = ground arith
perform-Sound acquire commands (alive s) takes polite h = ground arith
perform-Sound acquire_frame commands no_controller takes polite h = absurd (h polite.1.0)
perform-Sound acquire_frame commands (alive s) takes polite h = ground arith
perform-Sound (stop false) commands no_controller takes polite h = h
perform-Sound (stop true) commands no_controller takes polite h = h
perform-Sound (stop false) commands (alive s) takes polite h = ground arith
perform-Sound (stop true) commands (alive s) takes polite h = ground arith
perform-Sound c commands terminated takes polite h = absurd h
perform-Sound c commands null_call takes polite h = absurd h

Reach-Sound :
    {commands : List Command} {x : System} → IsPolite commands → Reach commands x → Sound commands x
unfolding HasChain IsPolite
Reach-Sound polite at_start = λ h. h
Reach-Sound polite (moved r m) = Move-IsSound m (Reach-Sound polite r)
Reach-Sound polite (commanded {commands} {x} c r takes) =
    perform-Sound c commands x takes polite (Reach-Sound (earlier c commands polite) r)

Sound-NotEnded :
    (commands : List Command) (x : System) → Sound commands x → (x ≢ terminated) × (x ≢ null_call)
Sound-NotEnded commands no_controller h = ground arith
Sound-NotEnded commands (alive t) h = ground arith
Sound-NotEnded commands terminated h = absurd h
Sound-NotEnded commands null_call h = absurd h

-- Under a client that stops each start before the next, and makes a chain before its first frame, no
-- interleaving of the threads terminates the process by a thread that was not joined, or calls a null
-- controller.
pub polite_survives :
    {commands : List Command} {x : System}
    → IsPolite commands
    → Reach commands x
    → (x ≢ terminated) × (x ≢ null_call)
polite_survives {commands} {x} polite r = Sound-NotEnded commands x (Reach-Sound polite r)

-- The chain of a system whose next frame starts a thread of its own.
abbrev pub Started : System → Type 0
Started x = (s : Chain) × (x ≡ alive s) × (perform acquire_frame x ≡ alive (launch s))

Sound-Started :
    (commands : List Command) (x : System)
    → IsPolite (acquire_frame ∷ commands)
    → TakesCommand x
    → Sound commands x
    → Started x
unfolding perform start_frame IsPolite HasChain IsStopped
Sound-Started commands no_controller polite takes h = absurd (h polite.1.0)
Sound-Started commands (alive s) polite takes h = (s, refl, ground arith)
Sound-Started commands terminated polite takes h = absurd h
Sound-Started commands null_call polite takes h = absurd h

-- A frame that such a client asks for, when the console takes commands, is not refused: it finds a chain
-- and starts a thread for the frame, whatever the threads did before.
pub polite_frame_starts :
    {commands : List Command} {x : System}
    → IsPolite (acquire_frame ∷ commands)
    → Reach commands x
    → TakesCommand x
    → Started x
polite_frame_starts {commands} {x} polite r takes =
    Sound-Started commands x polite takes (Reach-Sound (earlier acquire_frame commands polite) r)
