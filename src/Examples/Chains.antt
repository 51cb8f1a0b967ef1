-- ===== src/Examples/Chains.antt =====
-- Chains of an acquisition under a client's commands (AqMD3_console/src/acquirepublisher.cpp).
use aq_md3_acquisition_conso.Common.{◌≤◌, ◌≡◌, ◌≢◌, ◌⊎◌, refl, true, false, [], ◌∷◌, arith}
use aq_md3_acquisition_conso.Publish.{acquiring, stopped, unknown}
use aq_md3_acquisition_conso.Chain.{
  Chain, starting, running, joined, ready, waiting, joining, alive, terminated, null_call, acquire,
  stop, fresh, start_frame, stop_chain, perform, Reach, at_start, moved, commanded, begins, leaves,
  returns, joins, subscriber_ends,
}
use aq_md3_acquisition_conso.Chain.Polite.{IsPolite, IsStopped}
use aq_md3_acquisition_conso.Chain.Safety.{polite_survives}
use aq_md3_acquisition_conso.Chain.Return.{CanMove, AwaitsCard, none_yet, then_move, stop_returns}
use aq_md3_acquisition_conso.Chain.Kill.{Deadly, unstopped_frame_terminates}
use aq_md3_acquisition_conso.Chain.Loss.{Losing, ending_can_lose}

abbrev launched : Chain
launched = record {
  state = unknown;
  should_stop = false;
  worker = starting;
  control = ready;
  completed = false;
  subscriber_ended = false;
  handed = 0;
  lost = 0;
}

abbrev at_loop : Chain
at_loop = record launched { worker = running; state = acquiring }

abbrev told : Chain
told = record at_loop { should_stop = true; control = joining }

abbrev told_end : Chain
told_end = record at_loop { should_stop = true; completed = true; control = waiting }

abbrev waited_for : Chain
waited_for = record told_end { subscriber_ended = true }

abbrev over : Chain
over = record at_loop { should_stop = true; state = stopped; worker = joined }

to_launched : Reach (acquire ∷ []) (alive launched)
unfolding perform start_frame fresh
to_launched = commanded acquire at_start tt

to_loop : Reach (acquire ∷ []) (alive at_loop)
to_loop = moved to_launched (begins launched refl)

to_told_end : Reach (stop true ∷ acquire ∷ []) (alive told_end)
unfolding perform stop_chain
to_told_end = commanded (stop true) to_loop refl

to_told : Reach (stop false ∷ acquire ∷ []) (alive told)
unfolding perform stop_chain
to_told = commanded (stop false) to_loop refl

to_over : Reach (stop false ∷ acquire ∷ []) (alive over)
to_over = moved (moved (moved to_told (leaves _ refl)) (returns _ refl)) (joins _ refl refl)

over-IsPolite : IsPolite (stop false ∷ acquire ∷ [])
unfolding IsPolite IsStopped
over-IsPolite = (tt, tt)

polite_survives_example : (alive over ≢ terminated) × (alive over ≢ null_call)
polite_survives_example = polite_survives over-IsPolite to_over

told_end_busy : told_end.control ≢ ready
told_end_busy = ground arith

stop_returns_example :
    (1 ≤ 8) × ((waited_for.control ≡ ready) ⊎ CanMove waited_for ⊎ AwaitsCard waited_for)
stop_returns_example =
    stop_returns to_told_end told_end_busy (then_move none_yet (subscriber_ends told_end refl refl))

unstopped_frame_terminates_example : Deadly (acquire ∷ [])
unstopped_frame_terminates_example = unstopped_frame_terminates to_loop refl refl

ending_can_lose_example : Losing (acquire ∷ []) at_loop
ending_can_lose_example = ending_can_lose to_loop refl refl refl refl
