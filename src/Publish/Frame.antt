-- ===== src/Publish/Frame.antt =====
-- What one frame's acquisition does (AqMD3_console/src/acquirepublisher.cpp).
use aq_md3_acquisition_conso.Common.{
  ℕ, suc, ◌≤◌, ◌<◌, ◌≡◌, ◌⊎◌, inl, inr, refl, Bool, true, false, ◌||◌, some, List, [], ◌∷◌, arith,
}
use aq_md3_acquisition_conso.Encode.{UimfFrameParameters}
use aq_md3_acquisition_conso.Publish.{
  Context, Event, digitizer_start, Loop, ended, hung, out_of_fuel, acquire_loop, Worked, stuck,
  after_stop, finish, after_start, after_query, work,
}
use aq_md3_acquisition_conso.Publish.Events.{records, Follow, errors, count}
use aq_md3_acquisition_conso.Publish.Turns.{Delivers, Done, loop-Done}

-- What the thread has done when it comes to the end of a frame.
pub record IsFrame {S : Type 0} (c : Context S) (parameters : UimfFrameParameters)
    (worked : Worked S) : Type 0 where
  pub scans : ℕ
  pub has_errored : Bool
  pub world : S
  pub events : List Event
  pub ends : worked ≡ after_stop (digitizer_start ∷ events) (c.stop world)
  pub followed : Follow parameters 0 (records events) scans
  pub no_more : scans ≤ parameters.frame_length
  pub reported : errors events ≡ count has_errored
  pub all_acquired : (scans ≡ parameters.frame_length) ⊎ (has_errored || c.should_stop world) ≡ true

module _ {S : Type 0} (c : Context S) (segment_size : ℕ) (parameters : UimfFrameParameters)
    (H : Type 0) (some_size : 0 < segment_size)
    (delivers : (n : ℕ) (s : S) → Delivers H n (c.acquire n s)) where
  of_loop :
      (loop : Loop S)
      → Done c segment_size parameters H some_size delivers 0 false loop
      → ((finish c (digitizer_start ∷ []) loop ≡ stuck) × H)
        ⊎ IsFrame c parameters (finish c (digitizer_start ∷ []) loop)
  of_loop (ended scans has_errored s events) h = inr (record {
    scans = scans;
    has_errored = has_errored;
    world = s;
    events = events;
    ends = refl;
    followed = h.0;
    no_more = h.1.0;
    reported = omega (arith, h.1.1.0);
    all_acquired = h.1.1.1;
  })
  of_loop (hung events) h = inl (refl, h)
  of_loop out_of_fuel h = absurd h

  -- A frame's thread comes to the call of the digitizer's `stop`, and says "finished" unless that
  -- throws: the records it handed on are the frame's, follow each other from scan 0 without a gap,
  -- never beyond the frame's length, and reach it unless the frame was stopped or failed; a failure
  -- is reported once.
  -- The digitizer must be idle at first and start without an error, the segment size be positive,
  -- every `acquire` return the triggers asked for, throw, or, given `H`, hang, and the fuel be two
  -- above the frame's length. The thread is stuck only if `H` holds.
  pub work-Frame :
      (fuel : ℕ) (s idle started : S)
      → suc parameters.frame_length < fuel
      → c.get_is_acquiring s ≡ some (false, idle)
      → c.start idle ≡ some started
      → ((work c segment_size fuel parameters s ≡ stuck) × H)
        ⊎ IsFrame c parameters (work c segment_size fuel parameters s)
  unfolding work after_query after_start
  work-Frame fuel s idle started h e e' =
      rw (e, e')
        (of_loop (acquire_loop c segment_size parameters fuel 0 false started) (
          loop-Done c segment_size parameters H some_size delivers fuel 0 false started
            (omega arith) (omega arith)))
