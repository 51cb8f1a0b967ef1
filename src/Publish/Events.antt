-- ===== src/Publish/Events.antt =====
-- The events of one frame's acquisition, read as what they amount to
-- (AqMD3_console/src/acquirepublisher.cpp).
use aq_md3_acquisition_conso.Common.{
  ℕ, suc, ◌+◌, ◌≡◌, refl, ◌∙◌, Bool, true, false, Option, none, some, List, [], ◌∷◌, ◌++◌, length,
  append-nil, arith,
}
use aq_md3_acquisition_conso.Publish.{
  Event, notified, digitizer_start, digitizer_stop, status_error, status_error_data,
  status_finished, status_finished_acquire, subscribers_completed, worker_joined, Worked, returned,
  terminated, stuck, after_stop,
}
use aq_md3_acquisition_conso.Encode.{UimfFrameParameters, UimfAcquisitionRecord}

-- The records that `notify` was called with, in order.
unfoldable pub records : List Event → List UimfAcquisitionRecord
records [] = []
records (notified r ∷ events) = r ∷ records events
records (digitizer_start ∷ events) = records events
records (digitizer_stop ∷ events) = records events
records (status_error_data n ∷ events) = records events
records (status_error ∷ events) = records events
records (status_finished ∷ events) = records events
records (status_finished_acquire ∷ events) = records events
records (subscribers_completed ∷ events) = records events
records (worker_joined ∷ events) = records events

records-append :
    (events later : List Event) → records (events ++ later) ≡ records events ++ records later
unfolding records
records-append [] later = refl
records-append (event ∷ events) later = ground (arith, records-append events later)

-- What the thread did.
abbrev pub events_of : {S : Type 0} → Worked S → List Event
events_of (returned state s events) = events
events_of (terminated events) = events
events_of stuck = []

-- The end of the thread hands nothing on.
pub records_of_end :
    {S : Type 0} (events : List Event) (o : Option S)
    → records (events_of (after_stop (digitizer_start ∷ events) o)) ≡ records events
unfolding after_stop records
records_of_end events none =
    records-append events (digitizer_stop ∷ []) ∙ append-nil (records events)
records_of_end events (some s) =
    records-append events (digitizer_stop ∷ status_finished ∷ []) ∙ append-nil (records events)

-- The records handed on, in order, are of one frame, start at `from`, and follow each other without a
-- gap or an overlap up to `to`.
unfoldable pub Follow : UimfFrameParameters → ℕ → List UimfAcquisitionRecord → ℕ → Type 0
Follow parameters from [] to = from ≡ to
Follow parameters from (r ∷ rs) to =
    (r.parameters ≡ parameters)
    × ((r.start_scan_index ≡ from) × Follow parameters (from + length r.acquired.stamps) rs to)

-- The errors reported.
unfoldable pub errors : List Event → ℕ
errors [] = 0
errors (status_error ∷ events) = suc (errors events)
errors (status_error_data n ∷ events) = suc (errors events)
errors (notified r ∷ events) = errors events
errors (digitizer_start ∷ events) = errors events
errors (digitizer_stop ∷ events) = errors events
errors (status_finished ∷ events) = errors events
errors (status_finished_acquire ∷ events) = errors events
errors (subscribers_completed ∷ events) = errors events
errors (worker_joined ∷ events) = errors events

abbrev pub count : Bool → ℕ
count false = 0
count true = 1
