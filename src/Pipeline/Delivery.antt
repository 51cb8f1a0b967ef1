-- ===== src/Pipeline/Delivery.antt =====
-- A frame on its way from the card to a subscriber of frames: the acquisition thread, the subject and
-- the subscriber's queue (AqMD3_console/src/acquirepublisher.cpp,
-- AqMD3_console/src/processsubject.cpp, AqMD3_console/include/subscriber.h).
use aq_md3_acquisition_conso.Common.{
  ℕ, suc, ◌-◌, ◌^◌, ◌≤◌, ◌<◌, ◌≡◌, ◌⊎◌, inl, inr, sym, ap, subst, ◌∙◌, Bool, true, false, some,
  List, All, arith,
}
use aq_md3_acquisition_conso.Stream.{AcquiredData, Failure}
use aq_md3_acquisition_conso.Card.{Driver}
use aq_md3_acquisition_conso.Pool.{AcquisitionBufferPool, get_buffer}
use aq_md3_acquisition_conso.Zs1.{Zs1Context}
use aq_md3_acquisition_conso.Zs1.Acquire.{Outcome, returned, threw, waiting}
use aq_md3_acquisition_conso.Zs1.Acquire
use aq_md3_acquisition_conso.Zs1.Counts.{acquire-Delivers}
use aq_md3_acquisition_conso.Zs1.Counts
use aq_md3_acquisition_conso.Encode.{UimfFrameParameters, UimfAcquisitionRecord, UimfFrame}
use aq_md3_acquisition_conso.Publish.{Worked, returned, stuck, work}
use aq_md3_acquisition_conso.Publish.Events.{records, events_of, records_of_end}
use aq_md3_acquisition_conso.Publish.Turns.{Delivers}
use aq_md3_acquisition_conso.Publish.Frame.{IsFrame, work-Frame}
use aq_md3_acquisition_conso.Queue.{Subscriber, SubscriberType, Reach, is_over, shares, frame_type}
use aq_md3_acquisition_conso.Queue.Order.{over-Notified}
use aq_md3_acquisition_conso.Pipeline.{
  Machine, next_turn, buffer_of, caught, answered, acquire, zs1,
}
use aq_md3_acquisition_conso.Pipeline.Rows.{
  count_from, scans, rows, forwarded, forwarded-scans, forwarded-parameters,
}

caught-Delivers : {S : Type 0} (n : ℕ) (e : Failure) (s : S) → Delivers Unit n (caught e, s)
unfolding caught
caught-Delivers n e s = ground arith

answered-Delivers :
    {D : Type 0} (m : Machine D) (n index : ℕ) (p : AcquisitionBufferPool)
    (o : Outcome (AcquiredData × Zs1Context))
    → Counts.Delivers n o
    → Delivers Unit n (answered m index p o)
unfolding answered
answered-Delivers m n index p (returned (d, c) fs) h = h
answered-Delivers m n index p (threw e c) h = caught-Delivers n e _
answered-Delivers m n index p waiting h = tt

zs1-Delivers :
    {R D : Type 0} (driver : Driver R D) (use_timeout : Bool) (n : ℕ) (m : Machine D)
    → Delivers Unit n ((zs1 driver use_timeout).acquire n m)
unfolding zs1 acquire
zs1-Delivers driver use_timeout n m =
    let m' = next_turn m.turns m in
    let (p, index) = get_buffer m'.buffer_pool in
    answered-Delivers m' n index p
      (Acquire.acquire n use_timeout m'.fetches (buffer_of p index) m'.context)
      (acquire-Delivers n use_timeout m'.fetches (buffer_of p index) m'.context)

module _ {R D : Type 0} (driver : Driver R D) (use_timeout : Bool) (segment_size fuel : ℕ)
    (parameters : UimfFrameParameters) (m : Machine D) where
  -- What the thread of the frame comes to.
  abbrev pub worked : Worked (Machine D)
  worked = work (zs1 driver use_timeout) segment_size fuel parameters m

  -- How the frame arrives at a subscriber that was notified of some frames.
  abbrev pub Arrives : List UimfFrame → Type 0
  Arrives notified =
      (worked ≡ stuck)
      ⊎ ((frame : IsFrame (zs1 driver use_timeout) parameters worked) × (scans (rows notified)
            ≡ count_from 0 frame.scans)
          × All (λ (f : UimfFrame). f.parameters ≡ parameters) notified)

  -- What the acquisition thread of a frame handed on, once the subject has passed it to a subscriber
  -- of frames and both threads may end, is the frame's scans from 0 on, each once and in order, under
  -- the frame's parameters: as many as the thread counted, whatever the driver answers, however the threads interleave, and
  -- whether the frame was whole, stopped or failed. The digitizer must be idle at first and start,
  -- the subscriber be of a type that gets the frame, the segment size be positive, the frame be of
  -- 2 ^ 31 scans at most, and the fuel be two above its length. Or the thread is stuck, where the
  -- fetch answers end.
  pub worked-Arrives :
      (idle started : Machine D) (subject : Subscriber UimfAcquisitionRecord)
      (wanted : SubscriberType) (client : Subscriber UimfFrame)
      → 0 < segment_size
      → suc parameters.frame_length < fuel
      → parameters.frame_length ≤ 2 ^ 31
      → (zs1 driver use_timeout).get_is_acquiring m ≡ some (false, idle)
      → (zs1 driver use_timeout).start idle ≡ some started
      → shares (frame_type parameters) wanted ≡ true
      → Reach subject (records (events_of worked))
      → is_over subject ≡ true
      → Reach client (forwarded wanted subject.notified)
      → is_over client ≡ true
      → Arrives client.notified
  worked-Arrives idle started subject wanted client some_size enough short is_idle starts gets reach
        over reach' over' =
      go (
        work-Frame (zs1 driver use_timeout) segment_size parameters Unit some_size
          (zs1-Delivers driver use_timeout) fuel m idle started enough is_idle starts)
    where
      go :
          ((worked ≡ stuck) × Unit {0}) ⊎ IsFrame (zs1 driver use_timeout) parameters worked
          → Arrives client.notified
      go (inl e) = inl e.0
      go (inr frame) =
          let handed : subject.notified ≡ records frame.events =
            over-Notified subject (records (events_of worked)) reach over
            ∙ ap (λ (w : Worked (Machine D)). records (events_of w)) frame.ends
            ∙ records_of_end frame.events ((zs1 driver use_timeout).stop frame.world) in
          let whole : frame.scans - 0 ≡ frame.scans = omega arith in
          inr (
            frame,
            ap (λ fs. scans (rows fs))
                  (over-Notified client (forwarded wanted subject.notified) reach' over')
                ∙ ap (λ rs. scans (rows (forwarded wanted rs))) handed
                ∙ (forwarded-scans parameters wanted 0 (records frame.events) frame.scans gets
                    frame.followed (omega (arith, frame.no_more))).1
                ∙ ap (count_from 0) whole,
            subst (All (λ (f : UimfFrame). f.parameters ≡ parameters))
                (sym (
                  over-Notified client (forwarded wanted subject.notified) reach' over'
                  ∙ ap (forwarded wanted) handed))
                (forwarded-parameters parameters wanted 0 (records frame.events) frame.scans
                  frame.followed),
          )
