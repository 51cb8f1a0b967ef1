-- ===== src/Queue/Cascade.antt =====
-- The completion of a chain: Publisher::notify_completed_and_wait (AqMD3_console/include/publisher.h),
-- the threads' ends (AqMD3_console/include/subscriber.h) and ProcessSubject::on_completed
-- (AqMD3_console/include/processsubject.h). The publisher's thread, the subject's and those of the
-- subject's own subscribers interleave as steps.
pub mod Following
pub mod Complete
use aq_md3_acquisition_conso.Common.{
  ◌≡◌, Bool, true, false, List, [], ◌∷◌, map, push_back, All, if◌then◌else◌,
}
use aq_md3_acquisition_conso.Encode.{UimfAcquisitionRecord, UimfFrame, to_frame}
use aq_md3_acquisition_conso.Queue.{
  SubscriberType, Subscriber, setup, update, drain, notify_items, is_over, shares, frame_type,
  on_notify,
}

abbrev pub Registered : Type 0
Registered = SubscriberType × Subscriber UimfFrame

pub record Cascade : Type 0 where
  -- Registered with the acquisition publisher.
  pub subject : Subscriber UimfAcquisitionRecord
  -- The subject's thread has left its loop: it is in `on_completed`, or past it.
  pub completing : Bool
  -- Registered with the subject.
  pub subscribers : List Registered

abbrev pub stop_all : List Registered → List Registered
stop_all = map (λ (x : Registered). (x.0, record (x.1) { stop = true }))

-- A pass of a subscriber's thread by parts, and its end.
pub data ThreadStep {ℓ} {T : Type ℓ} : Subscriber T → Subscriber T → Type ℓ where
  drains : (s : Subscriber T) → s.completed ≡ false → ThreadStep s (drain s)
  notifies : (s : Subscriber T) → s.completed ≡ false → ThreadStep s (notify_items s)
  ends :
      (s : Subscriber T)
      → s.completed ≡ false
      → is_over s ≡ true
      → ThreadStep s (record s { completed = true })

-- One subscriber's thread moves.
pub data OneStep : List Registered → List Registered → Type 0 where
  here :
      {s t : Subscriber UimfFrame} (wanted : SubscriberType) (rest : List Registered)
      → ThreadStep s t
      → OneStep ((wanted, s) ∷ rest) ((wanted, t) ∷ rest)
  there : {xs ys : List Registered} (x : Registered) → OneStep xs ys → OneStep (x ∷ xs) (x ∷ ys)

abbrev pub start : List SubscriberType → Cascade
start wanted = record {
  subject = setup;
  completing = false;
  subscribers = map (λ w. (w, setup)) wanted;
}

-- What the threads lead to, with the records that were sent, and those of them that were sent before
-- the publisher's `notify_completed`.
pub data Reach : Cascade → List UimfAcquisitionRecord → List UimfAcquisitionRecord → Type 0 where
  fresh : (wanted : List SubscriberType) → Reach (start wanted) [] []
  sends :
      {c : Cascade} {sent before : List UimfAcquisitionRecord} (item : UimfAcquisitionRecord)
      → Reach c sent before
      → Reach
          (record c { subject = update item c.subject })
          (push_back sent item)
          (if c.subject.stop then before else push_back before item)
  signals :
      {c : Cascade} {sent before : List UimfAcquisitionRecord}
      → Reach c sent before
      → Reach (record c { subject = record (c.subject) { stop = true } }) sent before
  takes :
      {c : Cascade} {sent before : List UimfAcquisitionRecord}
      → c.completing ≡ false
      → Reach c sent before
      → Reach (record c { subject = drain c.subject }) sent before
  -- `on_notify` of the subject, one item at a time.
  handles :
      {c : Cascade} {sent before : List UimfAcquisitionRecord} (item : UimfAcquisitionRecord)
      (items : List UimfAcquisitionRecord)
      → c.completing ≡ false
      → c.subject.items ≡ item ∷ items
      → Reach c sent before
      → Reach
          (record c {
            subject = record (c.subject) {
              items = items;
              notified = push_back c.subject.notified item;
            };
            subscribers = on_notify item c.subscribers;
          })
          sent
          before
  -- The loop of the subject's thread ends, and `on_completed` sets the promise of its own subscribers.
  completes :
      {c : Cascade} {sent before : List UimfAcquisitionRecord}
      → c.completing ≡ false
      → is_over c.subject ≡ true
      → Reach c sent before
      → Reach (record c { completing = true; subscribers = stop_all c.subscribers }) sent before
  moves :
      {c : Cascade} {sent before : List UimfAcquisitionRecord} {ys : List Registered}
      → OneStep c.subscribers ys
      → Reach c sent before
      → Reach (record c { subscribers = ys }) sent before
  -- `on_completed` has waited for them all, and the subject's own promise is set, for which the
  -- publisher waits.
  finishes :
      {c : Cascade} {sent before : List UimfAcquisitionRecord}
      → c.completing ≡ true
      → All (λ (x : Registered). x.1.completed ≡ true) c.subscribers
      → Reach c sent before
      → Reach (record c { subject = record (c.subject) { completed = true } }) sent before
