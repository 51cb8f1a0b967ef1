-- ===== src/Queue/Cascade/Following.antt =====
-- What a subscriber of the subject was notified of (AqMD3_console/include/subscriber.h,
-- AqMD3_console/src/processsubject.cpp).
use aq_md3_acquisition_conso.Common.{
  ◌≡◌, refl, sym, ap, ◌∙◌, Bool, true, false, List, [], ◌∷◌, ◌++◌, push_back, All, append_assoc,
  if◌then◌else◌, arith,
}
use aq_md3_acquisition_conso.Encode.{UimfAcquisitionRecord, UimfFrame, to_frame}
use aq_md3_acquisition_conso.Queue.{
  SubscriberType, Subscriber, update, drain, notify_items, is_over, shares, frame_type, notify,
  on_notify,
}
use aq_md3_acquisition_conso.Queue.Order.{move_items-append, nothing_left}
use aq_md3_acquisition_conso.Queue.Cascade.{
  Registered, stop_all, ThreadStep, drains, notifies, ends, OneStep, here, there,
}

abbrev is_for : SubscriberType → UimfAcquisitionRecord → Bool
is_for wanted r = shares (frame_type (to_frame r).parameters) wanted

-- The frames of the records that a subscriber wants, in order.
unfoldable pub frames_for : SubscriberType → List UimfAcquisitionRecord → List UimfFrame
frames_for wanted [] = []
frames_for wanted (r ∷ rs) =
    let rest = frames_for wanted rs in if is_for wanted r then to_frame r ∷ rest else rest

frames_for-push_back :
    (wanted : SubscriberType) (rs : List UimfAcquisitionRecord) (r : UimfAcquisitionRecord)
    → frames_for wanted (push_back rs r) ≡ (
        if is_for wanted r
        then push_back (frames_for wanted rs) (to_frame r)
        else frames_for wanted rs)
unfolding frames_for
frames_for-push_back wanted [] r = ground arith
frames_for-push_back wanted (x ∷ rs) r = ground (arith, frames_for-push_back wanted rs r)

-- A subscriber of the subject, after the subject handled some records.
pub record IsFollowing (completing : Bool) (handled : List UimfAcquisitionRecord) (x : Registered)
    : Type 0 where
  pub order : x.1.notified ++ (x.1.items ++ x.1.protected_queue) ≡ frames_for x.0 handled
  pub told : x.1.stop ≡ true → completing ≡ true
  pub over : x.1.completed ≡ true → (x.1.stop ≡ true) × (x.1.items ++ x.1.protected_queue ≡ [])

ThreadStep-IsFollowing :
    {completing : Bool} {handled : List UimfAcquisitionRecord} {wanted : SubscriberType}
    {s t : Subscriber UimfFrame}
    → ThreadStep s t
    → IsFollowing completing handled (wanted, s)
    → IsFollowing completing handled (wanted, t)
unfolding drain notify_items is_over
ThreadStep-IsFollowing (drains s runs) h = record {
  order = ap (◌++◌ s.notified) (move_items-append 0 s.protected_queue s.items) ∙ h.order;
  told = h.told;
  over = λ e. ground arith;
}
ThreadStep-IsFollowing (notifies s runs) h = record {
  order = append_assoc s.notified s.items s.protected_queue ∙ h.order;
  told = h.told;
  over = λ e. ground arith;
}
ThreadStep-IsFollowing (ends s runs over) h = record {
  order = h.order;
  told = h.told;
  over = λ e. (ground arith, nothing_left s.stop s.items s.protected_queue over);
}

pub OneStep-IsFollowing :
    (completing : Bool) (handled : List UimfAcquisitionRecord) {xs ys : List Registered}
    → OneStep xs ys
    → All (IsFollowing completing handled) xs
    → All (IsFollowing completing handled) ys
OneStep-IsFollowing completing handled (here wanted rest m) (h, hs) =
    (ThreadStep-IsFollowing m h, hs)
OneStep-IsFollowing completing handled (there x m) (h, hs) =
    (h, OneStep-IsFollowing completing handled m hs)

pub update-order :
    {T : Type 0} (s : Subscriber T) (sent : List T) (item : T)
    → s.notified ++ (s.items ++ s.protected_queue) ≡ sent
    → s.notified ++ (s.items ++ push_back s.protected_queue item) ≡ push_back sent item
update-order s sent item h =
    ap (◌++◌ s.notified) (sym (append_assoc s.items s.protected_queue (item ∷ [])))
    ∙ sym (append_assoc s.notified (s.items ++ s.protected_queue) (item ∷ []))
    ∙ ap (λ xs. push_back xs item) h

one-IsFollowing :
    (handled : List UimfAcquisitionRecord) (r : UimfAcquisitionRecord) (wanted : SubscriberType)
    (s : Subscriber UimfFrame)
    → IsFollowing false handled (wanted, s)
    → (b : Bool) → is_for wanted r ≡ b
    → IsFollowing false (push_back handled r) (wanted, (if b then update (to_frame r) s else s))
unfolding update
one-IsFollowing handled r wanted s h true e = record {
  order =
      update-order s (frames_for wanted handled) (to_frame r) h.order
      ∙ sym (
          frames_for-push_back wanted handled r
          ∙ ap
              (λ b.
                if b
                then push_back (frames_for wanted handled) (to_frame r)
                else frames_for wanted handled)
              e);
  told = h.told;
  over = λ f. ground (arith, h.told (h.over f).0);
}
one-IsFollowing handled r wanted s h false e = record {
  order =
      h.order
      ∙ sym (
          frames_for-push_back wanted handled r
          ∙ ap
              (λ b.
                if b
                then push_back (frames_for wanted handled) (to_frame r)
                else frames_for wanted handled)
              e);
  told = h.told;
  over = h.over;
}

-- A record handled, while the subject's thread is in its loop.
pub notify-IsFollowing :
    (handled : List UimfAcquisitionRecord) (r : UimfAcquisitionRecord) (xs : List Registered)
    → All (IsFollowing false handled) xs
    → All (IsFollowing false (push_back handled r)) (on_notify r xs)
unfolding on_notify notify update
notify-IsFollowing handled r [] h = tt
notify-IsFollowing handled r ((wanted, s) ∷ xs) (h, hs) = (
  one-IsFollowing handled r wanted s h (is_for wanted r) refl,
  notify-IsFollowing handled r xs hs,
)

pub stop_all-IsFollowing :
    (handled : List UimfAcquisitionRecord) (xs : List Registered)
    → All (IsFollowing false handled) xs
    → All (IsFollowing true handled) (stop_all xs)
stop_all-IsFollowing handled [] h = tt
stop_all-IsFollowing handled ((wanted, s) ∷ xs) (h, hs) = (
  record { order = h.order; told = λ e. refl; over = λ e. (refl, (h.over e).1) },
  stop_all-IsFollowing handled xs hs,
)
