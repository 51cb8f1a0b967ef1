-- ===== src/Queue.antt =====
-- Publishers and subscribers (AqMD3_console/include/publisher.h, AqMD3_console/include/subscriber.h)
-- and the subject between them (AqMD3_console/src/processsubject.cpp). Each subscriber has a queue
-- that the publisher fills and its own thread empties; the threads interleave as steps, each under
-- the queue's lock or on data of its own thread.
pub mod Order
pub mod Registry
pub mod Cascade
use aq_md3_acquisition_conso.Common.{
  ℕ, zero, suc, ◌+◌, ◌≡◌, Bool, true, false, ◌&&◌, List, [], ◌∷◌, ◌++◌, push_back, length, ltb,
  if◌then◌else◌,
}
use aq_md3_acquisition_conso.Encode.{
  UimfFrameParameters, UimfAcquisitionRecord, UimfFrame, to_frame,
}

pub data SubscriberType : Type 0 where
  acquire acquire_frame both : SubscriberType

-- `uint8_t(left & right)` as a test: the types share a bit.
unfoldable pub shares : SubscriberType → SubscriberType → Bool
shares acquire acquire_frame = false
shares acquire_frame acquire = false
shares acquire acquire = true
shares acquire both = true
shares acquire_frame acquire_frame = true
shares acquire_frame both = true
shares both right = true

-- `notified` is what `on_notify` was called with, in order; `stop` is that the publisher's future is
-- ready, and `completed` that the thread has come to its end.
pub record Subscriber {ℓ} (T : Type ℓ) : Type ℓ where
  pub protected_queue : List T
  pub items : List T
  pub notified : List T
  pub stop : Bool
  pub completed : Bool

module _ {ℓ} {T : Type ℓ} where
  unfoldable pub setup : Subscriber T
  setup = record {
    protected_queue = [];
    items = [];
    notified = [];
    stop = false;
    completed = false;
  }

  unfoldable pub update : T → Subscriber T → Subscriber T
  update item s = record s { protected_queue = push_back s.protected_queue item }

  -- The `for` under the lock, from round `i`: each round takes one from the queue, whose size the next
  -- round is tested against.
  unfoldable pub move_items : ℕ → List T → List T → List T × List T
  move_items i [] items = ([], items)
  move_items i (x ∷ queue) items =
      let moved = move_items (suc i) queue (push_back items x) in
      if ltb i (suc (length queue)) then moved else (x ∷ queue, items)

  unfoldable pub drain : Subscriber T → Subscriber T
  drain s =
      let (queue, items) = move_items 0 s.protected_queue s.items in
      record s { protected_queue = queue; items = items }

  unfoldable pub notify_items : Subscriber T → Subscriber T
  notify_items s = record s { items = []; notified = s.notified ++ s.items }

  abbrev pub is_empty : List T → Bool
  is_empty [] = true
  is_empty (x ∷ xs) = false

  -- The condition that ends the thread's loop.
  unfoldable pub is_over : Subscriber T → Bool
  is_over s = s.stop && (is_empty s.items && is_empty s.protected_queue)

  -- What may happen next, with the items that were handed to `update` so far.
  pub data Reach : Subscriber T → List T → Type ℓ where
    fresh : Reach setup []
    updated :
        (item : T) (s : Subscriber T) (sent : List T)
        → Reach s sent
        → Reach (update item s) (push_back sent item)
    drained : (s : Subscriber T) (sent : List T) → Reach s sent → Reach (drain s) sent
    notifies : (s : Subscriber T) (sent : List T) → Reach s sent → Reach (notify_items s) sent
    stopped :
        (s : Subscriber T) (sent : List T) → Reach s sent → Reach (record s { stop = true }) sent
    ended :
        (s : Subscriber T) (sent : List T)
        → is_over s ≡ true
        → Reach s sent
        → Reach (record s { completed = true }) sent

  -- `Publisher::notify`: every registered subscriber whose type shares a bit gets the item.
  unfoldable pub notify :
      T
      → SubscriberType
      → List (SubscriberType × Subscriber T)
      → List (SubscriberType × Subscriber T)
  notify item type [] = []
  notify item type ((wanted, s) ∷ subscribers) =
      (wanted, (if shares type wanted then update item s else s)) ∷ notify item type subscribers

-- `ProcessSubject::on_notify`: a frame without a file is for the live stream alone.
unfoldable pub frame_type : UimfFrameParameters → SubscriberType
frame_type parameters = elim parameters.file_name [ [] ↦ acquire | _ ∷ _ ↦ both ]

unfoldable pub on_notify :
    UimfAcquisitionRecord
    → List (SubscriberType × Subscriber UimfFrame)
    → List (SubscriberType × Subscriber UimfFrame)
on_notify item subscribers =
    notify (to_frame item) (frame_type (to_frame item).parameters) subscribers
