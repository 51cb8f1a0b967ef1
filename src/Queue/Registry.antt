-- ===== src/Queue/Registry.antt =====
-- The subscribers of a publisher: Publisher::register_subscriber, unregister_subscriber and notify
-- (AqMD3_console/include/publisher.h). A subscriber is a number, that of its object.
use aq_md3_acquisition_conso.Common.{
  ℕ, ◌≡◌, ◌≢◌, ap, List, [], ◌∷◌, ◌++◌, push_back, ◌==◌, if◌then◌else◌, All, arith,
}
use aq_md3_acquisition_conso.Queue.{SubscriberType, shares}

abbrev pub Registry : Type 0
Registry = List (SubscriberType × ℕ)

unfoldable pub register_subscriber : ℕ → SubscriberType → Registry → Registry
register_subscriber subscriber type subscribers = push_back subscribers (type, subscriber)

-- The first entry that is the subscriber's is erased.
unfoldable pub unregister_subscriber : ℕ → Registry → Registry
unregister_subscriber subscriber [] = []
unregister_subscriber subscriber ((type, s) ∷ subscribers) =
    if s == subscriber
    then subscribers
    else (type, s) ∷ unregister_subscriber subscriber subscribers

-- The subscribers that `notify` updates, in order.
unfoldable pub notified_by : SubscriberType → Registry → List ℕ
notified_by type [] = []
notified_by type ((wanted, s) ∷ subscribers) =
    if shares type wanted then s ∷ notified_by type subscribers else notified_by type subscribers

abbrev pub Other : ℕ → SubscriberType × ℕ → Type 0
Other subscriber (type, s) = s ≢ subscriber

unregister_registered :
    (subscriber : ℕ) (type : SubscriberType) (subscribers : Registry)
    → All (Other subscriber) subscribers
    → unregister_subscriber subscriber (register_subscriber subscriber type subscribers)
      ≡ subscribers
unfolding register_subscriber unregister_subscriber
unregister_registered subscriber type [] h = ground arith
unregister_registered subscriber type ((t, s) ∷ subscribers) h =
    ground (arith, h.0, unregister_registered subscriber type subscribers h.1)

notified_by_registered :
    (subscriber : ℕ) (wanted type : SubscriberType) (subscribers : Registry)
    → notified_by type (register_subscriber subscriber wanted subscribers)
      ≡ notified_by type subscribers ++ (if shares type wanted then subscriber ∷ [] else [])
unfolding notified_by register_subscriber
notified_by_registered subscriber wanted type [] = ground arith
notified_by_registered subscriber wanted type ((t, s) ∷ subscribers) =
    ground (arith, notified_by_registered subscriber wanted type subscribers)

-- A subscriber is notified after all that were there before it, of what its type shares a bit with; and
-- once it is unregistered, the publisher notifies those that it did before, and in their order.
pub notified_by-register_subscriber :
    (subscriber : ℕ) (wanted type : SubscriberType) (subscribers : Registry)
    → All (Other subscriber) subscribers
    → (notified_by type (register_subscriber subscriber wanted subscribers)
        ≡ notified_by type subscribers ++ (if shares type wanted then subscriber ∷ [] else []))
      × (notified_by type
            (unregister_subscriber subscriber (register_subscriber subscriber wanted subscribers))
          ≡ notified_by type subscribers)
notified_by-register_subscriber subscriber wanted type subscribers h = (
  notified_by_registered subscriber wanted type subscribers,
  ap (notified_by type) (unregister_registered subscriber wanted subscribers h),
)
