-- ===== src/Examples/Cascades.antt =====
-- A chain that completes (AqMD3_console/include/publisher.h, AqMD3_console/include/subscriber.h).
use aq_md3_acquisition_conso.Common.{◌≡◌, refl, true, List, [], ◌∷◌}
use aq_md3_acquisition_conso.Encode.{UimfAcquisitionRecord, UimfFrame, to_frame}
use aq_md3_acquisition_conso.Queue.{
  acquire, Subscriber, setup, update, move_items, drain, notify_items, is_over, shares, frame_type,
  notify, on_notify,
}
use aq_md3_acquisition_conso.Queue.Cascade.{
  Cascade, stop_all, drains, notifies, ends, here, start, Reach, fresh, sends, signals, takes,
  handles, completes, moves, finishes,
}
use aq_md3_acquisition_conso.Queue.Cascade.Complete.{Prefix, Has, completed-Has}
use aq_md3_acquisition_conso.Examples.Rows.{batch}

-- The subject's one subscriber takes the live stream.
abbrev at_first : Cascade
at_first = start (acquire ∷ [])

abbrev at_sent : Cascade
at_sent = record at_first { subject = update batch at_first.subject }

abbrev at_signal : Cascade
at_signal = record at_sent { subject = record (at_sent.subject) { stop = true } }

abbrev at_taken : Cascade
at_taken = record at_signal { subject = drain at_signal.subject }

abbrev at_handled : Cascade
at_handled = record at_taken {
  subject = record (at_taken.subject) { items = []; notified = batch ∷ [] };
  subscribers = on_notify batch at_taken.subscribers;
}

abbrev at_completing : Cascade
at_completing = record at_handled {
  completing = true;
  subscribers = stop_all at_handled.subscribers;
}

reached : Reach at_completing (batch ∷ []) (batch ∷ [])
unfolding setup update drain move_items is_over
reached =
    completes refl refl
      (handles batch [] refl refl (takes refl (signals (sends batch (fresh (acquire ∷ []))))))

abbrev waiting : Subscriber UimfFrame
waiting = record (update (to_frame batch) setup) { stop = true }

abbrev at_end : Cascade
at_end = record at_completing {
  subject = record (at_completing.subject) { completed = true };
  subscribers = (acquire, record (notify_items (drain waiting)) { completed = true }) ∷ [];
}

end_reached : Reach at_end (batch ∷ []) (batch ∷ [])
unfolding setup update drain notify_items move_items is_over on_notify notify shares frame_type
    to_frame
end_reached =
    finishes refl (refl, tt)
      (moves (here acquire [] (ends (notify_items (drain waiting)) refl refl)) (
        moves (here acquire [] (notifies (drain waiting) refl))
          (moves (here acquire [] (drains waiting refl)) reached)))

at_end_completed : at_end.subject.completed ≡ true
at_end_completed = refl

completed-Has_example :
    (handled : List UimfAcquisitionRecord) × Prefix (batch ∷ []) handled
    × Has handled at_end.subscribers
completed-Has_example = completed-Has end_reached at_end_completed
