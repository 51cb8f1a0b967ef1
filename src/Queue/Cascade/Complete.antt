-- ===== src/Queue/Cascade/Complete.antt =====
-- What the wait for a chain's completion waits for (AqMD3_console/include/publisher.h,
-- AqMD3_console/include/processsubject.h).
use aq_md3_acquisition_conso.Common.{
  ◌≡◌, refl, sym, ap, subst, ◌∙◌, Bool, true, false, List, [], ◌∷◌, ◌++◌, push_back, All,
  append-nil, append_assoc, if◌then◌else◌, arith,
}
use aq_md3_acquisition_conso.Encode.{UimfAcquisitionRecord}
use aq_md3_acquisition_conso.Queue.{
  SubscriberType, setup, update, drain, notify_items, is_over, on_notify,
}
use aq_md3_acquisition_conso.Queue.Order.{move_items-append, nothing_left}
use aq_md3_acquisition_conso.Queue.Cascade.{
  Registered, Cascade, stop_all, drains, notifies, ends, OneStep, here, there, start, Reach, fresh,
  sends, signals, takes, handles, completes, moves, finishes,
}
use aq_md3_acquisition_conso.Queue.Cascade.Following.{
  frames_for, IsFollowing, OneStep-IsFollowing, notify-IsFollowing, stop_all-IsFollowing,
  update-order,
}

abbrev pub Prefix : List UimfAcquisitionRecord → List UimfAcquisitionRecord → Type 0
Prefix xs ys = (zs : List UimfAcquisitionRecord) × (ys ≡ xs ++ zs)

abbrev AllEnded : List Registered → Type 0
AllEnded xs = All (λ (x : Registered). x.1.completed ≡ true) xs

OneStep-AllEnded : {xs ys : List Registered} → OneStep xs ys → AllEnded xs → AllEnded ys
unfolding drain notify_items
OneStep-AllEnded (here wanted rest (drains s runs)) (e, es) = (e, es)
OneStep-AllEnded (here wanted rest (notifies s runs)) (e, es) = (e, es)
OneStep-AllEnded (here wanted rest (ends s runs over)) (e, es) = (refl, es)
OneStep-AllEnded (there x m) (e, es) = (e, OneStep-AllEnded m es)

record IsInOrder (c : Cascade) (sent before : List UimfAcquisitionRecord) : Type 0 where
  order : c.subject.notified ++ (c.subject.items ++ c.subject.protected_queue) ≡ sent
  same : c.subject.stop ≡ false → before ≡ sent
  starts : Prefix before sent
  told : c.completing ≡ true → (c.subject.stop ≡ true) × Prefix before c.subject.notified
  following : All (IsFollowing c.completing c.subject.notified) c.subscribers
  over :
      c.subject.completed ≡ true
      → (c.completing ≡ true) × All (λ (x : Registered). x.1.completed ≡ true) c.subscribers

start-All : (wanted : List SubscriberType) → All (IsFollowing false []) (start wanted).subscribers
unfolding frames_for setup
start-All [] = tt
start-All (w ∷ wanted) =
    (record { order = refl; told = λ e. ground arith; over = λ e. ground arith }, start-All wanted)

Prefix-push_back :
    (xs ys : List UimfAcquisitionRecord) (y : UimfAcquisitionRecord)
    → Prefix xs ys
    → Prefix xs (push_back ys y)
Prefix-push_back xs ys y (zs, e) =
    (push_back zs y, ap (λ us. push_back us y) e ∙ append_assoc xs zs (y ∷ []))

sends-IsInOrder :
    (c : Cascade) (sent before : List UimfAcquisitionRecord) (item : UimfAcquisitionRecord)
    → IsInOrder c sent before
    → (b : Bool) → c.subject.stop ≡ b
    → IsInOrder
        (record c { subject = update item c.subject })
        (push_back sent item)
        (if b then before else push_back before item)
unfolding update
sends-IsInOrder c sent before item h true e = record {
  order = update-order c.subject sent item h.order;
  same = λ f. ground arith;
  starts = Prefix-push_back before sent item h.starts;
  told = h.told;
  following = h.following;
  over = h.over;
}
sends-IsInOrder c sent before item h false e = record {
  order = update-order c.subject sent item h.order;
  same = λ f. ap (λ xs. push_back xs item) (h.same e);
  starts = (
    [],
    ap (λ xs. push_back xs item) (sym (h.same e)) ∙ sym (append-nil (push_back before item)),
  );
  told = λ f. absurd (ground (arith, (h.told f).0));
  following = h.following;
  over = h.over;
}

handles-IsInOrder :
    (c : Cascade) (sent before : List UimfAcquisitionRecord) (item : UimfAcquisitionRecord)
    (items : List UimfAcquisitionRecord)
    → c.completing ≡ false
    → c.subject.items ≡ item ∷ items
    → IsInOrder c sent before
    → IsInOrder
        (record c {
          subject = record (c.subject) {
            items = items;
            notified = push_back c.subject.notified item;
          };
          subscribers = on_notify item c.subscribers;
        })
        sent
        before
handles-IsInOrder c sent before item items runs e h =
    let s = c.subject in
    record {
      order =
          append_assoc s.notified (item ∷ []) (items ++ s.protected_queue)
          ∙ ap (λ xs. s.notified ++ (xs ++ s.protected_queue)) (sym e)
          ∙ h.order;
      same = h.same;
      starts = h.starts;
      told = λ f. ground arith;
      following =
          subst
            (λ b. All (IsFollowing b (push_back s.notified item)) (on_notify item c.subscribers))
            (sym runs)
            (notify-IsFollowing s.notified item c.subscribers
              (subst (λ b. All (IsFollowing b s.notified) c.subscribers) runs h.following));
      over = λ f. ground (arith, (h.over f).0);
    }

completes-IsInOrder :
    (c : Cascade) (sent before : List UimfAcquisitionRecord)
    → c.completing ≡ false
    → is_over c.subject ≡ true
    → IsInOrder c sent before
    → IsInOrder (record c { completing = true; subscribers = stop_all c.subscribers }) sent before
unfolding is_over
completes-IsInOrder c sent before runs over h =
    let s = c.subject in
    let all_handled : s.notified ≡ sent =
      sym (append-nil s.notified)
      ∙ ap (◌++◌ s.notified) (sym (nothing_left s.stop s.items s.protected_queue over))
      ∙ h.order in
    record {
      order = h.order;
      same = h.same;
      starts = h.starts;
      told = λ f. (ground (arith, over), subst (Prefix before) (sym all_handled) h.starts);
      following =
          stop_all-IsFollowing s.notified c.subscribers
            (subst (λ b. All (IsFollowing b s.notified) c.subscribers) runs h.following);
      over = λ f. absurd (ground (arith, (h.over f).0));
    }

Reach-IsInOrder :
    {c : Cascade} {sent before : List UimfAcquisitionRecord}
    → Reach c sent before
    → IsInOrder c sent before
unfolding setup update drain is_over
Reach-IsInOrder (fresh wanted) = record {
  order = refl;
  same = λ e. refl;
  starts = ([], refl);
  told = λ e. ground arith;
  following = start-All wanted;
  over = λ e. ground arith;
}
Reach-IsInOrder (sends {c} {sent} {before} item r) =
    sends-IsInOrder c sent before item (Reach-IsInOrder r) c.subject.stop refl
Reach-IsInOrder (signals {c} r) =
    let h = Reach-IsInOrder r in
    record {
      order = h.order;
      same = λ e. ground arith;
      starts = h.starts;
      told = λ e. (refl, (h.told e).1);
      following = h.following;
      over = h.over;
    }
Reach-IsInOrder (takes {c} runs r) =
    let h = Reach-IsInOrder r in
    record {
      order =
          ap (◌++◌ c.subject.notified)
            (move_items-append 0 c.subject.protected_queue c.subject.items)
          ∙ h.order;
      same = h.same;
      starts = h.starts;
      told = h.told;
      following = h.following;
      over = h.over;
    }
Reach-IsInOrder (handles {c} {sent} {before} item items runs e r) =
    handles-IsInOrder c sent before item items runs e (Reach-IsInOrder r)
Reach-IsInOrder (completes {c} {sent} {before} runs over r) =
    completes-IsInOrder c sent before runs over (Reach-IsInOrder r)
Reach-IsInOrder (moves {c} m r) =
    let h = Reach-IsInOrder r in
    record {
      order = h.order;
      same = h.same;
      starts = h.starts;
      told = h.told;
      following = OneStep-IsFollowing c.completing c.subject.notified m h.following;
      over = λ e. ((h.over e).0, OneStep-AllEnded m (h.over e).1);
    }
Reach-IsInOrder (finishes done all r) =
    let h = Reach-IsInOrder r in
    record {
      order = h.order;
      same = h.same;
      starts = h.starts;
      told = h.told;
      following = h.following;
      over = λ e. (done, all);
    }

abbrev pub Has : List UimfAcquisitionRecord → List Registered → Type 0
Has handled xs = All (λ (x : Registered). x.1.notified ≡ frames_for x.0 handled) xs

following-Has :
    (completing : Bool) (handled : List UimfAcquisitionRecord) (xs : List Registered)
    → All (IsFollowing completing handled) xs
    → AllEnded xs
    → Has handled xs
following-Has completing handled [] h e = tt
following-Has completing handled ((wanted, s) ∷ xs) (h, hs) (e, es) = (
  sym (append-nil s.notified) ∙ ap (◌++◌ s.notified) (sym (h.over e).1) ∙ h.order,
  following-Has completing handled xs hs es,
)

-- When the wait for a chain's completion comes back, under any interleaving of its threads, there are
-- records that begin with all those sent before the completion was asked for, and each of the subject's
-- subscribers was notified of exactly the frames of those records that it wants, in order.
pub completed-Has :
    {c : Cascade} {sent before : List UimfAcquisitionRecord}
    → Reach c sent before
    → c.subject.completed ≡ true
    → (handled : List UimfAcquisitionRecord) × Prefix before handled × Has handled c.subscribers
completed-Has {c} r e =
    let h = Reach-IsInOrder r in
    (
      c.subject.notified,
      (h.told (h.over e).0).1,
      following-Has c.completing c.subject.notified c.subscribers h.following (h.over e).1,
    )
