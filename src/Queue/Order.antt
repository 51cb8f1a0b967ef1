-- ===== src/Queue/Order.antt =====
-- The interleavings of a publisher with a subscriber's thread (AqMD3_console/include/subscriber.h).
use native.Mathlib.Nat.{pow-suc}
use aq_md3_acquisition_conso.Common.{
  ℕ, zero, suc, ◌+◌, ◌*◌, ◌^◌, ◌≤◌, ◌<◌, ◌≡◌, refl, sym, ap, ◌∙◌, Bool, true, false, ◌&&◌, List, [],
  ◌∷◌, ◌++◌, push_back, length, ltb, if◌then◌else◌, append-nil, append_assoc, arith,
}
use aq_md3_acquisition_conso.Queue.{
  Subscriber, setup, update, move_items, drain, notify_items, is_empty, is_over, Reach, fresh,
  updated, drained, notifies, stopped, ended,
}

module _ {ℓ} {T : Type ℓ} where
  pub move_items-append :
      (i : ℕ) (queue items : List T)
      → (move_items i queue items).1 ++ (move_items i queue items).0 ≡ items ++ queue
  unfolding move_items
  move_items-append i [] items = refl
  move_items-append i (x ∷ queue) items =
      go (ltb i (suc (length queue))) (move_items-append (suc i) queue (push_back items x))
    where
      go :
          (b : Bool)
          → (move_items (suc i) queue (push_back items x)).1
              ++ (move_items (suc i) queue (push_back items x)).0
            ≡ push_back items x ++ queue
          → (if b then move_items (suc i) queue (push_back items x) else (x ∷ queue, items)).1
              ++ (if b then move_items (suc i) queue (push_back items x) else (x ∷ queue, items)).0
            ≡ items ++ (x ∷ queue)
      go true e = e ∙ append_assoc items (x ∷ []) queue
      go false e = refl

  -- Whatever the interleaving, the items notified, those taken and those still queued are, in this
  -- order, the items that were sent: none is lost, doubled or overtaken.
  pub Reach-InOrder :
      (s : Subscriber T) (sent : List T)
      → Reach s sent
      → s.notified ++ (s.items ++ s.protected_queue) ≡ sent
  unfolding setup update drain notify_items
  Reach-InOrder s sent fresh = refl
  Reach-InOrder s sent (updated item t before r) =
      ap (◌++◌ t.notified) (sym (append_assoc t.items t.protected_queue (item ∷ [])))
      ∙ sym (append_assoc t.notified (t.items ++ t.protected_queue) (item ∷ []))
      ∙ ap (λ xs. push_back xs item) (Reach-InOrder t before r)
  Reach-InOrder s sent (drained t before r) =
      ap (◌++◌ t.notified) (move_items-append 0 t.protected_queue t.items)
      ∙ Reach-InOrder t before r
  Reach-InOrder s sent (notifies t before r) =
      append_assoc t.notified t.items t.protected_queue ∙ Reach-InOrder t before r
  Reach-InOrder s sent (stopped t before r) = Reach-InOrder t before r
  Reach-InOrder s sent (ended t before over r) = Reach-InOrder t before r

  pub nothing_left :
      (stop : Bool) (items queue : List T)
      → (stop && (is_empty items && is_empty queue)) ≡ true
      → items ++ queue ≡ []
  nothing_left true [] [] e = refl
  nothing_left true [] (x ∷ queue) e = absurd (ground (arith, e))
  nothing_left true (x ∷ items) queue e = absurd (ground (arith, e))
  nothing_left false items queue e = absurd (ground (arith, e))

  -- When the thread's loop may end, every item sent so far has been notified, in order.
  pub over-Notified :
      (s : Subscriber T) (sent : List T) → Reach s sent → is_over s ≡ true → s.notified ≡ sent
  unfolding is_over
  over-Notified s sent r over =
      sym (append-nil s.notified)
      ∙ ap (◌++◌ s.notified) (sym (nothing_left s.stop s.items s.protected_queue over))
      ∙ Reach-InOrder s sent r

  moved-length :
      (i : ℕ) (queue items : List T) → length (move_items i queue items).0 * 2 ≤ length queue + i
  unfolding move_items
  moved-length i [] items = omega arith
  moved-length i (x ∷ queue) items = ground (arith, moved-length (suc i) queue (push_back items x))

  abbrev pub passes : ℕ → Subscriber T → Subscriber T
  passes zero s = s
  passes (suc n) s = passes n (notify_items (drain s))

  -- A pass of the thread takes the greater half of what is queued, so that a queue of fewer than
  -- 2 ^ n items is empty after n passes in which nothing is sent.
  pub passes_empty :
      (n : ℕ) (s : Subscriber T)
      → length s.protected_queue < 2 ^ n
      → length (passes n s).protected_queue ≡ 0
  unfolding drain notify_items
  passes_empty zero s h = omega arith
  passes_empty (suc n) s h =
      passes_empty n (notify_items (drain s))
        (omega (arith, moved-length 0 s.protected_queue s.items, pow-suc 2 n))
