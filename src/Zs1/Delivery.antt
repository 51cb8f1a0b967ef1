-- ===== src/Zs1/Delivery.antt =====
-- `CstZs1Context::acquire` (libaqmd3/src/cstzs1context.cpp) against one walk over the whole marker
-- stream, the hunks left in the buffer and those of the fetches in order.
use aq_md3_acquisition_conso.Common.{
  ℕ, zero, suc, ◌+◌, ◌-◌, ◌*◌, ◌/◌, ◌%◌, ◌≤◌, ◌≡◌, refl, sym, ap, ◌∙◌, Bool, true, false, none,
  List, [], ◌∷◌, ◌++◌, arith, length, take, drop, All, ◌==◌, Bool-cases, inl, inr, ==_iff,
}
use aq_md3_acquisition_conso.Common.Int.{ℤ, pos_part}
use aq_md3_acquisition_conso.Buffer.{
  AcquisitionBuffer, get_raw_unprocessed, get_raw_unaquired, get_unprocessed, advance_acquired,
  advance_offset, reset, write_at,
}
use aq_md3_acquisition_conso.Stream.{Fetch, check_fetch_alignment}
use aq_md3_acquisition_conso.Zs1.Marker.{markers_hunk_size}
use aq_md3_acquisition_conso.Zs1.{
  Zs1Context, Walk, fresh_walk, walk, Walked, onward, full, failed, and_then,
}
use aq_md3_acquisition_conso.Zs1.Hunks.{hunks, walk_list, ahead, walk-eq-walk_list}
use aq_md3_acquisition_conso.Zs1.Acquire.{
  Outcome, waiting, reset_markers, with_markers, written, absorbed, received, reply_failure,
  markers_request, next_request, grown, after_walk, fetches, collect,
}
use aq_md3_acquisition_conso.Zs1.Requests.{
  IsRequestable, IsRequest, first_IsRequest, next_IsRequest, IsRequest-aligned,
}
use aq_md3_acquisition_conso.Zs1.Chunks.{of_walked, of_outcome, walk_list-alike, walk_list-append}

-- An answer that is no error, came in time, and has its valid elements among the words written.
pub record IsHealthy (use_timeout : Bool) (f : Fetch) : Type 0 where
  pub accepted : reply_failure use_timeout f ≡ none
  pub inside : f.first_valid_element + f.actual_elements ≤ length f.words

abbrev pub fetch_hunks : Fetch → List (List ℕ)
fetch_hunks f = hunks (f.actual_elements / markers_hunk_size) (drop f.first_valid_element f.words)

-- The hunks of a script, across the fetches.
abbrev pub stream_hunks : List Fetch → List (List ℕ)
stream_hunks [] = []
stream_hunks (f ∷ fs) = fetch_hunks f ++ stream_hunks fs

-- The hunks that an earlier acquire left.
abbrev pub leftover : Zs1Context → List (List ℕ)
leftover c =
    hunks (pos_part (get_unprocessed c.markers_buffer) / markers_hunk_size) (ahead c.markers_buffer)

abbrev IsReset : AcquisitionBuffer → Type 0
IsReset b = (b.acquired_index ≡ 0) × (b.processed_index ≡ 0) × (b.offset ≡ 0)

take-prefix {ℓ} :
    {A : Type ℓ} (n : ℕ) (xs ys : List A) → n ≤ length xs → take n (xs ++ ys) ≡ take n xs
take-prefix zero xs ys h = refl
take-prefix (suc n) [] ys h = absurd (omega arith)
take-prefix (suc n) (x ∷ xs) ys h = ap (◌∷◌ x) (take-prefix n xs ys (omega arith))

pub drop-prefix {ℓ} :
    {A : Type ℓ} (n : ℕ) (xs ys : List A) → n ≤ length xs → drop n (xs ++ ys) ≡ drop n xs ++ ys
drop-prefix zero xs ys h = refl
drop-prefix (suc n) [] ys h = absurd (omega arith)
drop-prefix (suc n) (x ∷ xs) ys h = drop-prefix n xs ys (omega arith)

pub length-dropped {ℓ} :
    {A : Type ℓ} (n : ℕ) (xs : List A) → length (drop n xs) + n ≡ length xs - n + n
length-dropped zero xs = omega arith
length-dropped (suc n) [] = omega arith
length-dropped (suc n) (x ∷ xs) = omega (arith, length-dropped n xs)

pub hunks-prefix : (n : ℕ) (xs ys : List ℕ) → n * 16 ≤ length xs → hunks n (xs ++ ys) ≡ hunks n xs
hunks-prefix zero xs ys h = refl
hunks-prefix (suc n) xs ys h =
    rw (take-prefix 16 xs ys (omega arith), drop-prefix 16 xs ys (omega arith))
      (ap (◌∷◌ (take 16 xs)) (hunks-prefix n (drop 16 xs) ys (omega (arith, length-dropped 16 xs))))

-- What the walk finds ahead of it after a fetch into a buffer that was reset.
ahead-received :
    (f : Fetch) (b : AcquisitionBuffer)
    → IsReset b
    → ahead (absorbed f (written f b))
      ≡ drop f.first_valid_element (f.words ++ drop (length f.words) b.elements)
unfolding absorbed written advance_acquired advance_offset write_at get_raw_unaquired
    get_raw_unprocessed
ahead-received f b (a, p, o) =
    let i : b.processed_index + (b.offset + f.first_valid_element) ≡ f.first_valid_element =
      omega arith in
    let j : b.acquired_index + b.offset ≡ 0 = omega arith in
    let k : b.acquired_index + b.offset + length f.words ≡ length f.words = omega arith in
    rw (i, k, j)

hunks-received :
    (use_timeout : Bool) (f : Fetch) (s : Walk)
    → IsHealthy use_timeout f
    → IsReset s.context.markers_buffer
    → hunks (f.actual_elements / markers_hunk_size) (ahead (received f s).context.markers_buffer)
      ≡ fetch_hunks f
unfolding received
hunks-received use_timeout f s h e =
    rw
      (
        ahead-received f s.context.markers_buffer e,
        drop-prefix f.first_valid_element f.words
            (drop (length f.words) s.context.markers_buffer.elements) (omega (arith, h.inside)),
      )
      (hunks-prefix (f.actual_elements / 16) (drop f.first_valid_element f.words) _
        (omega (arith, h.inside, length-dropped f.first_valid_element f.words)))

after_walk-of_outcome :
    (t r : ℕ) (w : Walked) (fs : List Fetch) (k : Walk → Outcome Walk) (hs : List (List ℕ))
    → ((s : Walk) → of_outcome (k s) ≡ of_walked (walk_list t r hs s))
    → of_outcome (after_walk w fs k) ≡ of_walked (and_then w (λ s. walk_list t r hs s))
after_walk-of_outcome t r (onward s) fs k hs h = h s
after_walk-of_outcome t r (full s) fs k hs h = refl
after_walk-of_outcome t r (failed e c) fs k hs h = refl

reset-IsReset : (b : AcquisitionBuffer) → IsReset (reset b)
unfolding reset
reset-IsReset b = (refl, refl, refl)

written-IsReset : (f : Fetch) (b : AcquisitionBuffer) → IsReset b → IsReset (written f b)
unfolding written write_at
written-IsReset f b e = e

module _ (t r : ℕ) (use_timeout : Bool) (size : IsRequestable t) where
  abbrev fetched_next : Fetch → List Fetch → ℤ → ℕ → Walk → Outcome Walk
  fetched_next f fs request m s' =
      fetches t r use_timeout fs (next_request t f request m) (grown f request m) (reset_markers s')

  fetches-nil :
      (request : ℤ) (m : ℕ) (s : Walk)
      → check_fetch_alignment request ≡ none
      → fetches t r use_timeout [] request m s ≡ waiting
  unfolding fetches
  fetches-nil request m s a = ground arith

  -- An answer with no elements is asked for again.
  fetches-none_yet :
      (f : Fetch) (fs : List Fetch) (request : ℤ) (m : ℕ) (s : Walk)
      → check_fetch_alignment request ≡ none
      → reply_failure use_timeout f ≡ none
      → (f.actual_elements == 0) ≡ true
      → fetches t r use_timeout (f ∷ fs) request m s
        ≡ fetches t r use_timeout fs request m (with_markers (written f) s)
  unfolding fetches
  fetches-none_yet f fs request m s a b e = ground arith

  fetches-some_now :
      (f : Fetch) (fs : List Fetch) (request : ℤ) (m : ℕ) (s : Walk)
      → check_fetch_alignment request ≡ none
      → reply_failure use_timeout f ≡ none
      → (f.actual_elements == 0) ≡ false
      → fetches t r use_timeout (f ∷ fs) request m s
        ≡ after_walk
            (walk t r (f.actual_elements / 16) (received f s))
            fs
            (fetched_next f fs request m)
  unfolding fetches
  fetches-some_now f fs request m s a b e = rw (a, b, e, fetches)

  collect-aligned :
      (fs : List Fetch) (c : Zs1Context)
      → pos_part (get_unprocessed c.markers_buffer) % 16 ≡ 0
      → collect t r use_timeout fs c
        ≡ after_walk
            (walk t r (pos_part (get_unprocessed c.markers_buffer) / 16) (fresh_walk c))
            fs
            (λ s'. fetches t r use_timeout fs (markers_request t 1) 1 (reset_markers s'))
  unfolding collect
  collect-aligned fs c e =
      rw ((==_iff (pos_part (get_unprocessed c.markers_buffer) % 16) 0).1 e, collect)

  walked_stream :
      (n : ℕ) (s : Walk) (hs : List (List ℕ)) (here : List (List ℕ))
      → hunks n (ahead s.context.markers_buffer) ≡ here
      → of_walked (and_then (walk t r n s) (λ u. walk_list t r hs u))
        ≡ of_walked (walk_list t r (here ++ hs) s)
  walked_stream n s hs here e =
      ap (λ w. of_walked (and_then w (λ u. walk_list t r hs u)))
        (walk-eq-walk_list t r n s ∙ ap (λ hs'. walk_list t r hs' s) e)
      ∙ ap of_walked (sym (walk_list-append t r here hs s))

  fetches-of_outcome :
      (fs : List Fetch) (request : ℤ) (m : ℕ) (s : Walk)
      → All (IsHealthy use_timeout) fs
      → IsRequest t request m
      → IsReset s.context.markers_buffer
      → of_outcome (fetches t r use_timeout fs request m s)
        ≡ of_walked (walk_list t r (stream_hunks fs) s)
  fetches-of_outcome [] request m s h q e =
      ap of_outcome (fetches-nil request m s (IsRequest-aligned t request m size q))
      ∙ (unfold walk_list in refl)
  fetches-of_outcome (f ∷ fs) request m s h q e = elim (Bool-cases (f.actual_elements == 0)) [
    | inl none_yet ↦
        ap of_outcome (fetches-none_yet f fs request m s aligned h.0.accepted none_yet)
        ∙ fetches-of_outcome fs request m (with_markers (written f) s) h.1 q
            (written-IsReset f s.context.markers_buffer e)
        ∙ walk_list-alike t r (stream_hunks fs) (with_markers (written f) s) s refl
        ∙ ap
            (λ n. of_walked (
              walk_list t r (hunks (n / 16) (drop f.first_valid_element f.words) ++ stream_hunks fs)
                s))
            (sym ((==_iff f.actual_elements 0).0 none_yet))
    | inr some_now ↦
        ap of_outcome (fetches-some_now f fs request m s aligned h.0.accepted some_now)
        ∙ after_walk-of_outcome t r (walk t r (f.actual_elements / 16) (received f s)) fs
            (fetched_next f fs request m) (stream_hunks fs)
            (λ s'.
              fetches-of_outcome fs (next_request t f request m) (grown f request m)
                (reset_markers s') h.1 (next_IsRequest t f request m size q)
                (reset-IsReset s'.context.markers_buffer)
              ∙ walk_list-alike t r (stream_hunks fs) (reset_markers s') s' refl)
        ∙ walked_stream (f.actual_elements / 16) (received f s) (stream_hunks fs) (fetch_hunks f)
            (hunks-received use_timeout f s h.0 e)
        ∙ walk_list-alike t r (fetch_hunks f ++ stream_hunks fs) (received f s) s
            (unfold received in refl)
  ]
    where
      aligned : check_fetch_alignment request ≡ none
      aligned = IsRequest-aligned t request m size q

  -- Let the driver answer in time and in order, and let the buffer hold whole hunks. Then what
  -- `acquire` collects, the failure that it throws, or that it still waits is what one walk over the
  -- left-over hunks and all the hunks fetched comes to, however they were cut into fetches; the
  -- buffer's own state and the count of fetches are left aside.
  pub collect-of_outcome :
      (fs : List Fetch) (c : Zs1Context)
      → All (IsHealthy use_timeout) fs
      → pos_part (get_unprocessed c.markers_buffer) % 16 ≡ 0
      → of_outcome (collect t r use_timeout fs c)
        ≡ of_walked (walk_list t r (leftover c ++ stream_hunks fs) (fresh_walk c))
  collect-of_outcome fs c h aligned =
      ap of_outcome (collect-aligned fs c aligned)
      ∙ after_walk-of_outcome t r
          (walk t r (pos_part (get_unprocessed c.markers_buffer) / 16) (fresh_walk c)) fs
          (λ s'. fetches t r use_timeout fs (markers_request t 1) 1 (reset_markers s'))
          (stream_hunks fs)
          (λ s'.
            fetches-of_outcome fs (markers_request t 1) 1 (reset_markers s') h
              (first_IsRequest t size) (reset-IsReset s'.context.markers_buffer)
            ∙ walk_list-alike t r (stream_hunks fs) (reset_markers s') s' refl)
      ∙ walked_stream (pos_part (get_unprocessed c.markers_buffer) / 16) (fresh_walk c)
          (stream_hunks fs) (leftover c) refl
