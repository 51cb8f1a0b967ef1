-- ===== src/Cst/Total.antt =====
-- The collection of timestamps in libaqmd3/src/cstcontext.cpp as a whole.
use aq_md3_acquisition_conso.Common.{
  ℕ, ◌+◌, ◌*◌, ◌≤◌, ◌<◌, ◌≡◌, sym, ap, subst, ◌∙◌, inl, inr, Bool, false, ◌&&◌, none, List, [], ◌∷◌,
  ◌++◌, arith, length, take, ltb, Bool-cases, length-append, append_assoc, All, length-replicate,
  length-take,
}
use aq_md3_acquisition_conso.Common.Int.{pos}
use aq_md3_acquisition_conso.Stream.{
  TriggerData, Fetch, check_fetch_alignment, check_and_throw_on_error,
}
use aq_md3_acquisition_conso.Zs1.Delivery.{fetch_hunks, stream_hunks}
use aq_md3_acquisition_conso.Cst.{
  Scan, scan_fetch, start_scan, Outcome, returned, threw, waiting, collect_stamps, request_size,
}
use aq_md3_acquisition_conso.Cst.Found.{
  triggers_of, triggers_of-append, IsInside, scan_fetch-stamps, take_append, take_all,
  length_capped,
}

-- Every request for markers is a positive multiple of 16, no less than one hunk for each trigger
-- wanted, and fits the local buffer with the 15 elements of slack.
pub request_bounds :
    (t available : ℕ)
    → 0 < t
    → let request = request_size (t * 16) available in
      (check_fetch_alignment (pos request) ≡ none)
      × (t * 16 ≤ request)
      × (request + 15 ≤ length (start_scan t).markers_buffer)
unfolding check_fetch_alignment request_size
request_bounds t available h =
    ground (arith, length-replicate (t * 16 * 16 + 15) (let z : ℕ = 0 in z))

-- An answer that is no error, came in time, and has its valid elements among the words written.
pub record IsGood (use_timeout : Bool) (f : Fetch) : Type 0 where
  pub accepted : check_and_throw_on_error f.status ≡ none
  pub in_time : (use_timeout && f.late) ≡ false
  pub inside : IsInside f

abbrev pub ReturnsStamps : List TriggerData → Outcome Scan → Type 0
ReturnsStamps ts (returned s fs) = s.stamps ≡ ts
ReturnsStamps ts (threw e) = ⊥
ReturnsStamps ts waiting = ⊥

capped_enough {ℓ} :
    {A : Type ℓ} (t : ℕ) (xs ys : List A) → t ≤ length (xs ++ ys) → t ≤ length (take t xs ++ ys)
capped_enough t xs ys h =
    omega (arith, length-append xs ys, length-append (take t xs) ys, length-take t xs)

module _ (t : ℕ) (use_timeout : Bool) (some_wanted : 0 < t) where
  collect_stamps-total :
      (fs : List Fetch) (available : ℕ) (s : Scan)
      → All (IsGood use_timeout) fs
      → length s.stamps ≤ t
      → t ≤ length (s.stamps ++ triggers_of (stream_hunks fs))
      → ReturnsStamps
          (take t (s.stamps ++ triggers_of (stream_hunks fs)))
          (collect_stamps t use_timeout fs available s)
  unfolding collect_stamps triggers_of
  collect_stamps-total [] available s g le enough =
      let exact : length s.stamps ≡ t = omega (arith, length-append s.stamps []) in
      ground (arith, take_all t s.stamps [] exact)
  collect_stamps-total (f ∷ fs) available s g le enough =
      elim (Bool-cases (ltb (length s.stamps) t)) [
        | inl few ↦
            let below : length s.stamps < t = ground arith in
            let here = scan_fetch-stamps t f s g.0.inside below in
            let joined : (take t (s.stamps ++ triggers_of (fetch_hunks f))
                  ++ triggers_of (stream_hunks fs))
                ≡ ((scan_fetch t f s).stamps ++ triggers_of (stream_hunks fs)) =
              ap (λ ts. ts ++ triggers_of (stream_hunks fs)) (sym here) in
            let split : s.stamps ++ triggers_of (fetch_hunks f ++ stream_hunks fs)
                ≡ (s.stamps ++ triggers_of (fetch_hunks f)) ++ triggers_of (stream_hunks fs) =
              ap (◌++◌ s.stamps) (triggers_of-append (fetch_hunks f) (stream_hunks fs))
              ∙ sym (
                  append_assoc s.stamps (triggers_of (fetch_hunks f))
                    (triggers_of (stream_hunks fs))) in
            let total =
              collect_stamps-total fs f.available_elements (scan_fetch t f s) g.1
                (omega (
                  arith,
                  ap length here,
                  length_capped t (s.stamps ++ triggers_of (fetch_hunks f)),
                ))
                (omega (
                  arith,
                  ap length joined,
                  ap length split,
                  capped_enough t (s.stamps ++ triggers_of (fetch_hunks f))
                      (triggers_of (stream_hunks fs)),
                )) in
            let whole : take t ((scan_fetch t f s).stamps ++ triggers_of (stream_hunks fs))
                ≡ take t (s.stamps ++ triggers_of (fetch_hunks f ++ stream_hunks fs)) =
              ap (take t) (sym joined)
              ∙ take_append t (s.stamps ++ triggers_of (fetch_hunks f))
                  (triggers_of (stream_hunks fs))
              ∙ ap (take t) (sym split) in
            rw
              (
                few,
                (request_bounds t available some_wanted).0,
                g.0.accepted,
                g.0.in_time,
                collect_stamps,
              )
              (subst
                (λ ts.
                  ReturnsStamps ts
                    (collect_stamps t use_timeout fs f.available_elements (scan_fetch t f s)))
                whole total)
        | inr done ↦
            let exact : length s.stamps ≡ t = ground arith in
            rw (done, collect_stamps) (sym (take_all t s.stamps _ exact))
      ]

  -- Let at least one trigger be wanted, every answer be good, and the stream bring as many triggers.
  -- Then the collection of markers returns, and its timestamps are those of the stream's first triggers in
  -- order: gates and other hunks between them are passed over, and the cuts between the fetches do
  -- not matter.
  pub collect_stamps-first_triggers :
      (fs : List Fetch)
      → All (IsGood use_timeout) fs
      → t ≤ length (triggers_of (stream_hunks fs))
      → ReturnsStamps
          (take t (triggers_of (stream_hunks fs)))
          (collect_stamps t use_timeout fs 0 (start_scan t))
  collect_stamps-first_triggers fs g enough =
      collect_stamps-total fs 0 (start_scan t) g (omega arith) enough
