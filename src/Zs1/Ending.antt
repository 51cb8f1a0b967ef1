-- ===== src/Zs1/Ending.antt =====
-- When `CstZs1Context::acquire` ends (libaqmd3/src/cstzs1context.cpp), and when it waits.
use aq_md3_acquisition_conso.Common.{
  ℕ, ◌+◌, ◌-◌, ◌/◌, ◌%◌, ◌^◌, ◌≤◌, ◌<◌, ◌≡◌, refl, ap, ◌∙◌, ◌≢◌, ◌⊎◌, inl, inr, Bool, true, none,
  List, [], ◌∷◌, arith, All,
}
use aq_md3_acquisition_conso.Common.Int.{ℤ, pos_part}
use aq_md3_acquisition_conso.Buffer.{
  AcquisitionBuffer, get_unprocessed, advance_acquired, advance_offset, write_at,
}
use aq_md3_acquisition_conso.Stream.{check_and_throw_on_error, check_fetch_alignment, Fetch}
use aq_md3_acquisition_conso.Zs1.{Zs1Context, Walk, fresh_walk, walk, Walked, onward, full, failed}
use aq_md3_acquisition_conso.Zs1.Acquire.{
  Outcome, returned, threw, waiting, reset_markers, with_markers, written, absorbed, received,
  reply_failure, markers_request, next_request, grown, after_walk, fetches, collect, outstanding,
  fetch_samples, and_fetch_samples, acquired, acquire,
}

abbrev pub SomeLate : List Fetch → Type 0
SomeLate [] = ⊥
SomeLate (f ∷ fs) = (f.late ≡ true) ⊎ SomeLate fs

after_walk_ends :
    (w : Walked) (fs : List Fetch) (k : Walk → Outcome Walk)
    → ((s : Walk) → k s ≢ waiting)
    → after_walk w fs k ≢ waiting
after_walk_ends (onward s) fs k h = h s
after_walk_ends (full s) fs k h = λ e. cc
after_walk_ends (failed d c) fs k h = λ e. cc

late_reply_fails : (f : Fetch) → f.late ≡ true → reply_failure true f ≢ none
unfolding reply_failure
late_reply_fails f h = ground arith

module _ (t r : ℕ) where
  fetches_end :
      (fs : List Fetch) (request : ℤ) (m : ℕ) (s : Walk)
      → SomeLate fs
      → fetches t r true fs request m s ≢ waiting
  unfolding fetches
  fetches_end [] request m s h = absurd h
  fetches_end (f ∷ fs) request m s (inl now) = ground (arith, late_reply_fails f now)
  fetches_end (f ∷ fs) request m s (inr later) = ground (
    arith,
    fetches_end fs request m (with_markers (written f) s) later,
    after_walk_ends (walk t r (f.actual_elements / 16) (received f s)) fs
        (λ s'.
          fetches t r true fs (next_request t f request m) (grown f request m) (reset_markers s'))
        (λ s'.
          fetches_end fs (next_request t f request m) (grown f request m) (reset_markers s') later),
  )

  -- With a time limit, the collection of markers has ended by the first answer that came too late,
  -- whatever the driver answered before and however little it delivered.
  pub collect_ends :
      (fs : List Fetch) (c : Zs1Context) → SomeLate fs → collect t r true fs c ≢ waiting
  unfolding collect
  collect_ends fs c h = ground (
    arith,
    after_walk_ends (walk t r (pos_part (get_unprocessed c.markers_buffer) / 16) (fresh_walk c)) fs
        (λ s'. fetches t r true fs (markers_request t 1) 1 (reset_markers s'))
        (λ s'. fetches_end fs (markers_request t 1) 1 (reset_markers s') h),
  )

outstanding-aligned :
    (n fetched : ℕ)
    → fetched < n
    → n < 2 ^ 63
    → n % 16 ≡ 0
    → fetched % 16 ≡ 0
    → check_fetch_alignment (outstanding n fetched) ≡ none
unfolding check_fetch_alignment outstanding
outstanding-aligned n fetched lt big a b = ground arith

-- An answer without an error and without an element; the clock may be past the limit.
abbrev pub IsEmptyAnswer : Fetch → Type 0
IsEmptyAnswer f = (check_and_throw_on_error f.status ≡ none) × (f.actual_elements ≡ 0)

samples_wait :
    (fs : List Fetch) (c : Zs1Context) (n fetched : ℕ) (b : AcquisitionBuffer)
    → All IsEmptyAnswer fs
    → fetched < n
    → n < 2 ^ 63
    → n % 16 ≡ 0
    → fetched % 16 ≡ 0
    → fetch_samples fs c n fetched b ≡ waiting
unfolding fetch_samples
samples_wait [] c n fetched b h lt big x y = ground (arith, outstanding-aligned n fetched)
samples_wait (f ∷ fs) c n fetched b h lt big x y =
    let same : (fetched + f.actual_elements) % 2 ^ 64 ≡ fetched = omega (arith, h.0.1) in
    ground (
      arith,
      h.0.0,
      outstanding-aligned n fetched,
      samples_wait fs c n ((fetched + f.actual_elements) % 2 ^ 64) (absorbed f (written f b)) h.1
          (omega arith) big x (omega arith),
    )

-- The time limit does not reach the samples: once the markers are collected and name some samples,
-- `acquire` waits through any number of answers that bring none, however late they come.
pub samples_wait_forever :
    (t : ℕ) (use_timeout : Bool) (fs rest : List Fetch) (b : AcquisitionBuffer) (c : Zs1Context)
    (s : Walk)
    → collect t b.samples_per_trigger use_timeout fs c ≡ returned s rest
    → All IsEmptyAnswer rest
    → 0 < s.to_acquire
    → s.to_acquire < 2 ^ 63
    → s.to_acquire % 16 ≡ 0
    → acquire t use_timeout fs b c ≡ waiting
unfolding acquire
samples_wait_forever t use_timeout fs rest b c s e h some_wanted big x =
    ap (and_fetch_samples b) e
    ∙ ap (acquired s) (samples_wait rest s.context s.to_acquire 0 b h some_wanted big x refl)

-- Answers that bring, in whole chunks and never more than is asked, the `n` elements outstanding.
abbrev pub Supplies : List Fetch → ℕ → Type 0
Supplies [] n = n ≡ 0
Supplies (f ∷ fs) n =
    (n ≡ 0)
    ⊎ ((check_and_throw_on_error f.status ≡ none)
        × (f.actual_elements % 16 ≡ 0)
        × (f.actual_elements ≤ n)
        × Supplies fs (n - f.actual_elements))

-- The call has returned, with so many elements acquired.
abbrev pub ReturnsWith : ℕ → Outcome AcquisitionBuffer → Type 0
ReturnsWith n (returned b fs) = b.acquired_index ≡ n
ReturnsWith n (threw e c) = ⊥
ReturnsWith n waiting = ⊥

absorbed-acquired :
    (f : Fetch) (b : AcquisitionBuffer)
    → (absorbed f (written f b)).acquired_index ≡ b.acquired_index + f.actual_elements
unfolding absorbed written advance_acquired advance_offset write_at
absorbed-acquired f b = refl

-- With `n` elements outstanding, answers without an error that bring them, each a multiple of 16
-- elements and none more than is outstanding, make the samples loop return, with exactly those `n`
-- elements more in the buffer; if what is to acquire and what was fetched are multiples of 16 too, and
-- the former is below 2 ^ 63.
pub samples_return :
    (fs : List Fetch) (c : Zs1Context) (n to_acquire fetched : ℕ) (b : AcquisitionBuffer)
    → Supplies fs n
    → fetched + n ≡ to_acquire
    → to_acquire < 2 ^ 63
    → to_acquire % 16 ≡ 0
    → fetched % 16 ≡ 0
    → ReturnsWith (b.acquired_index + n) (fetch_samples fs c to_acquire fetched b)
unfolding fetch_samples
samples_return [] c n to_acquire fetched b h e big x y = ground arith
samples_return (f ∷ fs) c n to_acquire fetched b (inl e0) e big x y = ground arith
samples_return (f ∷ fs) c n to_acquire fetched b (inr (o, a, l, h)) e big x y =
    let next : (fetched + f.actual_elements) % 2 ^ 64 ≡ fetched + f.actual_elements = omega arith in
    ground (
      arith,
      outstanding-aligned to_acquire fetched,
      absorbed-acquired f b,
      samples_return fs c (n - f.actual_elements) to_acquire
          ((fetched + f.actual_elements) % 2 ^ 64) (absorbed f (written f b)) h (omega arith) big x
          (omega arith),
    )
