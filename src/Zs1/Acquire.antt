-- ===== src/Zs1/Acquire.antt =====
-- libaqmd3/src/cstzs1context.cpp: `CstZs1Context::acquire`. The driver and the clock are a script of
-- fetch answers, in the order of the calls; where it ends before the code has returned or thrown,
-- the outcome is `waiting`.
use aq_md3_acquisition_conso.Common.{
  ℕ, ◌+◌, ◌*◌, ◌/◌, ◌%◌, Bool, true, false, ◌&&◌, Option, none, some, List, [], ◌∷◌, ◌==◌, ltb,
  if◌then◌else◌,
}
use aq_md3_acquisition_conso.Common.Int.{ℤ, pos, pos_part, ltb_ℤ}
use aq_md3_acquisition_conso.Common.Word.{u32, u64, sub64, signed32, signed64}
use aq_md3_acquisition_conso.Buffer.{
  AcquisitionBuffer, get_raw_unaquired, get_unprocessed, advance_acquired, advance_offset, reset,
  write_at,
}
use aq_md3_acquisition_conso.Stream.{
  AcquiredData, Failure, timed_out, leftover_markers, Fetch, check_and_throw_on_error,
  check_fetch_alignment,
}
use aq_md3_acquisition_conso.Zs1.Marker.{markers_hunk_size}
use aq_md3_acquisition_conso.Zs1.{
  Zs1Context, Walk, fresh_walk, Walked, onward, full, failed, walk, multiplier_max,
}

-- What a call leaves: its result, its exception with the context as it was then, or that the script
-- ran out. `A` comes with the rest of the script.
pub data Outcome {ℓ} (A : Type ℓ) : Type ℓ where
  returned : A → List Fetch → Outcome A
  threw : Failure → Zs1Context → Outcome A
  waiting : Outcome A

abbrev pub reset_markers : Walk → Walk
reset_markers s = record s {
  context = record (s.context) { markers_buffer = reset s.context.markers_buffer };
}

-- The buffer after a fetch that was handed the pointer to its first free element.
unfoldable pub written : Fetch → AcquisitionBuffer → AcquisitionBuffer
written f b = write_at (get_raw_unaquired b) f.words b

unfoldable pub absorbed : Fetch → AcquisitionBuffer → AcquisitionBuffer
absorbed f b = advance_acquired f.actual_elements (advance_offset f.first_valid_element b)

abbrev pub with_markers : (AcquisitionBuffer → AcquisitionBuffer) → Walk → Walk
with_markers g s = record s {
  context = record (s.context) { markers_buffer = g s.context.markers_buffer };
}

-- What one fetch throws, once it was made: the driver's error, then the clock.
unfoldable pub reply_failure : Bool → Fetch → Option Failure
reply_failure use_timeout f = elim (check_and_throw_on_error f.status) [
  | some e ↦ some e
  | none ↦ if use_timeout && f.late then some timed_out else none
]

-- `markers_to_acquire` for a multiplier, as an `int`.
unfoldable pub markers_request : ℕ → ℕ → ℤ
markers_request triggers_to_read multiplier =
    signed32 (u32 (triggers_to_read * markers_hunk_size * multiplier))

unfoldable pub grown : Fetch → ℤ → ℕ → ℕ
grown f request multiplier =
    if ltb_ℤ request (pos f.available_elements) && ltb multiplier multiplier_max
    then multiplier + 1
    else multiplier

unfoldable pub next_request : ℕ → Fetch → ℤ → ℕ → ℤ
unfolding grown
next_request triggers_to_read f request multiplier =
    if ltb_ℤ request (pos f.available_elements) && ltb multiplier multiplier_max
    then markers_request triggers_to_read (multiplier + 1)
    else request

unfoldable pub received : Fetch → Walk → Walk
received f s = record s {
  context = record (s.context) {
    markers_buffer = absorbed f (written f s.context.markers_buffer);
    frame_fetches = u64 (s.context.frame_fetches + 1);
  };
}

-- A walk that is full leaves the loop, and one that ran out of hunks goes on to a fetch.
abbrev pub after_walk : Walked → List Fetch → (Walk → Outcome Walk) → Outcome Walk
after_walk (full s) fs k = returned s fs
after_walk (failed e c) fs k = threw e c
after_walk (onward s) fs k = k s

module _ (triggers_to_read record_samples : ℕ) (use_timeout : Bool) where
  -- The fetches, and the walk over what each brings, until the walk is full. The markers buffer has
  -- been reset before each.
  unfoldable pub fetches : List Fetch → ℤ → ℕ → Walk → Outcome Walk
  fetches [] request multiplier s = elim (check_fetch_alignment request) [
    | some e ↦ threw e s.context
    | none ↦ waiting
  ]
  fetches (f ∷ fs) request multiplier s = elim (check_fetch_alignment request) [
    | some e ↦ threw e s.context
    | none ↦ elim (reply_failure use_timeout f) [
      | some e ↦ threw e (with_markers (written f) s).context
      | none ↦ elim (f.actual_elements == 0) [
        | true ↦ fetches fs request multiplier (with_markers (written f) s)
        | false ↦
            after_walk
              (walk triggers_to_read record_samples (f.actual_elements / markers_hunk_size)
                (received f s))
              fs
              (λ s'.
                fetches fs (next_request triggers_to_read f request multiplier)
                  (grown f request multiplier) (reset_markers s'))
      ]
    ]
  ]

  -- The outer `while`: first the hunks that the last acquire left in the buffer, then the fetches.
  unfoldable pub collect : List Fetch → Zs1Context → Outcome Walk
  collect fs c =
      let left = pos_part (get_unprocessed c.markers_buffer) in
      elim (left % 16 == 0) [
        | false ↦ threw leftover_markers c
        | true ↦
            after_walk
              (walk triggers_to_read record_samples (left / markers_hunk_size) (fresh_walk c)) fs
              (λ s'. fetches fs (markers_request triggers_to_read 1) 1 (reset_markers s'))
      ]

-- After `process:`, the samples that the gates ask for. This loop does not look at the clock.
unfoldable pub outstanding : ℕ → ℕ → ℤ
outstanding to_acquire fetched = signed64 (sub64 to_acquire fetched)

unfoldable pub fetch_samples :
    List Fetch → Zs1Context → ℕ → ℕ → AcquisitionBuffer → Outcome AcquisitionBuffer
fetch_samples [] c to_acquire fetched b = elim (ltb fetched to_acquire) [
  | false ↦ returned b []
  | true ↦ elim (check_fetch_alignment (outstanding to_acquire fetched)) [
    | some e ↦ threw e c
    | none ↦ waiting
  ]
]
fetch_samples (f ∷ fs) c to_acquire fetched b = elim (ltb fetched to_acquire) [
  | false ↦ returned b (f ∷ fs)
  | true ↦ elim (check_fetch_alignment (outstanding to_acquire fetched)) [
    | some e ↦ threw e c
    | none ↦ elim (check_and_throw_on_error f.status) [
      | some e ↦ threw e c
      | none ↦
          fetch_samples fs c to_acquire (u64 (fetched + f.actual_elements))
            (absorbed f (written f b))
    ]
  ]
]

abbrev pub acquired : Walk → Outcome AcquisitionBuffer → Outcome (AcquiredData × Zs1Context)
acquired s (returned b fs) =
    returned
      (
        record { stamps = s.stamps; samples_buffer = b; samples_count = b.samples_per_trigger },
        s.context,
      )
      fs
acquired s (threw e c) = threw e c
acquired s waiting = waiting

abbrev pub and_fetch_samples :
    AcquisitionBuffer → Outcome Walk → Outcome (AcquiredData × Zs1Context)
and_fetch_samples samples_buffer (returned s rest) =
    acquired s (fetch_samples rest s.context s.to_acquire 0 samples_buffer)
and_fetch_samples samples_buffer (threw e c) = threw e c
and_fetch_samples samples_buffer waiting = waiting

-- `acquire`, with the buffer that the pool handed out.
unfoldable pub acquire :
    ℕ → Bool → List Fetch → AcquisitionBuffer → Zs1Context → Outcome (AcquiredData × Zs1Context)
acquire triggers_to_read use_timeout fs samples_buffer c =
    and_fetch_samples samples_buffer
      (collect triggers_to_read samples_buffer.samples_per_trigger use_timeout fs c)
