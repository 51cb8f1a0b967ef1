-- ===== src/Cst.antt =====
-- libaqmd3: CstContext (libaqmd3/include/libaqmd3/cstcontext.h and libaqmd3/src/cstcontext.cpp), the
-- stream without data reduction, which the measurement of the pusher period reads. The driver and the
-- clock are a script of fetch answers, as for `Zs1.Acquire`.
pub mod Clock
pub mod Found
pub mod Total
use Prim.Native.Nat.{bit_or, min}
use aq_md3_acquisition_conso.Common.{
  ℕ, zero, suc, ◌+◌, ◌-◌, ◌*◌, ◌/◌, ◌%◌, ◌^◌, Bool, true, false, ◌&&◌, Option, none, some, List, [],
  ◌∷◌, ◌++◌, ◌==◌, ltb, leb, if◌then◌else◌, length, take, drop, replicate, push_back,
}
use aq_md3_acquisition_conso.Common.Int.{ℤ, pos}
use aq_md3_acquisition_conso.Common.Word.{u64, signed64}
use aq_md3_acquisition_conso.Buffer.{
  AcquisitionBuffer, get_raw_unaquired, advance_acquired, advance_offset, write_at,
}
use aq_md3_acquisition_conso.Stream.{
  TriggerData, trigger_data, AcquiredData, Failure, driver_error, fetch_refused, timed_out, Fetch,
  check_and_throw_on_error, check_fetch_alignment,
}
use aq_md3_acquisition_conso.Zs1.Marker.{
  markers_hunk_size, word_at, tag, trigger_index, trigger_subsample,
}

abbrev pub markers_multiplier_max : ℕ
markers_multiplier_max = 16

-- Both words are read as unsigned.
unfoldable pub trigger_timestamp : List ℕ → ℕ
trigger_timestamp seg = bit_or (u64 (word_at seg 2 * 2 ^ 24)) (word_at seg 1 / 2 ^ 8 % 2 ^ 24)

unfoldable pub decode_trigger : List ℕ → TriggerData
decode_trigger seg =
    trigger_data (trigger_timestamp seg) (trigger_index seg) (trigger_subsample seg)

-- The variables of the markers loop: the local buffer, and what was found.
pub record Scan : Type 0 where
  pub markers_buffer : List ℕ
  pub stamps : List TriggerData
  pub hunks_skipped : ℕ

-- What the driver wrote, from the buffer's start.
abbrev pub overwrite : List ℕ → List ℕ → List ℕ
overwrite words buffer = words ++ drop (length words) buffer

-- The request for the next fetch: more of it when more is waiting, in whole hunks, to a largest one.
unfoldable pub request_size : ℕ → ℕ → ℕ
request_size base available =
    if ltb base available
    then (let most = min available (base * markers_multiplier_max) in
        most - most % markers_hunk_size)
    else base

-- The `for` over the hunks of one fetch, with the stop at the last trigger wanted.
unfoldable pub scan_hunks : ℕ → ℕ → List ℕ → Scan → Scan
scan_hunks triggers zero ptr s = s
scan_hunks triggers (suc n) ptr s =
    let seg = take markers_hunk_size ptr in
    let found = record s { stamps = push_back s.stamps (decode_trigger seg) } in
    let skipped = record s { hunks_skipped = u64 (s.hunks_skipped + 1) } in
    let past_skipped = scan_hunks triggers n (drop markers_hunk_size ptr) skipped in
    let past_found = scan_hunks triggers n (drop markers_hunk_size ptr) found in
    if tag seg == 0x01
    then if leb triggers (length found.stamps) then found else past_found
    else past_skipped

unfoldable pub scan_fetch : ℕ → Fetch → Scan → Scan
unfolding scan_hunks
scan_fetch triggers f s =
    let buffer = overwrite f.words s.markers_buffer in
    scan_hunks triggers (f.actual_elements / markers_hunk_size) (drop f.first_valid_element buffer)
      (record s { markers_buffer = buffer })

pub data Outcome {ℓ} (A : Type ℓ) : Type ℓ where
  returned : A → List Fetch → Outcome A
  threw : Failure → Outcome A
  waiting : Outcome A

module _ (triggers : ℕ) (use_timeout : Bool) where
  -- The `while` over the fetches; `available` is what the last one said is waiting. The clock is
  -- read after the scan.
  unfoldable pub collect_stamps : List Fetch → ℕ → Scan → Outcome Scan
  collect_stamps [] available s = elim (ltb (length s.stamps) triggers) [
    | false ↦ returned s []
    | true ↦
        elim (check_fetch_alignment (pos (request_size (triggers * markers_hunk_size) available))) [
          | some e ↦ threw e
          | none ↦ waiting
        ]
  ]
  collect_stamps (f ∷ fs) available s = elim (ltb (length s.stamps) triggers) [
    | false ↦ returned s (f ∷ fs)
    | true ↦
        elim (check_fetch_alignment (pos (request_size (triggers * markers_hunk_size) available))) [
          | some e ↦ threw e
          | none ↦ elim (check_and_throw_on_error f.status) [
            | some e ↦ threw e
            | none ↦ elim (use_timeout && f.late) [
              | true ↦ threw timed_out
              | false ↦ collect_stamps fs f.available_elements (scan_fetch triggers f s)
            ]
          ]
        ]
  ]

-- The samples: the same request until one fetch brings the whole of it. A shorter answer is written
-- over by the next.
unfoldable pub fetch_samples : Bool → List Fetch → ℕ → AcquisitionBuffer → Outcome AcquisitionBuffer
fetch_samples use_timeout [] elements b = waiting
fetch_samples use_timeout (f ∷ fs) elements b = elim (check_and_throw_on_error f.status) [
  | some e ↦ threw e
  | none ↦ elim (use_timeout && f.late) [
    | true ↦ threw timed_out
    | false ↦
        let written = write_at (get_raw_unaquired b) f.words b in
        elim (ltb f.actual_elements elements) [
          | true ↦ fetch_samples use_timeout fs elements written
          | false ↦
              returned
                (advance_acquired f.actual_elements (advance_offset f.first_valid_element written))
                fs
        ]
  ]
]

abbrev pub start_scan : ℕ → Scan
start_scan triggers = record {
  markers_buffer = replicate (triggers * markers_hunk_size * markers_multiplier_max + 15) 0;
  stamps = [];
  hunks_skipped = 0;
}

abbrev pub acquired : Scan → Outcome AcquisitionBuffer → Outcome AcquiredData
acquired s (returned b fs) =
    returned
      (record { stamps = s.stamps; samples_buffer = b; samples_count = b.samples_per_trigger }) fs
acquired s (threw e) = threw e
acquired s waiting = waiting

abbrev pub elements_to_acquire : ℕ → AcquisitionBuffer → ℕ
elements_to_acquire triggers b = triggers * b.samples_per_trigger / 2

abbrev pub and_fetch_samples : ℕ → Bool → AcquisitionBuffer → Outcome Scan → Outcome AcquiredData
and_fetch_samples triggers use_timeout b (returned s fs) =
    elim (check_fetch_alignment (pos (elements_to_acquire triggers b))) [
      | some e ↦ threw e
      | none ↦ acquired s (fetch_samples use_timeout fs (elements_to_acquire triggers b) b)
    ]
and_fetch_samples triggers use_timeout b (threw e) = threw e
and_fetch_samples triggers use_timeout b waiting = waiting

-- `acquire`, with the buffer that the pool handed out. The numbers of elements are within 64 bits.
unfoldable pub acquire : ℕ → Bool → List Fetch → AcquisitionBuffer → Outcome AcquiredData
acquire triggers use_timeout fs b =
    and_fetch_samples triggers use_timeout b
      (collect_stamps triggers use_timeout fs 0 (start_scan triggers))
