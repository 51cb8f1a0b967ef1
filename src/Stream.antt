-- ===== src/Stream.antt =====
-- libaqmd3: the data that the streaming contexts produce (libaqmd3/include/libaqmd3/acquireddata.h),
-- the checks of libaqmd3/src/helpers.cpp and `Digitizer::check_error`
-- (libaqmd3/include/libaqmd3/digitizer.h), and what one call of the driver's fetch answers.
pub mod Samples
use aq_md3_acquisition_conso.Common.{
  ℕ, ◌+◌, ◌*◌, ◌%◌, Bool, true, false, ◌||◌, not, Option, none, some, List, [], ◌==◌, if◌then◌else◌,
}
use aq_md3_acquisition_conso.Common.Int.{ℤ, pos, negsuc, leb_ℤ, ltb_ℤ}
use aq_md3_acquisition_conso.Common.Word.{u64, sub32, sub64}
use aq_md3_acquisition_conso.Buffer.{AcquisitionBuffer}

pub record GateData : Type 0 where
  pub gate_start_block_index : ℕ
  pub gate_start_sample_pos : ℕ
  pub gate_stop_block_index : ℕ
  pub gate_stop_sample_pos : ℕ
  pub element_count : ℕ

abbrev pub processing_block_size : ℕ
processing_block_size = 8

-- `uint64_t` arithmetic throughout.
unfoldable pub get_start_sample_index : GateData → ℕ
get_start_sample_index g =
    u64 (sub64 g.gate_start_block_index 1 * processing_block_size + g.gate_start_sample_pos)

-- The bracket is an `int` less a `uint32_t`: 32 bits, that wrap above 8.
unfoldable pub get_stop_sample_index : GateData → ℕ
get_stop_sample_index g =
    sub64 (u64 (sub64 g.gate_stop_block_index 1 * processing_block_size))
      (sub32 processing_block_size g.gate_stop_sample_pos)

pub record TriggerData : Type 0 where
  pub timestamp : ℕ
  -- A `double` that is only ever given a whole number.
  pub subsample_pos : ℤ
  pub index : ℕ
  pub gate_data : List GateData

-- The constructor leaves the gates empty.
abbrev pub trigger_data : ℕ → ℕ → ℤ → TriggerData
trigger_data timestamp index subsample_pos = record {
  timestamp = timestamp;
  subsample_pos = subsample_pos;
  index = index;
  gate_data = [];
}

pub record AcquiredData : Type 0 where
  pub stamps : List TriggerData
  pub samples_buffer : AcquisitionBuffer
  pub samples_count : ℕ

-- Why a call gave up. `markers_replayed` is the one `FrameDamaged`; all others are plain errors.
pub data Failure : Type 0 where
  driver_error : ℤ → Failure
  fetch_refused : ℤ → Failure
  timed_out : Failure
  leftover_markers : Failure
  dummy_gate : Failure
  unexpected_header : ℕ → Failure
  markers_replayed : Failure

pub data ErrorType : Type 0 where
  none_type warning error : ErrorType

-- `check_error`: a status above 0 warns, one below 0 is an error.
unfoldable pub check_error : ℤ → ErrorType
check_error status =
    if ltb_ℤ (pos 0) status then warning else if ltb_ℤ status (pos 0) then error else none_type

abbrev pub is_error : ErrorType → Bool
is_error error = true
is_error warning = false
is_error none_type = false

-- `check_and_throw_on_error`: the failure thrown, if any. A warning is let pass.
unfoldable pub check_and_throw_on_error : ℤ → Option Failure
unfolding check_error
check_and_throw_on_error status =
    if is_error (check_error status) then some (driver_error status) else none

abbrev pub is_multiple_of_16 : ℤ → Bool
is_multiple_of_16 (pos n) = n % 16 == 0
is_multiple_of_16 (negsuc n) = (n + 1) % 16 == 0

-- `check_fetch_alignment`: a strictly positive multiple of 16, or a throw.
unfoldable pub check_fetch_alignment : ℤ → Option Failure
check_fetch_alignment elements_to_fetch =
    if leb_ℤ elements_to_fetch (pos 0) || not (is_multiple_of_16 elements_to_fetch)
    then some (fetch_refused elements_to_fetch)
    else none

-- One answer of `stream_fetch_data`: the status, the words it wrote into the buffer from the pointer
-- it was given, its three out-parameters, and whether the clock read after it was past `finish`.
pub record Fetch : Type 0 where
  pub status : ℤ
  pub words : List ℕ
  pub available_elements : ℕ
  pub actual_elements : ℕ
  pub first_valid_element : ℕ
  pub late : Bool
