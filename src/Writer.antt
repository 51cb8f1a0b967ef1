-- ===== src/Writer.antt =====
-- The writer of UIMF files: UimfWriter (UIMFWriter/src/UIMFWriter.cpp and
-- UIMFWriter/include/UIMFWriter/UIMFWriter.h). The database and the compressor are other code: what a
-- query answers is an argument, and what is executed is a list of rows. Double arithmetic is an
-- interface. `sprintf` prints with "%d", and on the program's platform, 64-bit Windows, that reads the
-- low 32 bits of each argument, whose register is 64 bits wide.
pub mod Totals
pub mod Compressed
pub mod Transaction
use aq_md3_acquisition_conso.Common.{
  ℕ, ◌+◌, ◌-◌, ◌%◌, ◌^◌, Bool, true, false, ◌&&◌, ◌||◌, Option, none, some, List, [], ◌∷◌, length,
  ◌==◌, ltb, if◌then◌else◌,
}
use aq_md3_acquisition_conso.Common.Int.{ℤ, pos, negsuc}
use aq_md3_acquisition_conso.Common.Word.{u32, u64, sub64, signed32}
use aq_md3_acquisition_conso.Encode.{EncodedResult, UimfFrame, to_u64}

pub record Real {ℓ} (R : Type ℓ) : Type ℓ where
  pub of_ℤ : ℤ → R
  pub times : R → R → R
  pub over : R → R → R
  pub minus : R → R → R
  -- `<= 0.0` and `> 0.0`
  pub is_at_most_zero : R → Bool
  pub is_positive : R → Bool

pub record UimfCalibration {ℓ} (R : Type ℓ) : Type ℓ where
  pub slope : R
  pub intercept : R
  pub bin_width_ns : R
  pub usable : Bool

-- What the two queries answer: the frame's parameters 12 and 13 in the order of the rows, and the bin
-- width; nothing if one of them throws.
pub record Parameters {ℓ} (R : Type ℓ) : Type ℓ where
  pub frame_params : List (ℕ × R)
  pub bin_width : Option R

pub record UimfWriter {ℓ} (R : Type ℓ) : Type ℓ where
  pub calibration_read : Bool
  pub calibration : UimfCalibration R

-- An inserted row: what the text of the statement says, and the compressed spectrum's content.
pub record ScanRow {ℓ} (R : Type ℓ) : Type ℓ where
  pub frame_num : ℤ
  pub scan_num : ℤ
  pub non_zero_count : ℤ
  pub bpi : ℤ
  pub bpi_mz : R
  pub tic : ℤ
  pub intensities : List ℤ

-- "%d" of a 64-bit pattern.
unfoldable pub print_d : ℕ → ℤ
print_d n = signed32 (u32 n)

abbrev pub int64_bits : ℤ → ℕ
int64_bits (pos n) = n % 2 ^ 64
int64_bits (negsuc n) = 2 ^ 64 - 1 - n % 2 ^ 64

-- A scan before the start trigger is not written, nor an empty one unless it is scan 0.
unfoldable pub is_written : UimfFrame → EncodedResult → Bool
is_written frame er =
    if ltb (to_u64 er.scan) frame.parameters.start_trigger
    then false
    else (ltb 1 (length er.encoded_spectra) || (to_u64 er.scan == 0))

module _ {ℓ} {R : Type ℓ} ⦃real : Real R⦄ where
  unfoldable pub mz : UimfCalibration R → ℤ → R
  mz c bin =
      let time_us = real.over (real.times (real.of_ℤ bin) c.bin_width_ns) (real.of_ℤ (pos 1000)) in
      let past_origin = real.minus time_us c.intercept in
      if real.is_at_most_zero past_origin
      then real.of_ℤ (pos 0)
      else real.times (real.times c.slope past_origin) (real.times c.slope past_origin)

  abbrev pub no_calibration : UimfCalibration R
  no_calibration = record {
    slope = real.of_ℤ (pos 0);
    intercept = real.of_ℤ (pos 0);
    bin_width_ns = real.of_ℤ (pos 0);
    usable = false;
  }

  unfoldable pub take_params : List (ℕ × R) → UimfCalibration R → UimfCalibration R
  take_params [] c = c
  take_params ((id, value) ∷ params) c =
      take_params params
        (if id == 12 then record c { slope = value } else record c { intercept = value })

  abbrev pub take_width : Option R → UimfCalibration R → UimfCalibration R
  take_width none c = c
  take_width (some value) c = record c { bin_width_ns = value }

  abbrev pub calibration_of : Option (Parameters R) → UimfCalibration R → UimfCalibration R
  calibration_of none c = no_calibration
  calibration_of (some p) c =
      let read = take_width p.bin_width (take_params p.frame_params c) in
      record read { usable = real.is_positive read.slope && real.is_positive read.bin_width_ns }

  -- Read once per writer.
  unfoldable pub calibration_for : Option (Parameters R) → UimfWriter R → UimfWriter R
  unfolding take_params
  calibration_for parameters w =
      if w.calibration_read
      then w
      else record { calibration_read = true; calibration = calibration_of parameters w.calibration }

  unfoldable pub scan_row : UimfCalibration R → UimfFrame → EncodedResult → ScanRow R
  scan_row c frame er = record {
    frame_num = print_d frame.parameters.frame_number;
    scan_num = print_d (sub64 (to_u64 er.scan) frame.parameters.start_trigger);
    non_zero_count = print_d er.non_zero_count;
    bpi = print_d (int64_bits er.bpi);
    bpi_mz = if c.usable then mz c er.index_max_intensity else real.of_ℤ er.index_max_intensity;
    tic = print_d (int64_bits er.tic);
    intensities = er.encoded_spectra;
  }

  unfoldable pub write_rows : UimfCalibration R → UimfFrame → List EncodedResult → List (ScanRow R)
  write_rows c frame [] = []
  write_rows c frame (er ∷ rows) =
      let rest = write_rows c frame rows in
      if is_written frame er then scan_row c frame er ∷ rest else rest

  unfoldable pub write_scan_data :
      Option (Parameters R) → UimfFrame → UimfWriter R → UimfWriter R × List (ScanRow R)
  write_scan_data parameters frame w =
      let w' = calibration_for parameters w in
      (w', write_rows w'.calibration frame frame.encoded_data)
