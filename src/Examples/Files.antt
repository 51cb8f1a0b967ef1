-- ===== src/Examples/Files.antt =====
-- A scan written to a file (UIMFWriter/src/UIMFWriter.cpp).
use aq_md3_acquisition_conso.Common.{
  ℕ, ◌*◌, ◌-◌, ◌^◌, ◌≡◌, ◌<◌, ◌↔◌, refl, true, [], ◌∷◌, leb, ltb, length, arith,
}
use aq_md3_acquisition_conso.Common.Int.{pos, negsuc, pos_part}
use aq_md3_acquisition_conso.Encode.{EncodedResult, UimfFrame}
use aq_md3_acquisition_conso.Writer.{Real, UimfCalibration, scan_row, is_written}
use aq_md3_acquisition_conso.Writer.Compressed.{
  Compressor, IsBounded, bytes_written, is_undefined, has_empty_first, bytes_written_undefined_iff,
}
use aq_md3_acquisition_conso.Writer.Totals.{totals_written_iff}

abbrev pub whole : Real ℕ
whole = record {
  of_ℤ = pos_part;
  times = ◌*◌;
  over = λ a b. a;
  minus = ◌-◌;
  is_at_most_zero = λ a. leb a 0;
  is_positive = ltb 0;
}

abbrev calibration : UimfCalibration ℕ
calibration = record { slope = 2; intercept = 1; bin_width_ns = 1; usable = true }

-- Scan 12 of a frame that starts at trigger 10, with a total of 3000000000.
abbrev bright : EncodedResult
bright = record {
  scan = pos 12;
  non_zero_count = 1;
  encoded_spectra = negsuc 2 ∷ pos 60000 ∷ [];
  tic = pos 3000000000;
  bpi = pos 60000;
  index_max_intensity = pos 3;
  timestamp = 70;
}

abbrev pub frame : UimfFrame
frame = record {
  parameters = record {
    start_trigger = 10;
    nbr_samples = 64;
    nbr_accumulations = 1;
    frame_length = 3;
    frame_number = 1;
    offset_bins = 5;
    file_name = 97 ∷ [];
  };
  encoded_data = bright ∷ [];
}

bright-is_written : is_written frame bright ≡ true
unfolding is_written
bright-is_written = refl

totals_written_iff_example :
    (((scan_row ⦃real = whole⦄ calibration frame bright).tic ≡ pos 3000000000)
      ↔ (3000000000 < 2 ^ 31))
    × ((scan_row ⦃real = whole⦄ calibration frame bright).scan_num ≡ pos (12 - 10))
totals_written_iff_example =
    totals_written_iff ⦃real = whole⦄ calibration frame bright 12 3000000000 refl (omega arith) refl
      (omega arith) bright-is_written

-- A compressor that stores a byte for a value.
abbrev bytewise : Compressor
bytewise xs out_len = length xs

bytewise-IsBounded : IsBounded bytewise
bytewise-IsBounded = record { bounded = λ x xs out_len. omega arith }

abbrev dark : EncodedResult
dark = record bright { scan = pos 0; encoded_spectra = []; non_zero_count = 0 }

abbrev pub from_zero : UimfFrame
from_zero = record frame {
  parameters = record (frame.parameters) { start_trigger = 0 };
  encoded_data = dark ∷ bright ∷ [];
}

-- A frame whose scan 0 is dark.
bytes_written_undefined_iff_example :
    is_undefined (bytes_written bytewise (λ er. 100) from_zero (dark ∷ bright ∷ [])) ≡ true
unfolding has_empty_first
bytes_written_undefined_iff_example =
    bytes_written_undefined_iff bytewise (λ er. 100) from_zero (dark ∷ bright ∷ [])
      bytewise-IsBounded
