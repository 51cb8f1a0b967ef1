-- ===== src/Writer/Totals.antt =====
-- What reaches a file of a row's numbers (UIMFWriter/src/UIMFWriter.cpp).
use aq_md3_acquisition_conso.Common.{ℕ, ◌-◌, ◌^◌, ◌≤◌, ◌<◌, ◌≡◌, ◌↔◌, sym, ap, subst, true, arith}
use aq_md3_acquisition_conso.Common.Int.{pos}
use aq_md3_acquisition_conso.Encode.{EncodedResult, UimfFrame, to_u64}
use aq_md3_acquisition_conso.Writer.{
  Real, UimfCalibration, scan_row, print_d, is_written, int64_bits,
}

printed_iff : (n : ℕ) → n < 2 ^ 63 → (print_d (int64_bits (pos n)) ≡ pos n) ↔ (n < 2 ^ 31)
unfolding print_d
printed_iff n h = ground arith

-- A scan that is written is none before the start trigger.
pub written_from :
    (frame : UimfFrame) (er : EncodedResult) (scan : ℕ)
    → er.scan ≡ pos scan
    → scan < 2 ^ 31
    → is_written frame er ≡ true
    → frame.parameters.start_trigger ≤ scan
unfolding is_written
written_from frame er scan s hs w = ground (arith, ap to_u64 s, w)

module _ {ℓ} {R : Type ℓ} ⦃real : Real R⦄ where
  pub scan_num_lem :
      (c : UimfCalibration R) (frame : UimfFrame) (er : EncodedResult) (scan : ℕ)
      → er.scan ≡ pos scan
      → scan < 2 ^ 31
      → is_written frame er ≡ true
      → (scan_row c frame er).scan_num ≡ pos (scan - frame.parameters.start_trigger)
  unfolding scan_row print_d is_written
  scan_num_lem c frame er scan s hs w = ground (arith, ap to_u64 s, w)

  -- A scan's total intensity reaches the file as it is exactly while it is below 2 ^ 31; its scan
  -- number, counted from the start trigger, always does. (The scan is one that is written, and its
  -- total and numbers are within their types.)
  pub totals_written_iff :
      (c : UimfCalibration R) (frame : UimfFrame) (er : EncodedResult) (scan total : ℕ)
      → er.scan ≡ pos scan
      → scan < 2 ^ 31
      → er.tic ≡ pos total
      → total < 2 ^ 63
      → is_written frame er ≡ true
      → (((scan_row c frame er).tic ≡ er.tic) ↔ (total < 2 ^ 31))
        × ((scan_row c frame er).scan_num ≡ pos (scan - frame.parameters.start_trigger))
  unfolding scan_row print_d
  totals_written_iff c frame er scan total s hs t ht w = (
    subst (λ x. (print_d (int64_bits x) ≡ x) ↔ (total < 2 ^ 31)) (sym t) (printed_iff total ht),
    scan_num_lem c frame er scan s hs w,
  )
