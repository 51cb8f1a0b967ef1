-- ===== src/Pipeline/Filed.antt =====
-- The scan numbers that a frame adds to its file (AqMD3_console/src/uimfframewritersubscriber.cpp,
-- UIMFWriter/src/UIMFWriter.cpp).
use aq_md3_acquisition_conso.Common.{
  ℕ, suc, ◌+◌, ◌-◌, ◌^◌, ◌≤◌, ◌<◌, ◌≡◌, refl, sym, subst, Bool, true, false, List, [], ◌∷◌, ◌++◌,
  map, length, length-append, All, if◌then◌else◌, arith,
}
use aq_md3_acquisition_conso.Common.Int.{ℤ, pos}
use aq_md3_acquisition_conso.Encode.{EncodedResult, UimfFrame}
use aq_md3_acquisition_conso.Writer.{
  Real, UimfCalibration, ScanRow, is_written, scan_row, write_rows,
}
use aq_md3_acquisition_conso.Writer.Totals.{scan_num_lem, written_from}
use aq_md3_acquisition_conso.Writer.Transaction.Batches.{Stored, nothing, lost, stored}
use aq_md3_acquisition_conso.Pipeline.Rows.{rows}

-- Scan numbers from `lo` on, each above the one before it, and all below `hi`.
abbrev pub Rising : ℕ → ℕ → List ℤ → Type 0
Rising lo hi [] = Unit
Rising lo hi (x ∷ xs) = (i : ℕ) × (x ≡ pos i) × (lo ≤ i) × (i < hi) × Rising (suc i) hi xs

Rising-lower : (lo lo' hi : ℕ) (xs : List ℤ) → lo' ≤ lo → Rising lo hi xs → Rising lo' hi xs
Rising-lower lo lo' hi [] h r = tt
Rising-lower lo lo' hi (x ∷ xs) h (i, e, above, below, r) =
    (i, e, omega (arith, h, above), below, r)

-- The rows count their scans from a number on.
abbrev pub Counted : ℕ → List EncodedResult → Type 0
Counted from [] = Unit
Counted from (er ∷ ers) = (er.scan ≡ pos from) × Counted (suc from) ers

Counted-split :
    (from : ℕ) (xs ys : List EncodedResult)
    → Counted from (xs ++ ys)
    → Counted from xs × Counted (from + length xs) ys
Counted-split from [] ys h = (tt, subst (λ n. Counted n ys) (omega arith) h)
Counted-split from (x ∷ xs) ys h =
    let rest = Counted-split (suc from) xs ys h.1 in
    ((h.0, rest.0), subst (λ n. Counted n ys) (omega arith) rest.1)

module _ {ℓ} {R : Type ℓ} ⦃real : Real R⦄ where
  abbrev pub scan_nums : List (ScanRow R) → List ℤ
  scan_nums rows = map (λ (r : ScanRow R). r.scan_num) rows

  row-Rising :
      (c : UimfCalibration R) (frame : UimfFrame) (er : EncodedResult) (from hi : ℕ)
      (added : List (ScanRow R)) (b : Bool)
      → is_written frame er ≡ b
      → er.scan ≡ pos from
      → from < hi
      → hi ≤ 2 ^ 31
      → Rising (suc from - frame.parameters.start_trigger) hi (scan_nums added)
      → Rising
          (from - frame.parameters.start_trigger)
          hi
          (scan_nums (if b then scan_row c frame er ∷ added else added))
  row-Rising c frame er from hi added false w e below small r =
      Rising-lower _ _ hi (scan_nums added) (omega arith) r
  row-Rising c frame er from hi added true w e below small r =
      let after = written_from frame er from e (omega arith) w in
      (
        from - frame.parameters.start_trigger,
        scan_num_lem c frame er from e (omega arith) w,
        omega arith,
        omega arith,
        Rising-lower _ _ hi (scan_nums added) (omega (arith, after)) r,
      )

  write_rows-Rising :
      (c : UimfCalibration R) (frame : UimfFrame) (ers : List EncodedResult) (from hi : ℕ)
      (added : List (ScanRow R))
      → Counted from ers
      → from + length ers ≤ hi
      → hi ≤ 2 ^ 31
      → Rising (from + length ers - frame.parameters.start_trigger) hi (scan_nums added)
      → Rising
          (from - frame.parameters.start_trigger)
          hi
          (scan_nums (write_rows c frame ers ++ added))
  unfolding write_rows
  write_rows-Rising c frame [] from hi added counted below small r =
      Rising-lower _ _ hi (scan_nums added) (omega arith) r
  write_rows-Rising c frame (er ∷ ers) from hi added counted below small r =
      subst (λ xs. Rising (from - frame.parameters.start_trigger) hi (scan_nums xs))
        (added_under (is_written frame er))
        (row-Rising c frame er from hi (write_rows c frame ers ++ added) (is_written frame er) refl
          counted.0 (omega arith) small
          (write_rows-Rising c frame ers (suc from) hi added counted.1 (omega arith) small
            (Rising-lower _ _ hi (scan_nums added) (omega arith) r)))
    where
      added_under :
          (b : Bool)
          → (if b
              then scan_row c frame er ∷ (write_rows c frame ers ++ added)
              else write_rows c frame ers ++ added)
            ≡ (if b then scan_row c frame er ∷ write_rows c frame ers else write_rows c frame ers)
              ++ added
      added_under true = refl
      added_under false = refl

  pub stored-Rising :
      (start hi : ℕ) {frames : List UimfFrame} {added : List (ScanRow R)} (from : ℕ)
      → Stored frames added
      → All (λ (f : UimfFrame). f.parameters.start_trigger ≡ start) frames
      → Counted from (rows frames)
      → from + length (rows frames) ≤ hi
      → hi ≤ 2 ^ 31
      → Rising (from - start) hi (scan_nums added)
  unfolding rows
  stored-Rising start hi from nothing same counted below small = tt
  stored-Rising start hi from (lost {frame} {frames} {added} more) same counted below small =
      let parts = Counted-split from frame.encoded_data (rows frames) counted in
      let long = length-append frame.encoded_data (rows frames) in
      let rest =
        stored-Rising start hi (from + length frame.encoded_data) more same.1 parts.1
          (omega (arith, long, below)) small in
      Rising-lower (from + length frame.encoded_data - start) _ hi (scan_nums added) (omega arith)
        rest
  stored-Rising start hi from (stored {frame} {frames} {added} c more) same counted below small =
      let parts = Counted-split from frame.encoded_data (rows frames) counted in
      let long = length-append frame.encoded_data (rows frames) in
      let rest =
        stored-Rising start hi (from + length frame.encoded_data) more same.1 parts.1
          (omega (arith, long, below)) small in
      subst (λ n. Rising (from - n) hi (scan_nums (write_rows c frame frame.encoded_data ++ added)))
        same.0
        (write_rows-Rising c frame frame.encoded_data from hi added parts.0
          (omega (arith, long, below)) small
          (subst (λ n. Rising (from + length frame.encoded_data - n) hi (scan_nums added))
            (sym same.0) rest))
