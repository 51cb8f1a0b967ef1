-- ===== src/Writer/Transaction.antt =====
-- A batch as one transaction: UimfWriter::write_scan_data and update_timing_information
-- (UIMFWriter/src/UIMFWriter.cpp), and the subscriber that makes a writer for each batch
-- (AqMD3_console/src/uimfframewritersubscriber.cpp). SQLite is other code: what its calls do to a file
-- is a parameter, and so is what its documentation says of transactions.
pub mod Atomic
pub mod Batches
use aq_md3_acquisition_conso.Common.{
  ℕ, ◌≡◌, Bool, true, false, Option, none, some, List, [], ◌∷◌, ◌++◌, if◌then◌else◌,
}
use aq_md3_acquisition_conso.Common.Int.{ℤ, negsuc}
use aq_md3_acquisition_conso.Encode.{EncodedResult, UimfFrame}
use aq_md3_acquisition_conso.Writer.{
  Real, UimfCalibration, Parameters, UimfWriter, ScanRow, calibration_for, no_calibration,
  is_written, scan_row, write_rows,
}

pub data Statement {ℓ} (R : Type ℓ) : Type ℓ where
  pragma_synchronous : ℕ → Statement R
  begin_transaction end_transaction : Statement R
  insert_scan : ScanRow R → Statement R
  -- `UPDATE Frame_Params`: the value, the frame and the parameter.
  update_param : (value : ℤ) (frame_number param_id : ℕ) → Statement R

-- What the program calls of SQLite, on the file that a frame names, in state D. A statement is prepared
-- and run by one `exec`, which says whether neither threw.
pub record Sqlite {ℓ κ} (R : Type ℓ) (D : Type κ) : Type (ℓ ⊔ κ) where
  pub open_readwrite : D → Option D
  pub read_parameters : ℕ → D → Option (Parameters R)
  pub prepare_update : D → Bool
  pub exec : Statement R → D → D × Bool
  -- The destructor of the connection.
  pub close : D → D

-- What SQLite says of one connection's statements, where nothing else writes the file: `committed` are
-- the rows that a reader sees, `pending` those of an open transaction.
pub record IsTransactional {ℓ κ} {R : Type ℓ} {D : Type κ} (db : Sqlite R D) : Type (ℓ ⊔ κ) where
  pub committed : D → List (ScanRow R)
  pub pending : D → Option (List (ScanRow R))
  pub opened :
      (d e : D) → db.open_readwrite d ≡ some e → (committed e ≡ committed d) × (pending e ≡ none)
  pub failed :
      (s : Statement R) (d : D) → (db.exec s d).1 ≡ false → committed (db.exec s d).0 ≡ committed d
  pub set :
      (n : ℕ) (d : D)
      → (db.exec (pragma_synchronous n) d).1 ≡ true
      → (committed (db.exec (pragma_synchronous n) d).0 ≡ committed d)
        × (pending (db.exec (pragma_synchronous n) d).0 ≡ pending d)
  pub begun :
      (d : D)
      → (db.exec begin_transaction d).1 ≡ true
      → (committed (db.exec begin_transaction d).0 ≡ committed d)
        × (pending (db.exec begin_transaction d).0 ≡ some [])
  pub inserted :
      (row : ScanRow R) (d : D) (rows : List (ScanRow R))
      → pending d ≡ some rows
      → (db.exec (insert_scan row) d).1 ≡ true
      → (committed (db.exec (insert_scan row) d).0 ≡ committed d)
        × (pending (db.exec (insert_scan row) d).0 ≡ some (rows ++ row ∷ []))
  pub ended :
      (d : D) (rows : List (ScanRow R))
      → pending d ≡ some rows
      → (db.exec end_transaction d).1 ≡ true
      → committed (db.exec end_transaction d).0 ≡ committed d ++ rows
  -- A transaction that is open when the connection closes is rolled back.
  pub closed : (d : D) → committed (db.close d) ≡ committed d

-- The first exception ends the function.
abbrev pub and_then {κ} : {D : Type κ} → D × Bool → (D → D × Bool) → D × Bool
and_then (d, true) next = next d
and_then (d, false) next = (d, false)

module _ {ℓ κ} {R : Type ℓ} {D : Type κ} ⦃real : Real R⦄ (db : Sqlite R D) where
  unfoldable pub insert_rows : UimfCalibration R → UimfFrame → List EncodedResult → D → D × Bool
  insert_rows c frame [] d = (d, true)
  insert_rows c frame (er ∷ rows) d =
      if is_written frame er
      then and_then (db.exec (insert_scan (scan_row c frame er)) d) (insert_rows c frame rows)
      else insert_rows c frame rows d

  -- What a new writer holds of the frame's calibration.
  unfoldable pub batch_calibration : UimfFrame → D → UimfCalibration R
  batch_calibration frame d =
      (calibration_for (db.read_parameters frame.parameters.frame_number d)
        (record { calibration_read = false; calibration = no_calibration })).calibration

  unfoldable pub write_batch : UimfCalibration R → UimfFrame → D → D × Bool
  unfolding insert_rows
  write_batch c frame d = and_then (db.exec (pragma_synchronous 0) d) (λ d₁.
      and_then (db.exec begin_transaction d₁) (λ d₂.
        and_then (insert_rows c frame frame.encoded_data d₂)
          (λ d₃. and_then (db.exec end_transaction d₃) (db.exec (pragma_synchronous 1)))))

  abbrev pub write_opened : UimfFrame → D → Option D → D × Bool
  write_opened frame d none = (d, false)
  write_opened frame d (some e) =
      let written = write_batch (batch_calibration frame e) frame e in
      (db.close written.0, written.1)

  -- A writer of its own for each batch; each exception is logged and goes no further. The Boolean says
  -- that there was none.
  unfoldable pub on_notify : UimfFrame → D → D × Bool
  unfolding write_batch batch_calibration
  on_notify frame d = write_opened frame d (db.open_readwrite d)

  unfoldable pub on_notify_all : List UimfFrame → D → D
  unfolding on_notify
  on_notify_all [] d = d
  on_notify_all (frame ∷ frames) d = on_notify_all frames (on_notify frame d).0

  -- The duration is -1 whatever the frame; an exception of `exec` is caught, one of the preparation is
  -- not.
  unfoldable pub update_timing_information : UimfFrame → D → D × Bool
  update_timing_information frame d =
      if db.prepare_update d
      then ((db.exec (update_param (negsuc 0) frame.parameters.frame_number 2) d).0, true)
      else (d, false)
