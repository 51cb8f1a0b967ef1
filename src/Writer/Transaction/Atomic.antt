-- ===== src/Writer/Transaction/Atomic.antt =====
-- What of a batch reaches its file (UIMFWriter/src/UIMFWriter.cpp,
-- AqMD3_console/src/uimfframewritersubscriber.cpp).
use aq_md3_acquisition_conso.Common.{
  ◌≡◌, ◌⊎◌, inl, inr, refl, sym, ap, subst, ◌∙◌, Bool, true, false, Option, none, some, List, [],
  ◌∷◌, ◌++◌, append-nil, append_assoc, if◌then◌else◌, arith,
}
use aq_md3_acquisition_conso.Encode.{EncodedResult, UimfFrame}
use aq_md3_acquisition_conso.Writer.{
  Real, UimfCalibration, ScanRow, is_written, scan_row, write_rows,
}
use aq_md3_acquisition_conso.Writer.Transaction.{
  Sqlite, IsTransactional, pragma_synchronous, begin_transaction, end_transaction, insert_scan,
  and_then, insert_rows, batch_calibration, write_batch, write_opened, on_notify,
}

-- Either a statement threw, and the rest was left out, or the rest was run.
and_then-Holds {κ μ} :
    {D : Type κ} (P : D × Bool → Type μ) (x : D × Bool) (next : D → D × Bool)
    → (x.1 ≡ false → P (x.0, false))
    → (x.1 ≡ true → P (next x.0))
    → P (and_then x next)
and_then-Holds P (d, true) next threw ran = ran refl
and_then-Holds P (d, false) next threw ran = threw refl

module _ {ℓ} {R : Type ℓ} ⦃real : Real R⦄ where
  -- What the file holds after a batch.
  abbrev pub IsKept : UimfFrame → List (ScanRow R) → List (ScanRow R) → Type ℓ
  IsKept frame before after =
      (after ≡ before)
      ⊎ ((c : UimfCalibration R) × (after ≡ before ++ write_rows c frame frame.encoded_data))

module _ {ℓ κ} {R : Type ℓ} {D : Type κ} ⦃real : Real R⦄ (db : Sqlite R D)
    (h : IsTransactional db) where
  -- Statements that leave the committed rows, and if none threw these rows pending.
  record IsPending (d : D) (rows : List (ScanRow R)) (r : D × Bool) : Type (ℓ ⊔ κ) where
    kept : h.committed r.0 ≡ h.committed d
    held : r.1 ≡ true → h.pending r.0 ≡ some rows

  Inserts : List (ScanRow R) → (D → D × Bool) → Type (ℓ ⊔ κ)
  Inserts added next =
      (d : D) (rows : List (ScanRow R))
      → h.pending d ≡ some rows
      → IsPending d (rows ++ added) (next d)

  insert_turn-Inserts :
      (row : ScanRow R) (added : List (ScanRow R)) (next : D → D × Bool)
      → Inserts added next
      → (b : Bool)
      → Inserts
          (if b then row ∷ added else added)
          (λ d. if b then and_then (db.exec (insert_scan row) d) next else next d)
  unfolding Inserts
  insert_turn-Inserts row added next ih false d rows p = ih d rows p
  insert_turn-Inserts row added next ih true d rows p =
      and_then-Holds (IsPending d (rows ++ row ∷ added)) (db.exec (insert_scan row) d) next
        (λ e. record { kept = h.failed (insert_scan row) d e; held = λ f. ground arith })
        (λ e.
          let one = h.inserted row d rows p e in
          let rest = ih (db.exec (insert_scan row) d).0 (rows ++ row ∷ []) one.1 in
          record {
            kept = rest.kept ∙ one.0;
            held = λ f. rest.held f ∙ ap some (append_assoc rows (row ∷ []) added);
          })

  insert_rows-Inserts :
      (c : UimfCalibration R) (frame : UimfFrame) (ers : List EncodedResult)
      → Inserts (write_rows c frame ers) (insert_rows db c frame ers)
  unfolding insert_rows write_rows Inserts
  insert_rows-Inserts c frame [] d rows p = record {
    kept = refl;
    held = λ f. p ∙ ap some (sym (append-nil rows));
  }
  insert_rows-Inserts c frame (er ∷ ers) d rows p =
      insert_turn-Inserts (scan_row c frame er) (write_rows c frame ers)
        (insert_rows db c frame ers) (insert_rows-Inserts c frame ers) (is_written frame er) d rows
        p

  -- All rows, or none and something threw.
  abbrev pub IsAtomic : List (ScanRow R) → List (ScanRow R) → D × Bool → Type ℓ
  IsAtomic before rows r =
      ((h.committed r.0 ≡ before) × (r.1 ≡ false)) ⊎ (h.committed r.0 ≡ before ++ rows)

  threw-IsAtomic :
      (before rows : List (ScanRow R)) (d : D)
      → h.committed d ≡ before
      → IsAtomic before rows (d, false)
  threw-IsAtomic before rows d e = inl (e, refl)

  synchronous-IsAtomic :
      (before rows : List (ScanRow R)) (d : D)
      → h.committed d ≡ before ++ rows
      → (b : Bool) → (db.exec (pragma_synchronous 1) d).1 ≡ b
      → IsAtomic before rows (db.exec (pragma_synchronous 1) d)
  synchronous-IsAtomic before rows d e true f = inr ((h.set 1 d f).0 ∙ e)
  synchronous-IsAtomic before rows d e false f = inr (h.failed (pragma_synchronous 1) d f ∙ e)

  end-IsAtomic :
      (before rows : List (ScanRow R)) (d : D)
      → h.committed d ≡ before
      → h.pending d ≡ some rows
      → IsAtomic before rows (and_then (db.exec end_transaction d) (db.exec (pragma_synchronous 1)))
  end-IsAtomic before rows d e p =
      and_then-Holds (IsAtomic before rows) (db.exec end_transaction d)
        (db.exec (pragma_synchronous 1))
        (λ f. threw-IsAtomic before rows _ (h.failed end_transaction d f ∙ e))
        (λ f.
          synchronous-IsAtomic before rows _ (h.ended d rows p f ∙ ap (λ x. x ++ rows) e)
            (db.exec (pragma_synchronous 1) (db.exec end_transaction d).0).1 refl)

  abbrev rows_and_end : UimfCalibration R → UimfFrame → D → D × Bool
  rows_and_end c frame d =
      and_then (insert_rows db c frame frame.encoded_data d)
        (λ d₃. and_then (db.exec end_transaction d₃) (db.exec (pragma_synchronous 1)))

  rows_and_end-IsAtomic :
      (c : UimfCalibration R) (frame : UimfFrame) (before : List (ScanRow R)) (d : D)
      → h.committed d ≡ before
      → h.pending d ≡ some []
      → IsAtomic before (write_rows c frame frame.encoded_data) (rows_and_end c frame d)
  unfolding Inserts
  rows_and_end-IsAtomic c frame before d e p =
      let inserts = insert_rows-Inserts c frame frame.encoded_data d [] p in
      and_then-Holds (IsAtomic before (write_rows c frame frame.encoded_data))
        (insert_rows db c frame frame.encoded_data d)
        (λ d₃. and_then (db.exec end_transaction d₃) (db.exec (pragma_synchronous 1)))
        (λ f. threw-IsAtomic before _ _ (inserts.kept ∙ e))
        (λ f. end-IsAtomic before _ _ (inserts.kept ∙ e) (inserts.held f))

  write_batch-IsAtomic :
      (c : UimfCalibration R) (frame : UimfFrame) (d : D)
      → IsAtomic (h.committed d) (write_rows c frame frame.encoded_data) (write_batch db c frame d)
  unfolding write_batch
  write_batch-IsAtomic c frame d =
      and_then-Holds (IsAtomic (h.committed d) (write_rows c frame frame.encoded_data))
        (db.exec (pragma_synchronous 0) d)
        (λ d₁. and_then (db.exec begin_transaction d₁) (rows_and_end c frame))
        (λ e. threw-IsAtomic _ _ _ (h.failed (pragma_synchronous 0) d e))
        (λ e.
          let off = (h.set 0 d e).0 in
          and_then-Holds (IsAtomic (h.committed d) (write_rows c frame frame.encoded_data))
            (db.exec begin_transaction (db.exec (pragma_synchronous 0) d).0) (rows_and_end c frame)
            (λ f. threw-IsAtomic _ _ _ (h.failed begin_transaction _ f ∙ off))
            (λ f.
              let begun = h.begun _ f in rows_and_end-IsAtomic c frame _ _ (begun.0 ∙ off) begun.1))

  close-IsAtomic :
      (before rows : List (ScanRow R)) (r : D × Bool)
      → IsAtomic before rows r
      → IsAtomic before rows (db.close r.0, r.1)
  close-IsAtomic before rows (d, b) (inl (e, f)) = inl (h.closed d ∙ e, f)
  close-IsAtomic before rows (d, b) (inr e) = inr (h.closed d ∙ e)

  abbrev opened_rows : UimfFrame → Option D → List (ScanRow R)
  opened_rows frame none = []
  opened_rows frame (some e) = write_rows (batch_calibration db frame e) frame frame.encoded_data

  -- What one batch adds to the file: its written rows under the calibration that the file states.
  abbrev pub batch_rows : UimfFrame → D → List (ScanRow R)
  batch_rows frame d = opened_rows frame (db.open_readwrite d)

  opened-IsAtomic :
      (frame : UimfFrame) (d : D) (o : Option D)
      → db.open_readwrite d ≡ o
      → IsAtomic (h.committed d) (opened_rows frame o) (write_opened db frame d o)
  opened-IsAtomic frame d none e = threw-IsAtomic (h.committed d) [] d refl
  opened-IsAtomic frame d (some f) e =
      close-IsAtomic (h.committed d) _ (write_batch db (batch_calibration db frame f) frame f) (
        subst
          (λ rows.
            IsAtomic rows (opened_rows frame (some f))
              (write_batch db (batch_calibration db frame f) frame f))
          (h.opened d f e).0 (write_batch-IsAtomic (batch_calibration db frame f) frame f))

  -- Over any database that keeps what SQLite says of transactions, a batch reaches its file whole and in
  -- order, or nothing of it does, whichever statement throws; and if none throws, it does.
  pub on_notify-IsAtomic :
      (frame : UimfFrame) (d : D)
      → IsAtomic (h.committed d) (batch_rows frame d) (on_notify db frame d)
  unfolding on_notify
  on_notify-IsAtomic frame d = opened-IsAtomic frame d (db.open_readwrite d) refl

  opened-IsKept :
      (frame : UimfFrame) (d : D) (o : Option D)
      → db.open_readwrite d ≡ o
      → IsKept frame (h.committed d) (h.committed (write_opened db frame d o).0)
  opened-IsKept frame d none e = inl refl
  opened-IsKept frame d (some f) e = elim (opened-IsAtomic frame d (some f) e) [
    | inl same ↦ inl same.0
    | inr more ↦ inr (batch_calibration db frame f, more)
  ]

  pub on_notify-IsKept :
      (frame : UimfFrame) (d : D)
      → IsKept frame (h.committed d) (h.committed (on_notify db frame d).0)
  unfolding on_notify
  on_notify-IsKept frame d = opened-IsKept frame d (db.open_readwrite d) refl
