-- ===== src/Writer/Transaction/Batches.antt =====
-- The batches that one file takes (AqMD3_console/src/uimfframewritersubscriber.cpp).
use aq_md3_acquisition_conso.Common.{
  ◌≡◌, inl, inr, sym, ap, ◌∙◌, List, [], ◌∷◌, ◌++◌, append-nil, append_assoc,
}
use aq_md3_acquisition_conso.Encode.{UimfFrame}
use aq_md3_acquisition_conso.Writer.{Real, UimfCalibration, ScanRow, write_rows}
use aq_md3_acquisition_conso.Writer.Transaction.{Sqlite, IsTransactional, on_notify, on_notify_all}
use aq_md3_acquisition_conso.Writer.Transaction.Atomic.{IsKept, on_notify-IsKept}

module _ {ℓ} {R : Type ℓ} ⦃real : Real R⦄ where
  -- A file's rows after some batches: of each batch in turn, all the rows written or none.
  pub data Stored : List UimfFrame → List (ScanRow R) → Type ℓ where
    nothing : Stored [] []
    lost :
        {frame : UimfFrame} {frames : List UimfFrame} {added : List (ScanRow R)}
        → Stored frames added
        → Stored (frame ∷ frames) added
    stored :
        {frame : UimfFrame} {frames : List UimfFrame} {added : List (ScanRow R)}
        (c : UimfCalibration R)
        → Stored frames added
        → Stored (frame ∷ frames) (write_rows c frame frame.encoded_data ++ added)

  abbrev pub StoredAfter : List (ScanRow R) → List UimfFrame → List (ScanRow R) → Type ℓ
  StoredAfter before frames after =
      (rows : List (ScanRow R)) × Stored frames rows × (after ≡ before ++ rows)

  one_more :
      (frame : UimfFrame) (frames : List UimfFrame) (before between : List (ScanRow R))
      → IsKept frame before between
      → (after : List (ScanRow R)) → StoredAfter between frames after
      → StoredAfter before (frame ∷ frames) after
  one_more frame frames before between (inl e) after (rows, s, f) =
      (rows, lost s, f ∙ ap (λ x. x ++ rows) e)
  one_more frame frames before between (inr (c, e)) after (rows, s, f) =
      (_, stored c s, f ∙ (ap (λ x. x ++ rows) e ∙ append_assoc before _ rows))

module _ {ℓ κ} {R : Type ℓ} {D : Type κ} ⦃real : Real R⦄ (db : Sqlite R D)
    (h : IsTransactional db) where
  -- Any batches of one file, one after another, each with the throws of its own, leave in the file what
  -- it held, and after it of each batch in its turn every row that is to be written, or none.
  pub on_notify_all-Stored :
      (frames : List UimfFrame) (d : D)
      → StoredAfter (h.committed d) frames (h.committed (on_notify_all db frames d))
  unfolding on_notify_all
  on_notify_all-Stored [] d = ([], nothing, sym (append-nil _))
  on_notify_all-Stored (frame ∷ frames) d =
      one_more frame frames (h.committed d) _ (on_notify-IsKept db h frame d)
        (h.committed (on_notify_all db frames (on_notify db frame d).0))
        (on_notify_all-Stored frames (on_notify db frame d).0)
