-- ===== src/Pipeline/Disk.antt =====
-- A frame on its way from the card to its file: the acquisition thread, the subject, the queue of the
-- file writer, and the writer over a database that may fail (AqMD3_console/src/acquirepublisher.cpp,
-- AqMD3_console/src/processsubject.cpp, AqMD3_console/src/uimfframewritersubscriber.cpp,
-- UIMFWriter/src/UIMFWriter.cpp).
use aq_md3_acquisition_conso.Common.{
  ℕ, zero, suc, ◌^◌, ◌≤◌, ◌<◌, ◌≡◌, ◌⊎◌, inl, inr, refl, ap, subst, Bool, true, false, some, List,
  [], ◌∷◌, ◌++◌, length, All, arith,
}
use aq_md3_acquisition_conso.Common.Int.{pos}
use aq_md3_acquisition_conso.Card.{Driver}
use aq_md3_acquisition_conso.Encode.{
  UimfFrameParameters, UimfAcquisitionRecord, UimfFrame, EncodedResult,
}
use aq_md3_acquisition_conso.Publish.{stuck}
use aq_md3_acquisition_conso.Publish.Events.{records, events_of}
use aq_md3_acquisition_conso.Publish.Frame.{IsFrame}
use aq_md3_acquisition_conso.Queue.{Subscriber, SubscriberType, Reach, is_over, shares, frame_type}
use aq_md3_acquisition_conso.Pipeline.{Machine, zs1}
use aq_md3_acquisition_conso.Pipeline.Rows.{count_from, scans, rows, forwarded}
use aq_md3_acquisition_conso.Pipeline.Delivery.{worked, Arrives, worked-Arrives}
use aq_md3_acquisition_conso.Pipeline.Filed.{Rising, Counted, scan_nums, stored-Rising}
use aq_md3_acquisition_conso.Writer.{Real, ScanRow}
use aq_md3_acquisition_conso.Writer.Transaction.{Sqlite, IsTransactional, on_notify_all}
use aq_md3_acquisition_conso.Writer.Transaction.Batches.{on_notify_all-Stored}

count_from-Counted :
    (from n : ℕ) (ers : List EncodedResult)
    → scans ers ≡ count_from from n
    → Counted from ers × (length ers ≡ n)
count_from-Counted from zero [] e = (tt, refl)
count_from-Counted from (suc n) [] e = ground (arith, e)
count_from-Counted from zero (er ∷ ers) e = ground (arith, e)
count_from-Counted from (suc n) (er ∷ ers) e =
    let head : er.scan ≡ pos from = cc in
    let tail : scans ers ≡ count_from (suc from) n = cc in
    let rest = count_from-Counted (suc from) n ers tail in ((head, rest.0), ap suc rest.1)

same-start :
    (parameters : UimfFrameParameters) (frames : List UimfFrame)
    → All (λ (f : UimfFrame). f.parameters ≡ parameters) frames
    → All (λ (f : UimfFrame). f.parameters.start_trigger ≡ parameters.start_trigger) frames
same-start parameters [] h = tt
same-start parameters (f ∷ frames) h =
    (ap (λ (p : UimfFrameParameters). p.start_trigger) h.0, same-start parameters frames h.1)

module _ {ℓ κ} {R D : Type 0} (driver : Driver R D) (use_timeout : Bool) (segment_size fuel : ℕ)
    (parameters : UimfFrameParameters) (m : Machine D) {Q : Type ℓ} {F : Type κ} ⦃real : Real Q⦄
    (db : Sqlite Q F) (h : IsTransactional db) where
  -- What a file that held some rows holds after the frame.
  abbrev pub IsFiled : List (ScanRow Q) → List (ScanRow Q) → Type ℓ
  IsFiled before after =
      (worked driver use_timeout segment_size fuel parameters m ≡ stuck)
      ⊎ ((frame : IsFrame (zs1 driver use_timeout) parameters
            (worked driver use_timeout segment_size fuel parameters m))
          × (added : List (ScanRow Q)) × (after ≡ before ++ added)
          × Rising 0 frame.scans (scan_nums added))

  arrived-IsFiled :
      (notified : List UimfFrame) (d : F)
      → parameters.frame_length ≤ 2 ^ 31
      → Arrives driver use_timeout segment_size fuel parameters m notified
      → IsFiled (h.committed d) (h.committed (on_notify_all db notified d))
  arrived-IsFiled notified d short (inl e) = inl e
  arrived-IsFiled notified d short (inr (frame, counted, same)) =
      let file = on_notify_all-Stored db h notified d in
      let (from_zero, long) = count_from-Counted 0 frame.scans (rows notified) counted in
      let rising =
        stored-Rising parameters.start_trigger frame.scans 0 file.1
          (same-start parameters notified same) from_zero (omega (arith, long))
          (omega (arith, frame.no_more, short)) in
      inr (
        frame,
        file.0,
        file.2,
        subst (λ n. Rising n frame.scans (scan_nums file.0)) (omega arith) rising,
      )

  -- What a frame adds to its file, whatever the driver answers, however the threads interleave,
  -- whichever statements of the database throw, and whether the frame was whole, stopped or failed: rows
  -- whose scan numbers rise, so that none is there twice, from 0 on and below the number of scans that
  -- the thread counted. What the file held before stays. (The conditions are those under which the frame
  -- arrives at the writer's queue, and that the database keeps what SQLite says of transactions. Or the
  -- thread is stuck, where the fetch answers end.)
  pub worked-IsFiled :
      (idle started : Machine D) (subject : Subscriber UimfAcquisitionRecord)
      (wanted : SubscriberType) (client : Subscriber UimfFrame) (d : F)
      → 0 < segment_size
      → suc parameters.frame_length < fuel
      → parameters.frame_length ≤ 2 ^ 31
      → (zs1 driver use_timeout).get_is_acquiring m ≡ some (false, idle)
      → (zs1 driver use_timeout).start idle ≡ some started
      → shares (frame_type parameters) wanted ≡ true
      → Reach subject
          (records (events_of (worked driver use_timeout segment_size fuel parameters m)))
      → is_over subject ≡ true
      → Reach client (forwarded wanted subject.notified)
      → is_over client ≡ true
      → IsFiled (h.committed d) (h.committed (on_notify_all db client.notified d))
  worked-IsFiled idle started subject wanted client d some_size enough short is_idle starts gets
        reach over reach' over' =
      arrived-IsFiled client.notified d short (
        worked-Arrives driver use_timeout segment_size fuel parameters m idle started subject wanted
          client some_size enough short is_idle starts gets reach over reach' over')
