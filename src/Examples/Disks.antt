-- ===== src/Examples/Disks.antt =====
-- A frame of one scan on its way to a file whose database fails once (UIMFWriter/src/UIMFWriter.cpp).
use aq_md3_acquisition_conso.Common.{refl, false, [], ◌∷◌, arith}
use aq_md3_acquisition_conso.Encode.{UimfFrameParameters, UimfAcquisitionRecord, UimfFrame}
use aq_md3_acquisition_conso.Publish.Events.{records, events_of}
use aq_md3_acquisition_conso.Queue
use aq_md3_acquisition_conso.Queue.{Subscriber, frame_type, shares}
use aq_md3_acquisition_conso.Writer.Transaction.{on_notify_all}
use aq_md3_acquisition_conso.Pipeline.Rows.{forwarded}
use aq_md3_acquisition_conso.Pipeline.Delivery.{worked}
use aq_md3_acquisition_conso.Pipeline.Disk.{IsFiled, worked-IsFiled}
use aq_md3_acquisition_conso.Examples.Files.{whole}
use aq_md3_acquisition_conso.Examples.Databases.{toy, toy-IsTransactional, at_third}
use aq_md3_acquisition_conso.Examples.Frames.{
  card, machine, begun, one_scan, idles, starts, at_end, at_end-Reach, at_end_over,
}

abbrev to_file : UimfFrameParameters
to_file = record one_scan { file_name = 97 ∷ [] }

abbrev subject_end : Subscriber UimfAcquisitionRecord
subject_end = at_end (records (events_of (worked card false 1 3 to_file (machine 0))))

abbrev writer_end : Subscriber UimfFrame
writer_end = at_end (forwarded Queue.acquire_frame subject_end.notified)

worked-IsFiled_example :
    IsFiled card false 1 3 to_file
      (machine 0)
      ⦃real = whole⦄
      toy
      toy-IsTransactional
      (toy-IsTransactional.committed at_third)
      (toy-IsTransactional.committed
        (on_notify_all ⦃real = whole⦄ toy writer_end.notified at_third))
unfolding frame_type shares
worked-IsFiled_example =
    worked-IsFiled card false 1 3 to_file (machine 0) ⦃real = whole⦄ toy toy-IsTransactional
      (machine 1) begun subject_end Queue.acquire_frame writer_end at_third (omega arith)
      (omega arith) (omega arith) idles starts refl (at_end-Reach _) (at_end_over _)
      (at_end-Reach _) (at_end_over _)
