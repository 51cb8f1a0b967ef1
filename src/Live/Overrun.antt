-- ===== src/Live/Overrun.antt =====
-- Long rows in ZmqAcquiredDataSubscriber::on_notify
-- (AqMD3_console/src/zmqacquireddatasubscriber.cpp, line 119).
use aq_md3_acquisition_conso.Common.{
  ℕ, suc, ◌+◌, ◌≤◌, ◌<◌, ◌≡◌, ap, ◌∙◌, List, [], ◌∷◌, length, replicate, get_or, length-set,
  length-replicate, map, arith,
}
use aq_md3_acquisition_conso.Common.Int.{pos}
use aq_md3_acquisition_conso.Common.Word.{u32}
use aq_md3_acquisition_conso.Encode.{EncodedResult, UimfFrame}
use aq_md3_acquisition_conso.Live.{
  ZmqAcquiredDataSubscriber, wild, add_at, add_values, add_rows, and_row, check_alignment,
  undefined, after, publish, on_notify,
}

add_values_past_end :
    (vals : List ℕ) (index : ℕ) (vec : List ℕ)
    → index ≤ length vec
    → length vec < index + length vals
    → add_values (map pos vals) index vec ≡ wild (length vec)
unfolding add_values
add_values_past_end [] index vec h k = absurd (omega arith)
add_values_past_end (v ∷ vals) index vec h k =
    let same : length (add_at vec index v) ≡ length vec =
      length-set vec index (u32 (get_or vec index 0 + v)) in
    ground (
      arith,
      λ (lt : index < length vec).
          add_values_past_end vals (suc index) (add_at vec index v) (omega (arith, same, lt))
            (omega (arith, same))
          ∙ ap wild same,
    )

-- A batch whose first row consists of samples alone, without a run of empty bins before or between
-- them, and stores more of them than the live vector has bins, is written past the vector's end: the
-- behaviour is undefined.
pub on_notify_undefined :
    (item : UimfFrame) (s : ZmqAcquiredDataSubscriber) (er : EncodedResult)
    (rows : List EncodedResult) (vals : List ℕ)
    → item.encoded_data ≡ er ∷ rows
    → er.encoded_spectra ≡ map pos vals
    → length s.data_vector < length vals
    → on_notify item s ≡ undefined (length s.data_vector)
unfolding on_notify publish add_rows
on_notify_undefined item s er rows vals e spectra long =
    let zeros : List ℕ = replicate (length s.data_vector) 0 in
    let size : length zeros ≡ length s.data_vector = length-replicate (length s.data_vector) 0 in
    let overrun : add_values er.encoded_spectra 0 zeros ≡ wild (length s.data_vector) =
      ap (λ x. add_values x 0 zeros) spectra
      ∙ add_values_past_end vals 0 zeros (omega arith) (omega (arith, size))
      ∙ ap wild size in
    ap (λ x. after (check_alignment s item) (publish s item (add_rows x zeros))) e
    ∙ ap
        (λ x.
          after (check_alignment s item)
            (publish s item (and_row x er.scan (λ sums. add_rows rows sums))))
        overrun
