-- ===== src/Live.antt =====
-- The live stream: ZmqAcquiredDataSubscriber (AqMD3_console/src/zmqacquireddatasubscriber.cpp and
-- AqMD3_console/include/zmqacquireddatasubscriber.h), which sums a batch bin by bin and publishes it.
-- What it sends is a list of messages. Serialization, compression and the socket are other code's: a
-- message is given by what is put into it. The texts are the characters' codes, and a status message
-- is given by the numbers its text names.
pub mod Sums
pub mod Alignment
pub mod Overrun
use aq_md3_acquisition_conso.Common.{
  ℕ, zero, suc, ◌+◌, Bool, true, false, ◌||◌, List, [], ◌∷◌, ◌++◌, map, length, replicate, get_or,
  set, ◌==◌, leb, ltb, if◌then◌else◌,
}
use aq_md3_acquisition_conso.Common.Int.{ℤ, pos, negsuc, ltb_ℤ}
use aq_md3_acquisition_conso.Common.Word.{u32}
use aq_md3_acquisition_conso.Encode.{EncodedResult, UimfFrame}

-- A carriage return, a line feed and a tab become spaces. The status topic's helper, of which
-- acquirepublisher.cpp and server.cpp hold copies.
unfoldable pub one_line : List ℕ → List ℕ
one_line [] = []
one_line (character ∷ text) =
    (if (character == 13) || ((character == 10) || (character == 9)) then 32 else character)
    ∷ one_line text

pub record ZmqAcquiredDataSubscriber : Type 0 where
  -- `int32_t` sums, as the words of 32 bits that hold them; a sum too large wraps, as it does where the
  -- program is built.
  pub data_vector : List ℕ
  pub processed : ℕ
  pub first_sample_floor : ℤ

pub data Sent : Type 0 where
  -- Topic "data": the `tic`s, the time stamps and the `mz`.
  data_message : List ℤ → List ℕ → List ℕ → Sent
  -- Topic "status", "error data: samples misaligned (below of gates) in frame".
  samples_misaligned : ℕ → ℕ → ℕ → Sent
  -- Topic "status", "error data: index oob error -> index in scan of frame".
  index_oob : ℕ → ℤ → ℕ → Sent

-- The counts of `check_alignment`: the gates seen, those that open below the floor, and `opening`.
pub record Openings : Type 0 where
  pub gates : ℕ
  pub below : ℕ
  pub opening : Bool

unfoldable pub see_value : ℤ → ℤ → Openings → Openings
see_value floor (negsuc n) o = record o { opening = true }
see_value floor (pos v) o =
    if o.opening
    then record {
      gates = suc o.gates;
      below = if ltb_ℤ (pos v) floor then suc o.below else o.below;
      opening = false;
    }
    else o

unfoldable pub see_values : ℤ → List ℤ → Openings → Openings
see_values floor [] o = o
see_values floor (val ∷ vals) o = see_values floor vals (see_value floor val o)

unfoldable pub see_rows : ℤ → List EncodedResult → Openings → Openings
see_rows floor [] o = o
see_rows floor (er ∷ rows) o =
    see_rows floor rows (see_values floor er.encoded_spectra (record o { opening = true }))

unfoldable pub check_alignment : ZmqAcquiredDataSubscriber → UimfFrame → List Sent
check_alignment s item =
    let o =
      see_rows s.first_sample_floor item.encoded_data
        (record { gates = 0; below = 0; opening = true }) in
    if o.below == 0
    then []
    else samples_misaligned o.below o.gates item.parameters.frame_number ∷ []

-- What adding a row to the sums comes to. `wild` is the write at `index` past the vector's end, that
-- nothing guards against: undefined behaviour.
pub data Added : Type 0 where
  summed : List ℕ → Added
  refused : ℕ → List ℕ → Added
  wild : ℕ → Added

abbrev pub add_at : List ℕ → ℕ → ℕ → List ℕ
add_at vec index val = set vec index (u32 (get_or vec index 0 + val))

unfoldable pub add_values : List ℤ → ℕ → List ℕ → Added
add_values [] index vec = summed vec
add_values (negsuc n ∷ vals) index vec =
    if leb (length vec) (index + suc n)
    then refused (index + suc n) vec
    else add_values vals (index + suc n) vec
add_values (pos val ∷ vals) index vec =
    if ltb index (length vec)
    then add_values vals (suc index) (add_at vec index val)
    else wild index

-- The rows one by one, up to the one that is refused, whose scan is kept.
pub data Batch : Type 0 where
  all_summed : List ℕ → Batch
  row_refused : ℕ → ℤ → List ℕ → Batch
  row_wild : ℕ → Batch

abbrev pub and_row : Added → ℤ → (List ℕ → Batch) → Batch
and_row (summed vec) scan rest = rest vec
and_row (refused index vec) scan rest = row_refused index scan vec
and_row (wild index) scan rest = row_wild index

unfoldable pub add_rows : List EncodedResult → List ℕ → Batch
add_rows [] vec = all_summed vec
add_rows (er ∷ rows) vec =
    and_row (add_values er.encoded_spectra 0 vec) er.scan (λ sums. add_rows rows sums)

-- What a notification ends in: the subscriber and what it sent, or undefined behaviour.
pub data Notified : Type 0 where
  sent : ZmqAcquiredDataSubscriber → List Sent → Notified
  undefined : ℕ → Notified

unfoldable pub publish : ZmqAcquiredDataSubscriber → UimfFrame → Batch → Notified
publish s item (all_summed vec) =
    sent (record s { data_vector = vec; processed = suc s.processed })
      (data_message (map (λ er. er.tic) item.encoded_data)
          (map (λ er. er.timestamp) item.encoded_data) vec
        ∷ [])
publish s item (row_refused index scan vec) =
    sent (record s { data_vector = vec }) (index_oob index scan item.parameters.frame_number ∷ [])
publish s item (row_wild index) = undefined index

abbrev pub after : List Sent → Notified → Notified
after first (sent s messages) = sent s (first ++ messages)
after first (undefined index) = undefined index

-- The sums start from zero, whatever the batch before left.
unfoldable pub on_notify : UimfFrame → ZmqAcquiredDataSubscriber → Notified
on_notify item s =
    after (check_alignment s item)
      (publish s item (add_rows item.encoded_data (replicate (length s.data_vector) 0)))
