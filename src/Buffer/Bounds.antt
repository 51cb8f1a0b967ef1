-- ===== src/Buffer/Bounds.antt =====
-- The order of a buffer's counters (libaqmd3/src/acquisitionbuffer.cpp).
use aq_md3_acquisition_conso.Common.{
  ℕ, ◌+◌, ◌-◌, ◌≤◌, ◌≡◌, List, ◌++◌, arith, length, take, drop, length-append, length-take,
  length-drop,
}
use aq_md3_acquisition_conso.Common.Int.{pos}
use aq_md3_acquisition_conso.Buffer.{
  AcquisitionBuffer, create, get_size, get_available, get_unprocessed, get_raw_unprocessed,
  get_raw_unaquired, advance_acquired, advance_offset, reset, write_at,
}

pub record IsOrdered (b : AcquisitionBuffer) : Type 0 where
  pub processed : b.processed_index ≤ b.acquired_index
  pub fits : b.acquired_index + b.offset ≤ length b.elements

pub create-IsOrdered : (triggers samples : ℕ) → IsOrdered (create triggers samples)
unfolding create
create-IsOrdered triggers samples = record { processed = omega arith; fits = omega arith }

pub reset-IsOrdered : (b : AcquisitionBuffer) → IsOrdered (reset b)
unfolding reset
reset-IsOrdered b = record { processed = omega arith; fits = omega arith }

pub length-write_at :
    (at : ℕ) (words : List ℕ) (b : AcquisitionBuffer)
    → at + length words ≤ length b.elements
    → length (write_at at words b).elements ≡ length b.elements
unfolding write_at
length-write_at at words b h = omega (
  arith,
  length-append (take at b.elements) (words ++ drop (at + length words) b.elements),
  length-append words (drop (at + length words) b.elements),
  length-take at b.elements,
  length-drop (at + length words) b.elements,
)

-- What one fetch does to the buffer it is handed: the words are written at the first free element,
-- then both counters move. The buffer stays in order if the valid elements end within the words
-- that were written, and those within the space that was free.
pub fetched-IsOrdered :
    (b : AcquisitionBuffer) (words : List ℕ) (first actual : ℕ)
    → IsOrdered b
    → first + actual ≤ length words
    → get_raw_unaquired b + length words ≤ get_size b
    → IsOrdered
        (advance_acquired actual (advance_offset first (write_at (get_raw_unaquired b) words b)))
unfolding advance_acquired advance_offset get_raw_unaquired get_size write_at
fetched-IsOrdered b words first actual v inside room = record {
  processed = omega (arith, v.processed);
  fits = omega (arith, length-write_at (b.acquired_index + b.offset) words b room);
}

-- With the counters in order, the space and the work that the methods report are the plain
-- differences, and neither is below zero.
pub counts_of_ordered :
    (b : AcquisitionBuffer)
    → IsOrdered b
    → (get_available b ≡ pos (get_size b - get_raw_unaquired b))
      × (get_unprocessed b ≡ pos (get_raw_unaquired b - get_raw_unprocessed b))
unfolding get_available get_unprocessed get_size get_raw_unaquired get_raw_unprocessed
counts_of_ordered b v = ground arith
