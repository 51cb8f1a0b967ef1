-- ===== src/Buffer.antt =====
-- libaqmd3: AcquisitionBuffer (libaqmd3/include/libaqmd3/acquisitionbuffer.h and
-- libaqmd3/src/acquisitionbuffer.cpp), a flat array of elements with three counters.
-- An element is the 32-bit pattern of an `int32_t`. The counters are C `int`s that the program only
-- moves forward from 0 and keeps within the array, so they are numbers; a pointer into the array is
-- its index.
pub mod Bounds
use aq_md3_acquisition_conso.Common.{
  ℕ, ◌+◌, ◌-◌, ◌*◌, List, [], ◌∷◌, ◌++◌, length, get_or, take, drop, replicate,
}
use aq_md3_acquisition_conso.Common.Int.{ℤ, sub_ℕ}

pub record AcquisitionBuffer : Type 0 where
  pub elements : List ℕ
  pub acquired_index : ℕ
  pub processed_index : ℕ
  pub offset : ℕ
  pub max_triggers_per_read : ℕ
  pub samples_per_trigger : ℕ

unfoldable pub create : ℕ → ℕ → AcquisitionBuffer
create max_triggers_per_read samples_per_trigger = record {
  elements = replicate (max_triggers_per_read * samples_per_trigger) 0;
  acquired_index = 0;
  processed_index = 0;
  offset = 0;
  max_triggers_per_read = max_triggers_per_read;
  samples_per_trigger = samples_per_trigger;
}

unfoldable pub create_sized : ℕ → AcquisitionBuffer
create_sized size = record {
  elements = replicate size 0;
  acquired_index = 0;
  processed_index = 0;
  offset = 0;
  max_triggers_per_read = 0;
  samples_per_trigger = 0;
}

-- A `std::vector` that is made with its size and never grows has that capacity.
unfoldable pub get_size : AcquisitionBuffer → ℕ
get_size b = length b.elements

-- `size_t` arithmetic read back as an `int`: below zero if the counters have passed the end.
unfoldable pub get_available : AcquisitionBuffer → ℤ
get_available b = sub_ℕ (length b.elements) (b.acquired_index + b.offset)

unfoldable pub get_unprocessed : AcquisitionBuffer → ℤ
get_unprocessed b = sub_ℕ b.acquired_index b.processed_index

unfoldable pub get_processed : AcquisitionBuffer → ℕ
get_processed b = b.processed_index

unfoldable pub get_acquired : AcquisitionBuffer → ℕ
get_acquired b = b.acquired_index

-- The pointers, as indices of the array.
unfoldable pub get_raw_unprocessed : AcquisitionBuffer → ℕ
get_raw_unprocessed b = b.processed_index + b.offset

unfoldable pub get_raw_unaquired : AcquisitionBuffer → ℕ
get_raw_unaquired b = b.acquired_index + b.offset

unfoldable pub advance_processed : ℕ → AcquisitionBuffer → AcquisitionBuffer
advance_processed num b = record b { processed_index = b.processed_index + num }

unfoldable pub advance_acquired : ℕ → AcquisitionBuffer → AcquisitionBuffer
advance_acquired num b = record b { acquired_index = b.acquired_index + num }

unfoldable pub advance_offset : ℕ → AcquisitionBuffer → AcquisitionBuffer
advance_offset num b = record b { offset = b.offset + num }

unfoldable pub reset : AcquisitionBuffer → AcquisitionBuffer
reset b = record b { processed_index = 0; acquired_index = 0; offset = 0 }

-- The element that a pointer `p` reads at `p[i]`; the reads of the program stay in the array.
abbrev pub element_at : AcquisitionBuffer → ℕ → ℕ
element_at b i = get_or b.elements i 0

-- What a writer that was handed the pointer `at` leaves behind: the words, over what was there.
unfoldable pub write_at : ℕ → List ℕ → AcquisitionBuffer → AcquisitionBuffer
write_at at words b = record b {
  elements = take at b.elements ++ (words ++ drop (at + length words) b.elements);
}
