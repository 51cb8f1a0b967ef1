-- ===== src/Pool.antt =====
-- libaqmd3: AcquisitionBufferPool (libaqmd3/include/libaqmd3/acquisitionbufferpool.h and
-- libaqmd3/src/acquisitionbufferpool.cpp). The pool shares its buffers with the consumers of the
-- acquired data; `use_count()` of a slot is 1 for the pool and 1 for each holder outside it.
pub mod Laws
pub mod Growth
use aq_md3_acquisition_conso.Common.{
  ℕ, zero, suc, ◌+◌, ◌%◌, Bool, true, false, Option, none, some, List, [], ◌∷◌, ◌==◌, leb,
  if◌then◌else◌, length, get_elem?, set, replicate, push_back,
}
use aq_md3_acquisition_conso.Common.Word.{u64, sub64}
use aq_md3_acquisition_conso.Buffer.{AcquisitionBuffer, create, reset}

pub record Slot : Type 0 where
  pub buffer : AcquisitionBuffer
  pub holders : ℕ

abbrev pub use_count : Slot → ℕ
use_count s = s.holders + 1

pub record AcquisitionBufferPool : Type 0 where
  pub samples_buffer_pool : List Slot
  pub buffer_takes : ℕ
  pub buffer_max_count : ℕ
  pub buffer_initial_count : ℕ
  pub max_triggers_per_read : ℕ
  pub samples_per_trigger : ℕ

unfoldable pub create_pool : ℕ → ℕ → ℕ → ℕ → AcquisitionBufferPool
create_pool max_triggers_per_read samples_per_trigger buffer_initial_count buffer_max_count =
    record {
      samples_buffer_pool =
          replicate buffer_initial_count
            (record { buffer = create max_triggers_per_read samples_per_trigger; holders = 0 });
      buffer_takes = 0;
      buffer_max_count = buffer_max_count;
      buffer_initial_count = buffer_initial_count;
      max_triggers_per_read = max_triggers_per_read;
      samples_per_trigger = samples_per_trigger;
    }

-- The count starts at the largest number of buffers and wraps, as a `size_t` does.
unfoldable pub available_from : ℕ → List Slot → ℕ
available_from count [] = count
available_from count (s ∷ ss) =
    available_from (if leb 2 (use_count s) then sub64 count 1 else count) ss

unfoldable pub get_available_buffers : AcquisitionBufferPool → ℕ
unfolding available_from
get_available_buffers p = available_from p.buffer_max_count p.samples_buffer_pool

abbrev pub is_free : Option Slot → Bool
is_free none = false
is_free (some s) = use_count s == 1

-- The `for` of `get_buffer`, from round `i` with `left` rounds to go: the first free slot.
unfoldable pub find_free : List Slot → ℕ → ℕ → ℕ → Option ℕ
find_free slots takes i zero = none
find_free slots takes i (suc left) =
    let rest = find_free slots takes (i + 1) left in
    let index = u64 (takes + i) % length slots in
    if is_free (get_elem? slots index) then some index else rest

-- A new shared pointer to the slot's buffer, outside the pool.
abbrev pub held : Slot → Slot
held s = record s { holders = suc s.holders }

abbrev pub take_slot : AcquisitionBufferPool → ℕ → Option Slot → AcquisitionBufferPool × ℕ
take_slot p index none = (p, index)
take_slot p index (some s) = (
  record p {
    samples_buffer_pool =
        set p.samples_buffer_pool index (held (record s { buffer = reset s.buffer }));
    buffer_takes = u64 (p.buffer_takes + 1);
  },
  index,
)

abbrev pub add_slot : AcquisitionBufferPool → AcquisitionBufferPool × ℕ
add_slot p = (
  record p {
    samples_buffer_pool = push_back p.samples_buffer_pool (
        held
          (record { buffer = create p.max_triggers_per_read p.samples_per_trigger; holders = 0 }));
    buffer_takes = u64 (p.buffer_takes + 1);
  },
  length p.samples_buffer_pool,
)

abbrev pub with_found : AcquisitionBufferPool → Option ℕ → AcquisitionBufferPool × ℕ
with_found p none = add_slot p
with_found p (some index) = take_slot p index (get_elem? p.samples_buffer_pool index)

-- The new pool, and the slot whose buffer the caller now holds.
unfoldable pub get_buffer : AcquisitionBufferPool → AcquisitionBufferPool × ℕ
unfolding find_free
get_buffer p =
    with_found p (find_free p.samples_buffer_pool p.buffer_takes 0 (length p.samples_buffer_pool))
