-- ===== src/Pool/Growth.antt =====
-- When the pool makes a new buffer, and what it then reports as available.
use native.Mathlib.Nat.{mod-eq_of_lt, mod-add-mod, add-mod_right}
use aq_md3_acquisition_conso.Common.{
  ℕ, ◌+◌, ◌-◌, ◌%◌, ◌^◌, ◌≤◌, ◌<◌, ◌≡◌, refl, sym, ◌∙◌, ◌⊎◌, inl, inr, false, Option, none, some,
  List, [], ◌∷◌, arith, leb, length, get_elem?, length-append, length-set, Bool-cases,
  if◌then◌else◌,
}
use aq_md3_acquisition_conso.Common.Word.{u64, sub64}
use aq_md3_acquisition_conso.Buffer.{reset}
use aq_md3_acquisition_conso.Pool.{
  Slot, AcquisitionBufferPool, find_free, is_free, held, with_found, get_buffer, available_from,
  get_available_buffers,
}
use aq_md3_acquisition_conso.Pool.Laws.{IsFreeAt, free_slot, find_free-IsFreeAt, find_free-none}

rotated :
    (takes total j k : ℕ)
    → j < total
    → k < total
    → takes + total < 2 ^ 64
    → (takes % total + k ≡ j) ⊎ (takes % total + k ≡ j + total)
    → u64 (takes + k) % total ≡ j
rotated takes total j k lt small_k small (inl e) =
    let whole : u64 (takes + k) ≡ takes + k = omega arith in
    rw whole (sym (mod-add-mod takes total k) ∙ rw e (mod-eq_of_lt lt))
rotated takes total j k lt small_k small (inr e) =
    let whole : u64 (takes + k) ≡ takes + k = omega arith in
    rw whole (sym (mod-add-mod takes total k) ∙ rw e (add-mod_right j total ∙ mod-eq_of_lt lt))

-- The rounds visit every slot.
round_of :
    (takes total j : ℕ)
    → j < total
    → takes + total < 2 ^ 64
    → (k : ℕ) × (k < total) × (u64 (takes + k) % total ≡ j)
round_of takes total j lt small =
    let below : takes % total < total = omega arith in
    elim (Bool-cases (leb (takes % total) j)) [
      | inl le ↦
          let fits : takes % total ≤ j = ground arith in
          (
            j - takes % total,
            omega arith,
            rotated takes total j (j - takes % total) lt (omega arith) small (inl (omega arith)),
          )
      | inr gt ↦
          let past : j < takes % total = ground arith in
          (
            j + total - takes % total,
            omega arith,
            rotated takes total j (j + total - takes % total) lt (omega arith) small
                (inr (omega arith)),
          )
    ]

-- Some slot is free.
abbrev pub HasFree : List Slot → Type 0
HasFree slots = (j : ℕ) × (j < length slots) × IsFreeAt slots j

-- While one of its buffers is free the pool makes no new one. (The count of takes has not wrapped.)
pub get_buffer_reuses :
    (p : AcquisitionBufferPool)
    → HasFree p.samples_buffer_pool
    → p.buffer_takes + length p.samples_buffer_pool < 2 ^ 64
    → length (get_buffer p).0.samples_buffer_pool ≡ length p.samples_buffer_pool
unfolding get_buffer
get_buffer_reuses p (j, lt, free) small = go (find_free slots p.buffer_takes 0 (length slots)) refl
  where
    slots : List Slot
    slots = p.samples_buffer_pool

    go :
        (o : Option ℕ)
        → find_free slots p.buffer_takes 0 (length slots) ≡ o
        → length (with_found p o).0.samples_buffer_pool ≡ length slots
    go none e =
        let (k, small_k, there) = round_of p.buffer_takes (length slots) j lt small in
        let busy : is_free (get_elem? slots (u64 (p.buffer_takes + k) % length slots)) ≡ false =
          find_free-none slots p.buffer_takes 0 (length slots) k e (omega arith) (omega arith) in
        let busy_there : is_free (get_elem? slots j) ≡ false = rw there at busy in
        absurd (ground arith)
    go (some index) e =
        let (s, at, _) =
          free_slot (get_elem? slots index)
            (find_free-IsFreeAt slots p.buffer_takes 0 (length slots) index e) in
        rw at (length-set slots index (held (record s { buffer = reset s.buffer })))

-- Every slot is held by somebody outside the pool.
abbrev pub AllHeld : List Slot → Type 0
AllHeld slots = (j : ℕ) → is_free (get_elem? slots j) ≡ false

-- When every buffer is held the pool makes one more, whatever `buffer_max_count` is: that number
-- bounds nothing but the count that `get_available_buffers` reports.
pub get_buffer_grows :
    (p : AcquisitionBufferPool)
    → AllHeld p.samples_buffer_pool
    → length (get_buffer p).0.samples_buffer_pool ≡ length p.samples_buffer_pool + 1
unfolding get_buffer
get_buffer_grows p h = go (find_free slots p.buffer_takes 0 (length slots)) refl
  where
    slots : List Slot
    slots = p.samples_buffer_pool

    go :
        (o : Option ℕ)
        → find_free slots p.buffer_takes 0 (length slots) ≡ o
        → length (with_found p o).0.samples_buffer_pool ≡ length slots + 1
    go none e = length-append slots _
    go (some index) e =
        let free = find_free-IsFreeAt slots p.buffer_takes 0 (length slots) index e in
        let busy = h index in absurd (ground arith)

-- How many buffers are in use.
abbrev pub in_use : List Slot → ℕ
in_use [] = 0
in_use (s ∷ ss) = (if leb 1 s.holders then 1 else 0) + in_use ss

available_from-le :
    (slots : List Slot) (count : ℕ)
    → count < 2 ^ 64
    → in_use slots ≤ count
    → available_from count slots ≡ count - in_use slots
unfolding available_from
available_from-le [] count b h = omega arith
available_from-le (s ∷ ss) count b h =
    ground (arith, available_from-le ss (sub64 count 1), available_from-le ss count)

-- The count of available buffers is what the largest number leaves, while no more are in use.
pub get_available_buffers-eq-sub :
    (p : AcquisitionBufferPool)
    → p.buffer_max_count < 2 ^ 64
    → in_use p.samples_buffer_pool ≤ p.buffer_max_count
    → get_available_buffers p ≡ p.buffer_max_count - in_use p.samples_buffer_pool
unfolding get_available_buffers
get_available_buffers-eq-sub p b h = available_from-le p.samples_buffer_pool p.buffer_max_count b h
