-- ===== src/Zs1/Bounds.antt =====
-- The markers buffer of libaqmd3/src/cstzs1context.cpp, and what is read of it and written to it.
use aq_md3_acquisition_conso.Common.{
  ℕ, zero, suc, ◌+◌, ◌-◌, ◌*◌, ◌/◌, ◌≤◌, ◌≡◌, refl, ap, ◌∙◌, Bool, List, [], ◌∷◌, arith, length,
  All, length-replicate,
}
use aq_md3_acquisition_conso.Common.Int.{ℤ, pos_part}
use aq_md3_acquisition_conso.Buffer.{
  AcquisitionBuffer, create_sized, get_size, get_unprocessed, get_raw_unaquired, advance_processed,
  advance_acquired, advance_offset, reset, write_at,
}
use aq_md3_acquisition_conso.Buffer.Bounds.{IsOrdered, length-write_at}
use aq_md3_acquisition_conso.Stream.{Fetch}
use aq_md3_acquisition_conso.Zs1.Marker.{markers_hunk_size}
use aq_md3_acquisition_conso.Zs1.{
  Zs1Context, Walk, fresh_walk, create, note_trigger, gate_hunk_step, trigger_hunk_step, hunk_step,
  next_hunk, walk, Walked, onward, full, failed, and_then,
}
use aq_md3_acquisition_conso.Zs1.Hunks.{entries_step-buffer}
use aq_md3_acquisition_conso.Zs1.Acquire.{
  Outcome, returned, threw, waiting, reset_markers, with_markers, written, absorbed, received,
  markers_request, next_request, grown, after_walk, fetches, collect,
}
use aq_md3_acquisition_conso.Zs1.Requests.{IsRequest}

-- The buffer that the constructor makes holds any request that an acquire of no more triggers than
-- it was made for can come to, with 15 elements to spare for the driver's first valid index.
pub request_fits :
    (max_triggers t m : ℕ) (request : ℤ)
    → t ≤ max_triggers
    → IsRequest t request m
    → pos_part request + 15 ≤ get_size (create max_triggers).markers_buffer
unfolding create create_sized get_size
request_fits max_triggers t m request le v =
    let most : t * 16 * m ≤ max_triggers * 16 * 8 = grind (arith, v.most) in
    ground (arith, v.value, length-replicate (max_triggers * 16 * 8 + 15) (let z : ℕ = 0 in z))

-- The buffer's counters in order, in an array of a known size.
pub record Holds (size : ℕ) (b : AcquisitionBuffer) : Type 0 where
  pub ordered : IsOrdered b
  pub sized : length b.elements ≡ size

-- An answer that writes no more than the buffer holds, its valid elements among what it wrote.
abbrev pub Fits : ℕ → Fetch → Type 0
Fits size f = (f.first_valid_element + f.actual_elements ≤ length f.words) × (length f.words ≤ size)

abbrev Steps : Walk → Walked → Type 0
Steps s (onward s') =
    s'.context.markers_buffer ≡ advance_processed markers_hunk_size s.context.markers_buffer
Steps s (full s') = s'.context.markers_buffer ≡ s.context.markers_buffer
Steps s (failed e c) = c.markers_buffer ≡ s.context.markers_buffer

hunk_step-Steps : (t r : ℕ) (h : List ℕ) (s : Walk) → Steps s (hunk_step t r h s)
unfolding hunk_step trigger_hunk_step note_trigger gate_hunk_step
hunk_step-Steps t r h s = ground (arith, entries_step-buffer 4 r h s)

abbrev Kept : ℕ → Walked → Type 0
Kept size (onward s) = Holds size s.context.markers_buffer
Kept size (full s) = Holds size s.context.markers_buffer
Kept size (failed e c) = Holds size c.markers_buffer

advance-Holds :
    (size : ℕ) (b : AcquisitionBuffer)
    → b.processed_index + 16 ≤ b.acquired_index
    → Holds size b
    → Holds size (advance_processed markers_hunk_size b)
unfolding advance_processed
advance-Holds size b h v = record {
  ordered = record { processed = h; fits = v.ordered.fits };
  sized = v.sized;
}

advanced-left :
    (n : ℕ) (b : AcquisitionBuffer)
    → b.processed_index + 16 * suc n ≤ b.acquired_index
    → let b' = advance_processed markers_hunk_size b in
      b'.processed_index + 16 * n ≤ b'.acquired_index
unfolding advance_processed
advanced-left n b h = omega arith

-- Each of `n` hunks is read where all its 16 elements were acquired.
walk-Kept :
    (size t r n : ℕ) (s : Walk)
    → Holds size s.context.markers_buffer
    → s.context.markers_buffer.processed_index + 16 * n ≤ s.context.markers_buffer.acquired_index
    → Kept size (walk t r n s)
unfolding walk
walk-Kept size t r zero s v h = v
walk-Kept size t r (suc n) s v h =
    go (hunk_step t r (next_hunk s.context.markers_buffer) s)
      (hunk_step-Steps t r (next_hunk s.context.markers_buffer) s) (λ s'. walk-Kept size t r n s')
  where
    go :
        (w : Walked)
        → Steps s w
        → ((s' : Walk)
            → Holds size s'.context.markers_buffer
            → s'.context.markers_buffer.processed_index + 16 * n
              ≤ s'.context.markers_buffer.acquired_index
            → Kept size (walk t r n s'))
        → Kept size (and_then w (λ s'. walk t r n s'))
    go (onward s') e k =
        k s' (rw e (advance-Holds size s.context.markers_buffer (omega arith) v))
          (rw e (advanced-left n s.context.markers_buffer h))
    go (full s') e k = rw e v
    go (failed d c) e k = rw e v

abbrev pub Left : ℕ → Outcome Walk → Type 0
Left size (returned s fs) = Holds size s.context.markers_buffer
Left size (threw e c) = Holds size c.markers_buffer
Left size waiting = Unit

after_walk-Left :
    (size : ℕ) (w : Walked) (fs : List Fetch) (k : Walk → Outcome Walk)
    → Kept size w
    → ((s : Walk) → Holds size s.context.markers_buffer → Left size (k s))
    → Left size (after_walk w fs k)
after_walk-Left size (onward s) fs k v h = h s v
after_walk-Left size (full s) fs k v h = v
after_walk-Left size (failed e c) fs k v h = v

-- A buffer that was reset, perhaps with words written to its front since.
record IsClear (size : ℕ) (b : AcquisitionBuffer) : Type 0 where
  acquired : b.acquired_index ≡ 0
  processed : b.processed_index ≡ 0
  moved : b.offset ≡ 0
  sized : length b.elements ≡ size

reset-IsClear : (size : ℕ) (b : AcquisitionBuffer) → Holds size b → IsClear size (reset b)
unfolding reset
reset-IsClear size b v = record { acquired = refl; processed = refl; moved = refl; sized = v.sized }

clear-Holds : (size : ℕ) (b : AcquisitionBuffer) → IsClear size b → Holds size b
clear-Holds size b v = ground (arith, v.sized)

length-written :
    (size : ℕ) (f : Fetch) (b : AcquisitionBuffer)
    → Fits size f
    → IsClear size b
    → length (written f b).elements ≡ size
unfolding written get_raw_unaquired
length-written size f b h v =
    length-write_at (b.acquired_index + b.offset) f.words b
      (omega (arith, v.acquired, v.moved, v.sized, h.1))
    ∙ v.sized

written-IsClear :
    (size : ℕ) (f : Fetch) (b : AcquisitionBuffer)
    → Fits size f
    → IsClear size b
    → IsClear size (written f b)
written-IsClear size f b h v = record {
  acquired = unfold written write_at in v.acquired;
  processed = unfold written write_at in v.processed;
  moved = unfold written write_at in v.moved;
  sized = length-written size f b h v;
}

absorbed-counters :
    (f : Fetch) (b : AcquisitionBuffer)
    → ((absorbed f b).acquired_index ≡ b.acquired_index + f.actual_elements)
      × ((absorbed f b).offset ≡ b.offset + f.first_valid_element)
      × ((absorbed f b).processed_index ≡ b.processed_index)
      × ((absorbed f b).elements ≡ b.elements)
unfolding absorbed advance_acquired advance_offset
absorbed-counters f b = (refl, refl, refl, refl)

absorbed-Holds :
    (size : ℕ) (f : Fetch) (b : AcquisitionBuffer)
    → Fits size f
    → IsClear size b
    → Holds size (absorbed f b)
      × ((absorbed f b).processed_index + 16 * (f.actual_elements / 16)
          ≤ (absorbed f b).acquired_index)
absorbed-Holds size f b h v =
    let (a, o, p, e) = absorbed-counters f b in
    (
      record {
        ordered = record {
          processed = omega (arith, a, p, v.acquired, v.processed);
          fits = omega (arith, a, o, ap length e, v.acquired, v.moved, v.sized, h.0, h.1);
        };
        sized = omega (arith, ap length e, v.sized);
      },
      omega (arith, a, p, v.acquired, v.processed),
    )

module _ (size t r : ℕ) (use_timeout : Bool) where
  fetches-Left :
      (fs : List Fetch) (request : ℤ) (m : ℕ) (s : Walk)
      → All (Fits size) fs
      → IsClear size s.context.markers_buffer
      → Left size (fetches t r use_timeout fs request m s)
  unfolding fetches received
  fetches-Left [] request m s h v = ground (arith, clear-Holds size s.context.markers_buffer v)
  fetches-Left (f ∷ fs) request m s h v =
      let clear = written-IsClear size f s.context.markers_buffer h.0 v in
      let held = absorbed-Holds size f (written f s.context.markers_buffer) h.0 clear in
      ground (
        arith,
        clear-Holds size s.context.markers_buffer v,
        clear-Holds size (written f s.context.markers_buffer) clear,
        fetches-Left fs request m (with_markers (written f) s) h.1 clear,
        after_walk-Left size (walk t r (f.actual_elements / 16) (received f s)) fs
            (λ s'.
              fetches t r use_timeout fs (next_request t f request m) (grown f request m)
                (reset_markers s'))
            (walk-Kept size t r (f.actual_elements / 16) (received f s) held.0 held.1)
            (λ s' v'.
              fetches-Left fs (next_request t f request m) (grown f request m) (reset_markers s')
                h.1 (reset-IsClear size s'.context.markers_buffer v')),
      )

  -- Let every answer write no more than the markers buffer holds, with its valid elements among what
  -- it wrote. However a collection of markers then ends, the buffer keeps its size, the elements it
  -- has processed are among those acquired, and those end inside the buffer.
  pub collect-Left :
      (fs : List Fetch) (c : Zs1Context)
      → All (Fits size) fs
      → Holds size c.markers_buffer
      → Left size (collect t r use_timeout fs c)
  unfolding collect get_unprocessed
  collect-Left fs c h v = ground (
    arith,
    v,
    after_walk-Left size
        (walk t r ((c.markers_buffer.acquired_index - c.markers_buffer.processed_index) / 16)
          (fresh_walk c))
        fs (λ s'. fetches t r use_timeout fs (markers_request t 1) 1 (reset_markers s'))
        (walk-Kept size t r
          ((c.markers_buffer.acquired_index - c.markers_buffer.processed_index) / 16) (fresh_walk c)
          v (omega (arith, v.ordered.processed)))
        (λ s' v'.
          fetches-Left fs (markers_request t 1) 1 (reset_markers s') h
            (reset-IsClear size s'.context.markers_buffer v')),
    v.ordered.processed,
  )
