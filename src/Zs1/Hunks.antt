-- ===== src/Zs1/Hunks.antt =====
-- The markers buffer of libaqmd3/src/cstzs1context.cpp as a list of hunks, and a walk over such a list.
use aq_md3_acquisition_conso.Common.{
  ℕ, zero, suc, ◌+◌, ◌≡◌, refl, sym, ap, ◌∙◌, List, [], ◌∷◌, arith, take, drop,
}
use aq_md3_acquisition_conso.Buffer.{AcquisitionBuffer, get_raw_unprocessed, advance_processed}
use aq_md3_acquisition_conso.Zs1.Marker.{markers_hunk_size}
use aq_md3_acquisition_conso.Zs1.{
  Walk, note_trigger, note_gate, entry_step, entries_step, gate_hunk_step, trigger_hunk_step,
  hunk_step, next_hunk, walk, Walked, onward, full, failed, and_then,
}

-- The first `n` hunks of some words.
abbrev pub hunks : ℕ → List ℕ → List (List ℕ)
hunks zero ws = []
hunks (suc n) ws = take markers_hunk_size ws ∷ hunks n (drop markers_hunk_size ws)

-- The walk over a list of hunks.
unfoldable pub walk_list : ℕ → ℕ → List (List ℕ) → Walk → Walked
walk_list t r [] s = onward s
walk_list t r (h ∷ hs) s = and_then (hunk_step t r h s) (λ s'. walk_list t r hs s')

abbrev Advances : Walk → Walked → Type 0
Advances s (onward s') =
    s'.context.markers_buffer ≡ advance_processed markers_hunk_size s.context.markers_buffer
Advances s (full s') = Unit
Advances s (failed e c) = Unit

entry_step-buffer :
    (r : ℕ) (l : List ℕ) (s : Walk)
    → (entry_step r l s).context.markers_buffer ≡ s.context.markers_buffer
unfolding entry_step note_gate
entry_step-buffer r l s = ground arith

pub entries_step-buffer :
    (n r : ℕ) (l : List ℕ) (s : Walk)
    → (entries_step n r l s).context.markers_buffer ≡ s.context.markers_buffer
unfolding entries_step
entries_step-buffer zero r l s = refl
entries_step-buffer (suc n) r l s =
    entries_step-buffer n r (drop 4 l) (entry_step r l s) ∙ entry_step-buffer r l s

hunk_step-Advances : (t r : ℕ) (h : List ℕ) (s : Walk) → Advances s (hunk_step t r h s)
unfolding hunk_step trigger_hunk_step note_trigger gate_hunk_step
hunk_step-Advances t r h s = ground (arith, entries_step-buffer 4 r h s)

drop-nil {ℓ} : {A : Type ℓ} (n : ℕ) → drop {A = A} n [] ≡ []
drop-nil zero = refl
drop-nil (suc n) = refl

pub drop-drop {ℓ} : {A : Type ℓ} (m n : ℕ) (xs : List A) → drop m (drop n xs) ≡ drop (n + m) xs
drop-drop m zero xs = let e : zero + m ≡ m = omega arith in rw e
drop-drop m (suc n) [] = drop-nil m ∙ sym (drop-nil (suc n + m))
drop-drop m (suc n) (x ∷ xs) =
    let e : suc n + m ≡ suc (n + m) = omega arith in rw e (drop-drop m n xs)

drop_advanced :
    (b : AcquisitionBuffer)
    → drop (get_raw_unprocessed (advance_processed markers_hunk_size b)) b.elements
      ≡ drop markers_hunk_size (drop (get_raw_unprocessed b) b.elements)
unfolding get_raw_unprocessed advance_processed
drop_advanced b =
    let e : b.processed_index + 16 + b.offset ≡ b.processed_index + b.offset + 16 = omega arith in
    rw e (sym (drop-drop 16 (b.processed_index + b.offset) b.elements))

and_then-cong :
    (s : Walk) (w : Walked) (k k' : Walk → Walked)
    → Advances s w
    → ((s' : Walk)
        → s'.context.markers_buffer ≡ advance_processed markers_hunk_size s.context.markers_buffer
        → k s' ≡ k' s')
    → and_then w k ≡ and_then w k'
and_then-cong s (onward s') k k' a h = h s' a
and_then-cong s (full s') k k' a h = refl
and_then-cong s (failed e c) k k' a h = refl

advance-elements :
    (b : AcquisitionBuffer) → (advance_processed markers_hunk_size b).elements ≡ b.elements
unfolding advance_processed
advance-elements b = refl

-- The unprocessed words of a buffer.
abbrev pub ahead : AcquisitionBuffer → List ℕ
ahead b = drop (get_raw_unprocessed b) b.elements

ahead-advanced :
    (b : AcquisitionBuffer)
    → ahead (advance_processed markers_hunk_size b) ≡ drop markers_hunk_size (ahead b)
unfolding advance_processed
ahead-advanced b = drop_advanced b

-- Walking `n` hunks of the buffer is walking the list of the first `n` hunks of its unprocessed words.
pub walk-eq-walk_list :
    (t r n : ℕ) (s : Walk)
    → walk t r n s ≡ walk_list t r (hunks n (ahead s.context.markers_buffer)) s
unfolding walk walk_list next_hunk
walk-eq-walk_list t r zero s = refl
walk-eq-walk_list t r (suc n) s =
    and_then-cong s (hunk_step t r (next_hunk s.context.markers_buffer) s) (λ s'. walk t r n s')
      (λ s'. walk_list t r (hunks n (drop markers_hunk_size (ahead s.context.markers_buffer))) s')
      (hunk_step-Advances t r (next_hunk s.context.markers_buffer) s)
      (λ s' e.
        walk-eq-walk_list t r n s'
        ∙ ap (λ ws. walk_list t r (hunks n ws) s')
            (ap ahead e ∙ ahead-advanced s.context.markers_buffer))
