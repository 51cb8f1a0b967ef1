-- ===== src/Encode/Gates.antt =====
-- What the loop over the gates of one trigger leaves in its tally
-- (AqMD3_console/src/uimfacquisitionrecord.cpp).
use aq_md3_acquisition_conso.Common.{
  ℕ, ◌+◌, ◌^◌, ◌<◌, ◌≡◌, ◌⊎◌, inl, inr, refl, sym, ap, subst, Bool, true, false, List,
  if◌then◌else◌, [], ◌∷◌, arith,
}
use aq_md3_acquisition_conso.Common.Int.{ℤ, pos, negsuc, pos_part}
use aq_md3_acquisition_conso.Buffer.{AcquisitionBuffer, get_raw_unprocessed}
use aq_md3_acquisition_conso.Stream.{GateData}
use aq_md3_acquisition_conso.Encode.{
  Tally, UimfFrameParameters, is_empty_gate, gate_gap, skip_gap, push_gap, store_samples,
  gate_samples, encode_gate, encode_gates,
}
use aq_md3_acquisition_conso.Encode.Reader.{width}
use aq_md3_acquisition_conso.Encode.Runs.{width-push_gap}
use aq_md3_acquisition_conso.Encode.Tallies.{
  IsTrue, skip_gap-True, width-store_samples, store_samples-True,
}

-- No gate that holds samples starts before the one ahead of it stops, and the bins fit an `int32_t`.
unfoldable pub IsSpaced : UimfFrameParameters → List GateData → List GateData → Type 0
IsSpaced parameters before [] = Unit
IsSpaced parameters before (gate ∷ gates) =
    ((is_empty_gate gate ≡ true) ⊎ (n : ℕ) × (gate_gap parameters before gate ≡ pos n))
    × IsSpaced parameters (gate ∷ before) gates

-- The bins that a gate takes: those it skips and those it fills.
unfoldable pub gate_bins : UimfFrameParameters → List GateData → GateData → ℕ
gate_bins parameters before gate =
    if is_empty_gate gate then 0 else pos_part (gate_gap parameters before gate) + gate_samples gate

unfoldable pub bins_of : UimfFrameParameters → List GateData → List GateData → ℕ
bins_of parameters before [] = 0
bins_of parameters before (gate ∷ gates) =
    gate_bins parameters before gate + bins_of parameters (gate ∷ before) gates

width-skip_gap :
    (gap : ℤ) (t : Tally)
    → width (skip_gap gap t).encoded_samples ≡ width t.encoded_samples + pos_part gap
unfolding skip_gap push_gap
width-skip_gap (negsuc n) t = omega arith
width-skip_gap (pos n) t = width-push_gap n t.encoded_samples

width-encode_gate :
    (parameters : UimfFrameParameters) (b : AcquisitionBuffer) (before : List GateData)
    (gate : GateData) (offset : ℕ) (t : Tally)
    → width (encode_gate parameters b before gate offset t).encoded_samples
      ≡ width t.encoded_samples + gate_bins parameters before gate
unfolding encode_gate gate_bins
width-encode_gate parameters b before gate offset t = ground (
  arith,
  width-skip_gap (gate_gap parameters before gate) t,
  width-store_samples b (get_raw_unprocessed b + offset) gate.gate_start_sample_pos
      (gate_samples gate) (skip_gap (gate_gap parameters before gate) t),
)

if-True : (x : Bool) (t u : Tally) → IsTrue t → (x ≡ false → IsTrue u) → IsTrue (if x then t else u)
if-True true t u h k = h
if-True false t u h k = k refl

if-first : (x : Bool) (t u : Tally) → x ≡ true → (if x then t else u) ≡ t
if-first x t u e = ap (λ y. if y then t else u) e

encode_gate-True :
    (parameters : UimfFrameParameters) (b : AcquisitionBuffer) (before : List GateData)
    (gate : GateData) (offset : ℕ) (t : Tally)
    → (is_empty_gate gate ≡ true) ⊎ (n : ℕ) × (gate_gap parameters before gate ≡ pos n)
    → width t.encoded_samples + gate_bins parameters before gate < 2 ^ 31
    → IsTrue t
    → IsTrue (encode_gate parameters b before gate offset t)
unfolding encode_gate gate_bins
encode_gate-True parameters b before gate offset t (inl e) room h =
    let stored_on =
      store_samples b (get_raw_unprocessed b + offset) gate.gate_start_sample_pos
        (gate_samples gate) (skip_gap (gate_gap parameters before gate) t) in
    subst IsTrue (sym (if-first (is_empty_gate gate) t stored_on e)) h
encode_gate-True parameters b before gate offset t (inr (n, e)) room h =
    if-True (is_empty_gate gate) t _ h (λ is_filled.
      store_samples-True b (get_raw_unprocessed b + offset) gate.gate_start_sample_pos
        (gate_samples gate) (skip_gap (gate_gap parameters before gate) t)
        (ground (arith, is_filled, width-skip_gap (gate_gap parameters before gate) t))
        (subst (λ x. IsTrue (skip_gap x t)) (sym e)
          (skip_gap-True n t (ground (arith, is_filled, e)) h)))

-- The tally of a trigger is true of its spectrum: to a reader it covers `zeros` empty bins besides
-- the samples counted, the total intensity is theirs, none is above the base peak, the base peak's
-- bin is where the base peak is read, and no run has the length that is read in two ways; if each
-- gate that holds samples starts at or after the end of the gate ahead of it, and the bins in all
-- are less than 2 ^ 31.
pub encode_gates-True :
    (parameters : UimfFrameParameters) (b : AcquisitionBuffer) (before gates : List GateData)
    (offset : ℕ) (t : Tally)
    → IsSpaced parameters before gates
    → width t.encoded_samples + bins_of parameters before gates < 2 ^ 31
    → IsTrue t
    → IsTrue (encode_gates parameters b before gates offset t).0
unfolding encode_gates IsSpaced bins_of
encode_gates-True parameters b before [] offset t s room h = h
encode_gates-True parameters b before (gate ∷ gates) offset t s room h =
    encode_gates-True parameters b (gate ∷ before) gates (offset + gate.element_count)
      (encode_gate parameters b before gate offset t) s.1
      (omega (arith, width-encode_gate parameters b before gate offset t))
      (encode_gate-True parameters b before gate offset t s.0 (omega arith) h)

-- The elements of a list of gates.
abbrev pub elements_of : List GateData → ℕ
elements_of [] = 0
elements_of (gate ∷ gates) = gate.element_count + elements_of gates

-- The place in the samples moves by the elements of every gate, also of those that are skipped.
pub encode_gates_moves :
    (parameters : UimfFrameParameters) (b : AcquisitionBuffer) (before gates : List GateData)
    (offset : ℕ) (t : Tally)
    → (encode_gates parameters b before gates offset t).1 ≡ offset + elements_of gates
unfolding encode_gates
encode_gates_moves parameters b before [] offset t = omega arith
encode_gates_moves parameters b before (gate ∷ gates) offset t = omega (
  arith,
  encode_gates_moves parameters b (gate ∷ before) gates (offset + gate.element_count)
      (encode_gate parameters b before gate offset t),
)
