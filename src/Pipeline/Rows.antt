-- ===== src/Pipeline/Rows.antt =====
-- The scan numbers of a frame's rows (AqMD3_console/src/uimfacquisitionrecord.cpp,
-- AqMD3_console/src/processsubject.cpp).
use aq_md3_acquisition_conso.Common.{
  ℕ, zero, suc, ◌+◌, ◌-◌, ◌^◌, ◌≤◌, ◌≡◌, refl, sym, ap, subst, ap₂, ◌∙◌, Bool, true, List, [], ◌∷◌,
  ◌++◌, map, length, if◌then◌else◌, All, false, arith,
}
use aq_md3_acquisition_conso.Common.Int.{ℤ, pos}
use aq_md3_acquisition_conso.Common.Word.{u32, u64, signed32}
use aq_md3_acquisition_conso.Buffer.{AcquisitionBuffer}
use aq_md3_acquisition_conso.Stream.{TriggerData}
use aq_md3_acquisition_conso.Encode.{
  UimfFrameParameters, UimfAcquisitionRecord, UimfFrame, EncodedResult, fresh_tally, encode_gates,
  result_of, process_stamps, process, to_frame,
}
use aq_md3_acquisition_conso.Publish.Events.{Follow}
use aq_md3_acquisition_conso.Queue.{SubscriberType, shares, frame_type}

-- The numbers from `from` on.
abbrev pub count_from : ℕ → ℕ → List ℤ
count_from from zero = []
count_from from (suc n) = pos from ∷ count_from (suc from) n

abbrev pub scans : List EncodedResult → List ℤ
scans rows = map (λ r. r.scan) rows

-- The rows of a list of frames, in order.
unfoldable pub rows : List UimfFrame → List EncodedResult
rows [] = []
rows (frame ∷ frames) = frame.encoded_data ++ rows frames

-- The frames that the subject hands on to a subscriber of a type.
unfoldable pub forwarded : SubscriberType → List UimfAcquisitionRecord → List UimfFrame
forwarded wanted [] = []
forwarded wanted (r ∷ rs) =
    let rest = forwarded wanted rs in
    if shares (frame_type r.parameters) wanted then to_frame r ∷ rest else rest

count_from-append :
    (from m n : ℕ) → count_from from m ++ count_from (from + m) n ≡ count_from from (m + n)
count_from-append from zero n =
    let e : from + 0 ≡ from = omega arith in let e' : n ≡ 0 + n = omega arith in ap₂ count_from e e'
count_from-append from (suc m) n =
    let e : from + suc m ≡ suc from + m = omega arith in
    let e' : suc (m + n) ≡ suc m + n = omega arith in
    ap (λ js. pos from ∷ js)
      (ap (λ i. count_from (suc from) m ++ count_from i n) e ∙ count_from-append (suc from) m n)
    ∙ ap (count_from from) e'

scans-append : (xs ys : List EncodedResult) → scans (xs ++ ys) ≡ scans xs ++ scans ys
scans-append [] ys = refl
scans-append (x ∷ xs) ys = ap (λ zs. x.scan ∷ zs) (scans-append xs ys)

stamps-scans :
    (parameters : UimfFrameParameters) (b : AcquisitionBuffer) (scan offset : ℕ)
    (stamps : List TriggerData)
    → scan + length stamps ≤ 2 ^ 31
    → scans (process_stamps parameters b scan offset stamps) ≡ count_from scan (length stamps)
unfolding process_stamps result_of
stamps-scans parameters b scan offset [] h = refl
stamps-scans parameters b scan offset (trig ∷ stamps) h =
    let after = encode_gates parameters b [] trig.gate_data offset fresh_tally in
    let here : signed32 (u32 (u64 scan)) ≡ pos scan = ground arith in
    let onward = stamps-scans parameters b (suc scan) after.1 stamps (omega arith) in
    λ k. here k ∷ onward k

process-scans :
    (r : UimfAcquisitionRecord) (from : ℕ)
    → r.start_scan_index ≡ from
    → from + length r.acquired.stamps ≤ 2 ^ 31
    → scans (process r) ≡ count_from from (length r.acquired.stamps)
unfolding process
process-scans r from e h =
    ap (λ i. scans (process_stamps r.parameters r.acquired.samples_buffer i 0 r.acquired.stamps)) e
    ∙ stamps-scans r.parameters r.acquired.samples_buffer from 0 r.acquired.stamps h

-- Records that follow each other give, to a subscriber that gets the frame's, rows whose scan numbers
-- count on.
pub forwarded-scans :
    (parameters : UimfFrameParameters) (wanted : SubscriberType) (from : ℕ)
    (records : List UimfAcquisitionRecord) (to : ℕ)
    → shares (frame_type parameters) wanted ≡ true
    → Follow parameters from records to
    → to ≤ 2 ^ 31
    → (from ≤ to) × (scans (rows (forwarded wanted records)) ≡ count_from from (to - from))
unfolding forwarded rows Follow to_frame
forwarded-scans parameters wanted from [] to e h k =
    let none_left : 0 ≡ to - from = omega (arith, h) in
    (omega (arith, h), ap (count_from from) none_left)
forwarded-scans parameters wanted from (r ∷ records) to e h k =
    let n = length r.acquired.stamps in
    let onward = forwarded-scans parameters wanted (from + n) records to e h.1.1 k in
    let sent : shares (frame_type r.parameters) wanted ≡ true =
      subst (λ p. shares (frame_type p) wanted ≡ true) (sym h.0) e in
    let later = forwarded wanted records in
    let total : n + (to - (from + n)) ≡ to - from = omega (arith, onward.0) in
    (
      omega (arith, onward.0),
      ap (λ (b : Bool). scans (rows (if b then to_frame r ∷ later else later))) sent
          ∙ scans-append (process r) (rows later)
          ∙ ap₂ (λ xs ys. xs ++ ys) (process-scans r from h.1.0 (omega (arith, onward.0))) onward.1
          ∙ count_from-append from n (to - (from + n))
          ∙ ap (count_from from) total,
    )

parameters-All :
    (parameters : UimfFrameParameters) (r : UimfAcquisitionRecord) (later : List UimfFrame)
    (b : Bool)
    → r.parameters ≡ parameters
    → All (λ (f : UimfFrame). f.parameters ≡ parameters) later
    → All (λ (f : UimfFrame). f.parameters ≡ parameters) (if b then to_frame r ∷ later else later)
unfolding to_frame
parameters-All parameters r later true e h = (e, h)
parameters-All parameters r later false e h = h

-- All of them are frames of the records' parameters.
pub forwarded-parameters :
    (parameters : UimfFrameParameters) (wanted : SubscriberType) (from : ℕ)
    (records : List UimfAcquisitionRecord) (to : ℕ)
    → Follow parameters from records to
    → All (λ (f : UimfFrame). f.parameters ≡ parameters) (forwarded wanted records)
unfolding forwarded Follow
forwarded-parameters parameters wanted from [] to h = tt
forwarded-parameters parameters wanted from (r ∷ records) to h =
    parameters-All parameters r (forwarded wanted records) (shares (frame_type r.parameters) wanted)
      h.0
      (forwarded-parameters parameters wanted (from + length r.acquired.stamps) records to h.1.1)
