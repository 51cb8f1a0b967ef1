-- ===== src/Encode/Batch.antt =====
-- The rows of a batch: UimfAcquisitionRecord::process as a whole
-- (AqMD3_console/src/uimfacquisitionrecord.cpp).
use aq_md3_acquisition_conso.Common.{
  ℕ, zero, suc, ◌+◌, ◌^◌, ◌<◌, ◌≡◌, ◌⊎◌, refl, ap, ◌∙◌, some, List, [], ◌∷◌, All, get_elem?, take,
  arith,
}
use mathlib.Core.Option.{some-injective, none-ne-some}
use aq_md3_acquisition_conso.Common.Int.{pos}
use aq_md3_acquisition_conso.Common.Word.{u64, signed64}
use aq_md3_acquisition_conso.Buffer.{AcquisitionBuffer}
use aq_md3_acquisition_conso.Stream.{TriggerData}
use aq_md3_acquisition_conso.Encode.{
  EncodedResult, UimfFrameParameters, UimfAcquisitionRecord, fresh_tally, encode_gates, result_of,
  process_stamps, process,
}
use aq_md3_acquisition_conso.Encode.Reader.{width, read, stored, total}
use aq_md3_acquisition_conso.Encode.Runs.{IsUnambiguous}
use aq_md3_acquisition_conso.Encode.Tallies.{IsBelow, fresh-True}
use aq_md3_acquisition_conso.Encode.Gates.{
  IsSpaced, bins_of, encode_gates-True, elements_of, encode_gates_moves,
}

-- A row whose summary is what a reader of its spectrum finds there.
pub record IsRow (r : EncodedResult) : Type 0 where
  pub counted : stored r.encoded_spectra ≡ r.non_zero_count
  pub summed : r.tic ≡ signed64 (u64 (total r.encoded_spectra))
  pub unambiguous : All IsUnambiguous r.encoded_spectra
  pub peak : ℕ
  pub peak_kept : r.bpi ≡ pos peak
  pub highest : All (IsBelow peak) r.encoded_spectra
  pub peak_bin : ℕ
  pub bin_kept : r.index_max_intensity ≡ pos peak_bin
  pub read_there :
      (peak ≡ 0) ⊎ (peak_bin < width r.encoded_spectra) × (read r.encoded_spectra peak_bin ≡ peak)

abbrev pub AllSpaced : UimfFrameParameters → List TriggerData → Type 0
AllSpaced parameters [] = Unit
AllSpaced parameters (trig ∷ stamps) =
    IsSpaced parameters [] trig.gate_data
    × ((bins_of parameters [] trig.gate_data < 2 ^ 31) × AllSpaced parameters stamps)

width-fresh : width fresh_tally.encoded_samples ≡ 0
unfolding width
width-fresh = refl

stamps-Rows :
    (parameters : UimfFrameParameters) (b : AcquisitionBuffer) (scan offset : ℕ)
    (stamps : List TriggerData)
    → AllSpaced parameters stamps
    → All IsRow (process_stamps parameters b scan offset stamps)
unfolding process_stamps result_of
stamps-Rows parameters b scan offset [] s = tt
stamps-Rows parameters b scan offset (trig ∷ stamps) s =
    let after = encode_gates parameters b [] trig.gate_data offset fresh_tally in
    let h =
      encode_gates-True parameters b [] trig.gate_data offset fresh_tally s.0
        (omega (arith, s.1.0, width-fresh)) fresh-True in
    (
      record {
        counted = h.counted;
        summed = ap signed64 h.summed;
        unambiguous = h.unambiguous;
        peak = h.peak;
        peak_kept = h.peak_kept;
        highest = h.highest;
        peak_bin = h.peak_bin;
        bin_kept = h.bin_kept;
        read_there = h.read_there;
      },
      stamps-Rows parameters b (suc scan) after.1 stamps s.1.1,
    )

-- Every row of a batch tells a reader of its spectrum the truth: it counts the samples stored there,
-- sums their intensities (as the words of 64 bits wrap), names the highest of them and the bin where
-- it is read, and holds no run of the length that is read in two ways; if in each trigger no gate
-- that holds samples starts before the gate ahead of it stops, each gap fits an `int32_t`, and the
-- gaps and samples of the trigger come to less than 2 ^ 31 bins.
pub process-Rows :
    (r : UimfAcquisitionRecord) → AllSpaced r.parameters r.acquired.stamps → All IsRow (process r)
unfolding process
process-Rows r s =
    stamps-Rows r.parameters r.acquired.samples_buffer r.start_scan_index 0 r.acquired.stamps s

-- The elements of the gates of a list of triggers.
abbrev pub elements_before : List TriggerData → ℕ
elements_before [] = 0
elements_before (trig ∷ stamps) = elements_of trig.gate_data + elements_before stamps

-- The row of a trigger whose samples start at `offset`.
unfoldable pub row_of :
    UimfFrameParameters → AcquisitionBuffer → ℕ → ℕ → TriggerData → EncodedResult
row_of parameters b scan offset trig =
    result_of scan trig (encode_gates parameters b [] trig.gate_data offset fresh_tally).0

row_eq :
    (parameters : UimfFrameParameters) (b : AcquisitionBuffer) {scan scan' offset offset' : ℕ}
    {trig trig' : TriggerData}
    → scan ≡ scan'
    → offset ≡ offset'
    → trig ≡ trig'
    → row_of parameters b scan offset trig ≡ row_of parameters b scan' offset' trig'
row_eq parameters b p q r = λ k. row_of parameters b (p k) (q k) (r k)

stamps-get_elem? :
    (parameters : UimfFrameParameters) (b : AcquisitionBuffer) (scan offset i : ℕ)
    (stamps : List TriggerData) (trig : TriggerData)
    → get_elem? stamps i ≡ some trig
    → get_elem? (process_stamps parameters b scan offset stamps) i
      ≡ some (row_of parameters b (scan + i) (offset + elements_before (take i stamps)) trig)
unfolding process_stamps row_of
stamps-get_elem? parameters b scan offset i [] trig e = absurd (none-ne-some trig e)
stamps-get_elem? parameters b scan offset zero (x ∷ stamps) trig e =
    ap some (row_eq parameters b (omega arith) (omega arith) (some-injective x trig e))
stamps-get_elem? parameters b scan offset (suc i) (x ∷ stamps) trig e =
    let after = encode_gates parameters b [] x.gate_data offset fresh_tally in
    stamps-get_elem? parameters b (suc scan) after.1 i stamps trig e
    ∙ ap some (
        row_eq parameters b (omega arith)
          (omega (arith, encode_gates_moves parameters b [] x.gate_data offset fresh_tally)) refl)

-- Row i of a batch is the encoding of trigger i, from the samples that the gates of the triggers
-- before it leave, and its scan number counts on from the batch's first.
pub process-get_elem? :
    (r : UimfAcquisitionRecord) (i : ℕ) (trig : TriggerData)
    → get_elem? r.acquired.stamps i ≡ some trig
    → get_elem? (process r) i
      ≡ some (
          row_of r.parameters r.acquired.samples_buffer
            (r.start_scan_index + i)
            (elements_before (take i r.acquired.stamps))
            trig)
unfolding process
process-get_elem? r i trig e =
    stamps-get_elem? r.parameters r.acquired.samples_buffer r.start_scan_index 0 i r.acquired.stamps
      trig e
    ∙ ap some (row_eq r.parameters r.acquired.samples_buffer refl (omega arith) refl)
