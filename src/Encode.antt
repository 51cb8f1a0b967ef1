-- ===== src/Encode.antt =====
-- The encoding of an acquired batch into the rows of a frame: UimfAcquisitionRecord::process and
-- to_frame (AqMD3_console/src/uimfacquisitionrecord.cpp), with the records of
-- UIMFWriter/include/UIMFWriter/encodedresult.h, uimfframe.h and uimfframeparameters.h.
-- An encoded value is an `int32_t`: below zero it is a run of empty bins, else a stored sample. The
-- reservation of memory ahead of the loop (lines 34-45) changes no result and is left out. The
-- counters of type `int32_t` are kept in 32 bits; `non_zero_count` as the bits themselves. The
-- `offset` into the samples, of type `int32_t` too, does not wrap here.
pub mod Reader
pub mod Runs
pub mod Tallies
pub mod Gates
pub mod Batch
use aq_md3_acquisition_conso.Common.{
  ℕ, zero, suc, ◌+◌, ◌-◌, ◌/◌, ◌%◌, ◌^◌, Bool, true, false, List, [], ◌∷◌, push_back, length, ◌==◌,
  leb, ltb, if◌then◌else◌,
}
use aq_md3_acquisition_conso.Common.Int.{ℤ, pos, negsuc, ◌+ℤ◌, ◌-ℤ◌, pos_part, ltb_ℤ, neg_ℕ}
use aq_md3_acquisition_conso.Common.Word.{u32, u64, sub64, signed16, signed32, signed64, int32}
use aq_md3_acquisition_conso.Buffer.{AcquisitionBuffer, element_at, get_raw_unprocessed}
use aq_md3_acquisition_conso.Stream.{
  GateData, TriggerData, AcquiredData, get_start_sample_index, get_stop_sample_index,
}

pub record UimfFrameParameters : Type 0 where
  pub start_trigger : ℕ
  pub nbr_samples : ℕ
  pub nbr_accumulations : ℕ
  pub frame_length : ℕ
  pub frame_number : ℕ
  pub offset_bins : ℕ
  -- The characters' codes.
  pub file_name : List ℕ

pub record EncodedResult : Type 0 where
  pub scan : ℤ
  pub non_zero_count : ℕ
  pub encoded_spectra : List ℤ
  pub tic : ℤ
  pub bpi : ℤ
  pub index_max_intensity : ℤ
  pub timestamp : ℕ

pub record UimfFrame : Type 0 where
  pub parameters : UimfFrameParameters
  pub encoded_data : List EncodedResult

pub record UimfAcquisitionRecord : Type 0 where
  pub parameters : UimfFrameParameters
  pub acquired : AcquiredData
  pub start_scan_index : ℕ

-- The locals of one trigger's turn.
pub record Tally : Type 0 where
  pub encoded_samples : List ℤ
  pub tic : ℕ
  pub bpi : ℤ
  pub index_max_intensity : ℤ
  pub non_zero_count : ℕ
  pub zero_count : ℤ

abbrev pub fresh_tally : Tally
fresh_tally = record {
  encoded_samples = [];
  tic = 0;
  bpi = pos 0;
  index_max_intensity = pos 0;
  non_zero_count = 0;
  zero_count = pos 0;
}

abbrev pub range_shift_constant : ℕ
range_shift_constant = 32768

-- An `int32_t` converted to `uint64_t`.
abbrev pub to_u64 : ℤ → ℕ
to_u64 (pos n) = n
to_u64 (negsuc n) = 2 ^ 64 - suc n

-- Two signed samples to an element, the low half first.
unfoldable pub sample_value : AcquisitionBuffer → ℕ → ℕ → ℤ
sample_value b ptr i =
    if i % 2 == 0
    then signed16 (element_at b (ptr + i / 2) % 2 ^ 16) +ℤ pos range_shift_constant
    else signed16 (element_at b (ptr + i / 2) / 2 ^ 16) +ℤ pos range_shift_constant

-- The run of empty bins before gate `j`, as the `int32_t` it is kept in.
unfoldable pub gate_gap : UimfFrameParameters → List GateData → GateData → ℤ
gate_gap parameters [] gate =
    signed32 (u32 (u64 (get_start_sample_index gate + parameters.offset_bins)))
gate_gap parameters (previous ∷ rest) gate =
    signed32 (u32 (sub64 (get_start_sample_index gate) (get_stop_sample_index previous)))

-- What is written for it: -32768 is never a run length.
unfoldable pub push_gap : ℤ → List ℤ → List ℤ
push_gap (negsuc n) xs = xs
push_gap (pos n) xs =
    if n == 32768
    then push_back (push_back xs (negsuc 32766)) (negsuc 0)
    else if ltb 0 n
    then push_back xs (neg_ℕ n)
    else xs

unfoldable pub skip_gap : ℤ → Tally → Tally
skip_gap gap t = record t {
  encoded_samples = push_gap gap t.encoded_samples;
  zero_count = int32 (t.zero_count +ℤ gap);
}

unfoldable pub store_sample : ℤ → Tally → Tally
store_sample val t = record {
  encoded_samples = push_back t.encoded_samples val;
  tic = u64 (t.tic + to_u64 val);
  bpi = if ltb_ℤ t.bpi val then val else t.bpi;
  index_max_intensity =
      if ltb_ℤ t.bpi val
      then int32 (signed32 t.non_zero_count +ℤ t.zero_count)
      else t.index_max_intensity;
  non_zero_count = u32 (suc t.non_zero_count);
  zero_count = t.zero_count;
}

unfoldable pub store_samples : AcquisitionBuffer → ℕ → ℕ → ℕ → Tally → Tally
store_samples b ptr i zero t = t
store_samples b ptr i (suc n) t =
    store_samples b ptr (suc i) n (store_sample (sample_value b ptr i) t)

-- `samples`, of type `int64_t`: the loop over them does not run below zero.
unfoldable pub gate_samples : GateData → ℕ
gate_samples gate =
    pos_part (signed64 (get_stop_sample_index gate) -ℤ signed64 (get_start_sample_index gate))

abbrev pub is_empty_gate : GateData → Bool
is_empty_gate gate = leb (get_stop_sample_index gate) (get_start_sample_index gate)

-- One turn of the loop over gates, with `offset` first moved by the earlier gates.
unfoldable pub encode_gate :
    UimfFrameParameters → AcquisitionBuffer → List GateData → GateData → ℕ → Tally → Tally
encode_gate parameters b before gate offset t =
    if is_empty_gate gate
    then t
    else store_samples b (get_raw_unprocessed b + offset) gate.gate_start_sample_pos
        (gate_samples gate) (skip_gap (gate_gap parameters before gate) t)

-- The loop. `before` holds the gates gone by, the last of them first.
unfoldable pub encode_gates :
    UimfFrameParameters → AcquisitionBuffer → List GateData → List GateData → ℕ → Tally → Tally × ℕ
encode_gates parameters b before [] offset t = (t, offset)
encode_gates parameters b before (gate ∷ gates) offset t =
    encode_gates parameters b (gate ∷ before) gates (offset + gate.element_count)
      (encode_gate parameters b before gate offset t)

unfoldable pub result_of : ℕ → TriggerData → Tally → EncodedResult
result_of scan trig t = record {
  scan = signed32 (u32 (u64 scan));
  non_zero_count = t.non_zero_count;
  encoded_spectra = t.encoded_samples;
  tic = signed64 t.tic;
  bpi = t.bpi;
  index_max_intensity = t.index_max_intensity;
  timestamp = trig.timestamp;
}

-- The loop over triggers: `offset` runs on from one to the next.
unfoldable pub process_stamps :
    UimfFrameParameters → AcquisitionBuffer → ℕ → ℕ → List TriggerData → List EncodedResult
process_stamps parameters b scan offset [] = []
process_stamps parameters b scan offset (trig ∷ stamps) =
    let (t, onward) = encode_gates parameters b [] trig.gate_data offset fresh_tally in
    result_of scan trig t ∷ process_stamps parameters b (suc scan) onward stamps

unfoldable pub process : UimfAcquisitionRecord → List EncodedResult
process r =
    process_stamps r.parameters r.acquired.samples_buffer r.start_scan_index 0 r.acquired.stamps

unfoldable pub to_frame : UimfAcquisitionRecord → UimfFrame
to_frame r = record { parameters = r.parameters; encoded_data = process r }
