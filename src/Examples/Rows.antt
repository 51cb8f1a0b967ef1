-- ===== src/Examples/Rows.antt =====
-- A batch encoded, summed and published (AqMD3_console/src/uimfacquisitionrecord.cpp,
-- AqMD3_console/src/zmqacquireddatasubscriber.cpp).
use aq_md3_acquisition_conso.Common.{
  ◌≡◌, ◌<◌, ◌^◌, refl, inr, some, List, [], ◌∷◌, get_elem?, replicate, map, All, arith,
}
use aq_md3_acquisition_conso.Common.Int.{pos, negsuc}
use aq_md3_acquisition_conso.Buffer
use aq_md3_acquisition_conso.Stream.{
  GateData, TriggerData, get_start_sample_index, get_stop_sample_index,
}
use aq_md3_acquisition_conso.Encode.{
  UimfFrameParameters, UimfAcquisitionRecord, EncodedResult, UimfFrame, process, gate_gap,
  gate_samples,
}
use aq_md3_acquisition_conso.Encode.Gates.{IsSpaced, bins_of, gate_bins}
use aq_md3_acquisition_conso.Encode.Batch.{IsRow, process-Rows, row_of, process-get_elem?}
use aq_md3_acquisition_conso.Live.{ZmqAcquiredDataSubscriber, undefined, on_notify}
use aq_md3_acquisition_conso.Live.Overrun.{on_notify_undefined}

abbrev parameters : UimfFrameParameters
parameters = record {
  start_trigger = 0;
  nbr_samples = 64;
  nbr_accumulations = 1;
  frame_length = 3;
  frame_number = 1;
  offset_bins = 5;
  file_name = [];
}

-- Samples 9 to 18, and 40 to 55, each gate in 8 elements.
abbrev early : GateData
early = record {
  gate_start_block_index = 2;
  gate_start_sample_pos = 1;
  gate_stop_block_index = 4;
  gate_stop_sample_pos = 3;
  element_count = 8;
}

abbrev late_gate : GateData
late_gate = record {
  gate_start_block_index = 6;
  gate_start_sample_pos = 0;
  gate_stop_block_index = 8;
  gate_stop_sample_pos = 8;
  element_count = 8;
}

abbrev trigger : TriggerData
trigger = record {
  timestamp = 70;
  subsample_pos = pos 0;
  index = 0;
  gate_data = early ∷ late_gate ∷ [];
}

abbrev pub batch : UimfAcquisitionRecord
batch = record {
  parameters = parameters;
  acquired = record {
    stamps = trigger ∷ trigger ∷ [];
    samples_buffer = Buffer.create 4 64;
    samples_count = 64;
  };
  start_scan_index = 10;
}

spaced : IsSpaced parameters [] (early ∷ late_gate ∷ [])
unfolding IsSpaced gate_gap get_start_sample_index get_stop_sample_index
spaced = (inr (14, refl), (inr (21, refl), tt))

few_bins : bins_of parameters [] (early ∷ late_gate ∷ []) < 2 ^ 31
unfolding bins_of gate_bins gate_gap gate_samples get_start_sample_index get_stop_sample_index
few_bins = omega arith

process-Rows_example : All IsRow (process batch)
process-Rows_example = process-Rows batch (spaced, (few_bins, (spaced, (few_bins, tt))))

process-get_elem_example :
    get_elem? (process batch) 1 ≡ some (row_of parameters (Buffer.create 4 64) 11 16 trigger)
process-get_elem_example = process-get_elem? batch 1 trigger refl

-- Two rows of a frame, with a sample each at bin 3 and the second with another at bin 4.
abbrev rows : List EncodedResult
rows =
    record {
      scan = pos 0;
      non_zero_count = 1;
      encoded_spectra = negsuc 2 ∷ pos 40000 ∷ [];
      tic = pos 40000;
      bpi = pos 40000;
      index_max_intensity = pos 3;
      timestamp = 70;
    }
    ∷ record {
      scan = pos 1;
      non_zero_count = 2;
      encoded_spectra = negsuc 2 ∷ pos 40 ∷ pos 41000 ∷ [];
      tic = pos 41040;
      bpi = pos 41000;
      index_max_intensity = pos 4;
      timestamp = 90;
    }
    ∷ []

abbrev frame : UimfFrame
frame = record { parameters = parameters; encoded_data = rows }

-- The floor is the default threshold, -32667, as a stored value.
abbrev subscriber : ZmqAcquiredDataSubscriber
subscriber = record { data_vector = replicate 8 1; processed = 4; first_sample_floor = pos 101 }

-- Nine samples on end, for a live vector of eight bins.
abbrev long_row : EncodedResult
long_row = record {
  scan = pos 0;
  non_zero_count = 9;
  encoded_spectra = map pos (replicate 9 500);
  tic = pos 4500;
  bpi = pos 500;
  index_max_intensity = pos 0;
  timestamp = 70;
}

on_notify_undefined_example :
    on_notify (record frame { encoded_data = long_row ∷ [] }) subscriber ≡ undefined 8
on_notify_undefined_example =
    on_notify_undefined (record frame { encoded_data = long_row ∷ [] }) subscriber long_row []
      (replicate 9 500) refl refl (omega arith)
