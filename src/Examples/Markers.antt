-- ===== src/Examples/Markers.antt =====
-- A markers stream of two triggers and a gate, fed to CstZs1Context and CstContext
-- (libaqmd3/src/cstzs1context.cpp, libaqmd3/src/cstcontext.cpp).
use aq_md3_acquisition_conso.Common.{
  ℕ, ◌%◌, ◌≡◌, ◌≢◌, ◌≤◌, refl, inl, inr, false, true, List, [], ◌∷◌, ◌++◌, replicate, length, arith,
}
use aq_md3_acquisition_conso.Common.Int.{pos, pos_part}
use aq_md3_acquisition_conso.Buffer.{AcquisitionBuffer, create_sized, get_unprocessed, get_size}
use aq_md3_acquisition_conso.Buffer
use aq_md3_acquisition_conso.Stream.{Fetch, markers_replayed, check_and_throw_on_error, check_error}
use aq_md3_acquisition_conso.Zs1
use aq_md3_acquisition_conso.Zs1.{Zs1Context, TriggerSeen, Walk, fresh_walk}
use aq_md3_acquisition_conso.Zs1.Marker.{word_at, tag, decode_gate, decode_trigger, gate_elements}
use aq_md3_acquisition_conso.Zs1.Marker
use aq_md3_acquisition_conso.Zs1.Marker.Format.{
  trigger_hunk, gate_entry, decode_trigger-trigger_hunk, decode_gate-gate_entry,
}
use aq_md3_acquisition_conso.Zs1.Acquire.{threw, waiting, collect, acquire, reply_failure}
use aq_md3_acquisition_conso.Zs1.Hunks.{walk_list}
use aq_md3_acquisition_conso.Zs1.Chunks.{of_walked, of_outcome}
use aq_md3_acquisition_conso.Zs1.Delivery.{IsHealthy, stream_hunks, leftover, collect-of_outcome}
use aq_md3_acquisition_conso.Zs1.Counts.{Delivers, acquire-Delivers}
use aq_md3_acquisition_conso.Zs1.Replay.{start-AwaitsFirst, replay_ends_acquire}
use aq_md3_acquisition_conso.Zs1.Bounds.{Holds, Left, collect-Left}
use aq_md3_acquisition_conso.Zs1.Ending.{collect_ends}

abbrev gate_hunk : List ℕ
gate_hunk = gate_entry 2 1 5 3 ++ replicate 12 0

abbrev pub fetched : List ℕ → Fetch
fetched words = record {
  status = pos 0;
  words = words;
  available_elements = length words;
  actual_elements = length words;
  first_valid_element = 0;
  late = false;
}

abbrev pub stream : List Fetch
stream = fetched (trigger_hunk 5 0 0 ++ gate_hunk) ∷ fetched (trigger_hunk 9 1 0) ∷ []

abbrev context : Zs1Context
context = Zs1.create 4

healthy : (words : List ℕ) → IsHealthy false (fetched words)
unfolding reply_failure check_and_throw_on_error check_error
healthy words = record { accepted = refl; inside = omega arith }

fresh_aligned : pos_part (get_unprocessed context.markers_buffer) % 16 ≡ 0
unfolding Zs1.create create_sized get_unprocessed
fresh_aligned = refl

collect-of_outcome_example :
    of_outcome (collect 1 64 false stream context)
    ≡ of_walked (walk_list 1 64 (leftover context ++ stream_hunks stream) (fresh_walk context))
collect-of_outcome_example =
    collect-of_outcome 1 64 false (omega arith, omega arith) stream context
      (healthy (trigger_hunk 5 0 0 ++ gate_hunk), (healthy (trigger_hunk 9 1 0), tt)) fresh_aligned

acquire-Delivers_example : Delivers 1 (acquire 1 false stream (Buffer.create 4 64) context)
acquire-Delivers_example = acquire-Delivers 1 false stream (Buffer.create 4 64) context

-- The frame before ended with a trigger at 9.
abbrev seen_before : Zs1Context
seen_before = record context { last_trigger = record { valid = true; timestamp = 9; index = 1 } }

abbrev replayed : List Fetch
replayed = fetched (gate_hunk ++ trigger_hunk 5 0 0) ∷ []

replayed_stream :
    leftover (Zs1.start seen_before) ++ stream_hunks replayed
    ≡ (gate_hunk ∷ []) ++ trigger_hunk 5 0 0 ∷ []
unfolding Zs1.start Zs1.create create_sized get_unprocessed Buffer.get_raw_unprocessed
replayed_stream = refl

replayed_aligned : pos_part (get_unprocessed (Zs1.start seen_before).markers_buffer) % 16 ≡ 0
unfolding Zs1.start Zs1.create create_sized get_unprocessed
replayed_aligned = refl

earlier :
    Marker.trigger_timestamp (trigger_hunk 5 0 0)
    ≤ (Zs1.start seen_before).frame_last_trigger.timestamp
unfolding Zs1.start Marker.trigger_timestamp
earlier = omega arith

replay_ends_acquire_example :
    (c : Zs1Context) × (acquire 1 false replayed (Buffer.create 4 64) (Zs1.start seen_before)
      ≡ threw markers_replayed c)
replay_ends_acquire_example =
    replay_ends_acquire 1 false replayed (Buffer.create 4 64) (Zs1.start seen_before)
      (gate_hunk ∷ []) [] (trigger_hunk 5 0 0) (omega arith, omega arith)
      (healthy (gate_hunk ++ trigger_hunk 5 0 0), tt) replayed_aligned replayed_stream
      (inl refl, tt) refl (start-AwaitsFirst seen_before refl).0 earlier

fresh_Holds : Holds 527 context.markers_buffer
unfolding Zs1.create create_sized
fresh_Holds = record {
  ordered = record { processed = omega arith; fits = omega arith };
  sized = refl;
}

collect-Left_example : Left 527 (collect 1 64 false stream context)
collect-Left_example =
    collect-Left 527 1 64 false stream context
      ((omega arith, omega arith), ((omega arith, omega arith), tt)) fresh_Holds

-- An answer without elements, read after the time limit.
abbrev pub late_fetch : Fetch
late_fetch = record (fetched []) { late = true }

collect_ends_example :
    collect 1 64 true (fetched (trigger_hunk 5 0 0) ∷ late_fetch ∷ []) context ≢ waiting
collect_ends_example =
    collect_ends 1 64 (fetched (trigger_hunk 5 0 0) ∷ late_fetch ∷ []) context (inr (inl refl))

decode_trigger-trigger_hunk_example :
    (tag (trigger_hunk 5 7 3) ≡ 1)
    × (decode_trigger (trigger_hunk 5 7 3)
        ≡ record { timestamp = 5; subsample_pos = pos 0; index = 7; gate_data = [] })
decode_trigger-trigger_hunk_example =
    decode_trigger-trigger_hunk 5 7 3 (omega arith) (omega arith) (omega arith)

decode_gate-gate_entry_example :
    let g = decode_gate (gate_entry 2 1 5 3) in
    (tag (gate_entry 2 1 5 3) ≡ 4)
    × (g.gate_start_block_index ≡ 2)
    × (g.gate_start_sample_pos ≡ 1)
    × (g.gate_stop_block_index ≡ 5)
    × (g.gate_stop_sample_pos ≡ 3)
    × (gate_elements (gate_entry 2 1 5 3) ≡ 16)
decode_gate-gate_entry_example =
    decode_gate-gate_entry 2 1 5 3 (omega arith) (omega arith) (omega arith) (omega arith)
      (omega arith)
