-- ===== src/Examples/Samples.antt =====
-- The samples after the markers, and the timestamps of the CST context
-- (libaqmd3/src/cstzs1context.cpp, libaqmd3/src/cstcontext.cpp).
use aq_md3_acquisition_conso.Common.{
  ℕ, ◌^◌, ◌≡◌, ◌≤◌, ◌<◌, ◌↔◌, refl, inr, false, true, none, List, [], ◌∷◌, ◌++◌, length, take,
  replicate, arith,
}
use aq_md3_acquisition_conso.Buffer
use aq_md3_acquisition_conso.Buffer.{
  AcquisitionBuffer, get_raw_unaquired, get_size, create_sized, get_unprocessed,
}
use aq_md3_acquisition_conso.Stream.{
  Fetch, check_and_throw_on_error, check_error, check_fetch_alignment, get_start_sample_index,
  get_stop_sample_index,
}
use aq_md3_acquisition_conso.Zs1
use aq_md3_acquisition_conso.Zs1.{Zs1Context, Walk, fresh_walk}
use aq_md3_acquisition_conso.Zs1.Marker
use aq_md3_acquisition_conso.Zs1.Marker.Format.{trigger_hunk, gate_entry}
use aq_md3_acquisition_conso.Zs1.Acquire.{
  Outcome, returned, threw, waiting, collect, acquire, fetch_samples, fetches, reply_failure,
  markers_request, next_request, grown, received, written, absorbed,
}
use aq_md3_acquisition_conso.Zs1.Delivery.{stream_hunks}
use aq_md3_acquisition_conso.Zs1.Ending.{ReturnsWith, samples_return, samples_wait_forever}
use aq_md3_acquisition_conso.Cst
use aq_md3_acquisition_conso.Cst.{request_size, start_scan, collect_stamps}
use aq_md3_acquisition_conso.Cst.Found.{triggers_of}
use aq_md3_acquisition_conso.Cst.Clock.{timestamps_agree_iff}
use aq_md3_acquisition_conso.Cst.Total.{IsGood, ReturnsStamps, collect_stamps-first_triggers}
use aq_md3_acquisition_conso.Examples.Markers.{fetched, late_fetch}

accepted : (words : List ℕ) → check_and_throw_on_error (fetched words).status ≡ none
unfolding check_and_throw_on_error check_error
accepted words = refl

-- 32 elements, in two answers of 16.
samples_return_example : ReturnsWith 32 (
    fetch_samples
      (fetched (replicate 16 7) ∷ fetched (replicate 16 8) ∷ [])
      (Zs1.create 4)
      32
      0
      (Buffer.create 4 64))
unfolding Buffer.create
samples_return_example =
    samples_return (fetched (replicate 16 7) ∷ fetched (replicate 16 8) ∷ []) (Zs1.create 4) 32 32 0
      (Buffer.create 4 64)
      (inr (
        accepted (replicate 16 7),
        refl,
        omega arith,
        inr (accepted (replicate 16 8), refl, omega arith, refl),
      ))
      refl (omega arith) refl refl

abbrev markers : List Fetch
markers =
    fetched (trigger_hunk 5 0 0 ++ (gate_entry 2 1 5 3 ++ replicate 12 0))
    ∷ fetched (trigger_hunk 9 1 0)
    ∷ late_fetch
    ∷ []

-- The walk that a collection returned.
abbrev walk_of : Walk → Outcome Walk → Walk
walk_of d (returned s fs) = s
walk_of d (threw e c) = d
walk_of d waiting = d

abbrev collected : Walk
collected = walk_of (fresh_walk (Zs1.create 4)) (collect 1 64 false markers (Zs1.create 4))

whole_stream :
    collect 1 (Buffer.create 4 64).samples_per_trigger false markers (Zs1.create 4)
    ≡ returned collected (late_fetch ∷ [])
unfolding collect fetches reply_failure markers_request next_request grown received written absorbed
    check_and_throw_on_error check_error check_fetch_alignment Zs1.create create_sized
    get_unprocessed get_raw_unaquired Buffer.get_raw_unprocessed Buffer.write_at
    Buffer.advance_acquired Buffer.advance_offset Buffer.advance_processed Buffer.reset Zs1.walk
    Zs1.next_hunk Zs1.hunk_step Zs1.trigger_hunk_step Zs1.gate_hunk_step Zs1.entries_step
    Zs1.entry_step Zs1.note_trigger Zs1.is_replay Zs1.note_gate Marker.decode_trigger
    Marker.trigger_timestamp Marker.trigger_index Marker.trigger_subsample Marker.decode_gate
    Marker.gate_elements Marker.memory_blocks Marker.block_index Marker.block_position
    Marker.unwrapped_end get_start_sample_index get_stop_sample_index Buffer.create
whole_stream = refl

sixteen : collected.to_acquire ≡ 16
unfolding collect fetches reply_failure markers_request next_request grown received written absorbed
    check_and_throw_on_error check_error check_fetch_alignment Zs1.create create_sized
    get_unprocessed get_raw_unaquired Buffer.get_raw_unprocessed Buffer.write_at
    Buffer.advance_acquired Buffer.advance_offset Buffer.advance_processed Buffer.reset Zs1.walk
    Zs1.next_hunk Zs1.hunk_step Zs1.trigger_hunk_step Zs1.gate_hunk_step Zs1.entries_step
    Zs1.entry_step Zs1.note_trigger Zs1.is_replay Zs1.note_gate Marker.decode_trigger
    Marker.trigger_timestamp Marker.trigger_index Marker.trigger_subsample Marker.decode_gate
    Marker.gate_elements Marker.memory_blocks Marker.block_index Marker.block_position
    Marker.unwrapped_end get_start_sample_index get_stop_sample_index Buffer.create
sixteen = refl

samples_wait_forever_example : acquire 1 false markers (Buffer.create 4 64) (Zs1.create 4) ≡ waiting
samples_wait_forever_example =
    samples_wait_forever 1 false markers (late_fetch ∷ []) (Buffer.create 4 64) (Zs1.create 4)
      collected whole_stream ((accepted [], refl), tt) (omega (arith, sixteen))
      (omega (arith, sixteen)) (omega (arith, sixteen))

good : (words : List ℕ) → IsGood true (fetched words)
good words = record { accepted = accepted words; in_time = refl; inside = omega arith }

abbrev stream : List Fetch
stream = fetched (trigger_hunk 5 0 0) ∷ fetched (trigger_hunk 9 1 0) ∷ []

two_triggers : 2 ≤ length (triggers_of (stream_hunks stream))
unfolding triggers_of
two_triggers = omega arith

collect_stamps-first_triggers_example :
    ReturnsStamps
      (take 2 (triggers_of (stream_hunks stream)))
      (collect_stamps 2 true stream 0 (start_scan 2))
collect_stamps-first_triggers_example =
    collect_stamps-first_triggers 2 true (omega arith) stream
      (good (trigger_hunk 5 0 0), (good (trigger_hunk 9 1 0), tt)) two_triggers

timestamps_agree_iff_example :
    (Marker.trigger_timestamp (trigger_hunk 5 0 0) ≡ Cst.trigger_timestamp (trigger_hunk 5 0 0))
    ↔ (0 < 2 ^ 31)
timestamps_agree_iff_example = timestamps_agree_iff (trigger_hunk 5 0 0) (omega arith) (omega arith)
