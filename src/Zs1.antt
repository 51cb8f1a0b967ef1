-- ===== src/Zs1.antt =====
-- libaqmd3: CstZs1Context (libaqmd3/include/libaqmd3/cstzs1context.h and
-- libaqmd3/src/cstzs1context.cpp), the zero-suppressed stream. This file is the context's state and
-- the walk over the hunks of the markers buffer; `Zs1.Marker` decodes one hunk and `Zs1.Acquire` has
-- the fetches round the walk.
-- The log lines are left out, with `diagnostics`, `last_walked_hunk`, `last_walked_valid`,
-- `orphan_at`, `orphan_hunk` and `orphans_reported`, which feed nothing else.
pub mod Marker
pub mod Acquire
pub mod Elements
pub mod Counts
pub mod Hunks
pub mod Requests
pub mod Chunks
pub mod Delivery
pub mod Replay
pub mod Ending
pub mod Bounds
use aq_md3_acquisition_conso.Common.{
  ℕ, zero, suc, ◌+◌, ◌*◌, Bool, true, false, ◌&&◌, ◌||◌, not, List, [], ◌∷◌, ◌==◌, ltb, leb,
  if◌then◌else◌, take, drop, push_back, update_back, length,
}
use aq_md3_acquisition_conso.Common.Word.{u64}
use aq_md3_acquisition_conso.Buffer.{
  AcquisitionBuffer, create_sized, get_raw_unprocessed, advance_processed, reset,
}
use aq_md3_acquisition_conso.Stream.{
  GateData, get_start_sample_index, get_stop_sample_index, TriggerData, Failure, dummy_gate,
  unexpected_header, markers_replayed,
}
use Marker.{
  markers_hunk_size, tag, trigger_timestamp, trigger_index, decode_trigger, gate_elements,
  decode_gate,
}

abbrev pub multiplier_max : ℕ
multiplier_max = 8

pub record TriggerSeen : Type 0 where
  pub valid : Bool
  pub timestamp : ℕ
  pub index : ℕ

pub record Zs1Context : Type 0 where
  pub markers_buffer : AcquisitionBuffer
  pub last_trigger : TriggerSeen
  pub frame_last_trigger : TriggerSeen
  pub frame_first_trigger_checked : Bool
  pub frame_triggers : ℕ
  pub frame_fetches : ℕ
  pub frame_out_of_record : ℕ

abbrev pub never_seen : TriggerSeen
never_seen = record { valid = false; timestamp = 0; index = 0 }

-- The constructor: a markers buffer for the largest request, and the 15 elements of slack by which
-- the driver may shift the first valid one.
unfoldable pub create : ℕ → Zs1Context
create max_triggers_per_read = record {
  markers_buffer = create_sized (max_triggers_per_read * markers_hunk_size * multiplier_max + 15);
  last_trigger = never_seen;
  frame_last_trigger = never_seen;
  frame_first_trigger_checked = false;
  frame_triggers = 0;
  frame_fetches = 0;
  frame_out_of_record = 0;
}

-- `start`, once the driver has begun to acquire.
unfoldable pub start : Zs1Context → Zs1Context
start c = record c {
  frame_last_trigger = c.last_trigger;
  frame_first_trigger_checked = false;
  frame_triggers = 0;
  frame_fetches = 0;
  frame_out_of_record = 0;
}

-- `stop`, once the driver has aborted.
unfoldable pub stop : Zs1Context → Zs1Context
stop c = record c { markers_buffer = reset c.markers_buffer }

-- The frame's first trigger is not past the previous frame's last.
unfoldable pub is_replay : ℕ → Zs1Context → Bool
is_replay timestamp c =
    not c.frame_first_trigger_checked
    && (c.frame_last_trigger.valid && leb timestamp c.frame_last_trigger.timestamp)

abbrev latest : ℕ → ℕ → TriggerSeen → TriggerSeen
latest timestamp index seen =
    if not seen.valid || ltb seen.timestamp timestamp
    then record { valid = true; timestamp = timestamp; index = index }
    else seen

-- `note_trigger`: the new context, and whether it threw.
unfoldable pub note_trigger : ℕ → ℕ → Zs1Context → Zs1Context × Bool
unfolding is_replay
note_trigger timestamp index c =
    let checked = record c { frame_first_trigger_checked = true } in
    if is_replay timestamp c then (checked, true) else (
      record checked {
        frame_triggers = u64 (c.frame_triggers + 1);
        last_trigger = latest timestamp index c.last_trigger;
      },
      false,
    )

-- `note_gate`, called for a gate with an end past the record.
unfoldable pub note_gate : Zs1Context → Zs1Context
note_gate c = record c { frame_out_of_record = u64 (c.frame_out_of_record + 1) }

-- The variables of one `acquire`, with the context that outlives it.
pub record Walk : Type 0 where
  pub context : Zs1Context
  pub trig_count : ℕ
  pub gate_count : ℕ
  pub to_acquire : ℕ
  pub stamps : List TriggerData
  pub orphan_gates : ℕ
  pub orphan_elements : ℕ

abbrev pub fresh_walk : Zs1Context → Walk
fresh_walk c = record {
  context = c;
  trig_count = 0;
  gate_count = 0;
  to_acquire = 0;
  stamps = [];
  orphan_gates = 0;
  orphan_elements = 0;
}

abbrev pub add_gate : GateData → TriggerData → TriggerData
add_gate g t = record t { gate_data = push_back t.gate_data g }

abbrev past_record : ℕ → GateData → Bool
past_record record_samples g =
    ltb record_samples (get_start_sample_index g) || ltb record_samples (get_stop_sample_index g)

-- A gate with no trigger to belong to is passed over and counted.
abbrev skip_gate : ℕ → Walk → Walk
skip_gate elements s = record s {
  orphan_gates = u64 (s.orphan_gates + 1);
  orphan_elements = u64 (s.orphan_elements + elements);
}

abbrev keep_gate : ℕ → ℕ → GateData → Walk → Walk
keep_gate record_samples elements g s = record s {
  context = if past_record record_samples g then note_gate s.context else s.context;
  stamps = update_back (add_gate g) s.stamps;
  gate_count = s.gate_count + 1;
  to_acquire = u64 (s.to_acquire + elements);
}

-- One of the four entries of a gate hunk; what is no gate holds nothing that is kept.
unfoldable pub entry_step : ℕ → List ℕ → Walk → Walk
entry_step record_samples l s =
    if tag l == 0x04
    then if length s.stamps == 0
      then skip_gate (gate_elements l) s
      else keep_gate record_samples (gate_elements l) (decode_gate l) s
    else s

abbrev pub advance_hunk : Walk → Walk
advance_hunk s = record s {
  context = record (s.context) {
    markers_buffer = advance_processed markers_hunk_size s.context.markers_buffer;
  };
}

unfoldable pub entries_step : ℕ → ℕ → List ℕ → Walk → Walk
entries_step zero record_samples seg s = s
entries_step (suc n) record_samples seg s =
    entries_step n record_samples (drop 4 seg) (entry_step record_samples seg s)

unfoldable pub gate_hunk_step : ℕ → List ℕ → Walk → Walk
gate_hunk_step record_samples seg s = advance_hunk (entries_step 4 record_samples seg s)

-- Where an iteration leaves the walk: on to the next hunk, at the trigger past the last one wanted
-- (`goto process`), or out by an exception.
pub data Walked : Type 0 where
  onward : Walk → Walked
  full : Walk → Walked
  failed : Failure → Zs1Context → Walked

abbrev noted : Walk → List ℕ → Zs1Context × Bool → Walked
noted s seg (c, true) = failed markers_replayed c
noted s seg (c, false) = onward (
    advance_hunk (record s {
      context = c;
      trig_count = s.trig_count + 1;
      stamps = push_back s.stamps (decode_trigger seg);
    }))

unfoldable pub trigger_hunk_step : ℕ → List ℕ → Walk → Walked
trigger_hunk_step triggers_to_read seg s =
    if leb (triggers_to_read + 1) (s.trig_count + 1)
    then full (record s { trig_count = s.trig_count + 1 })
    else noted s seg (note_trigger (trigger_timestamp seg) (trigger_index seg) s.context)

-- The `switch` on a hunk's header.
unfoldable pub hunk_step : ℕ → ℕ → List ℕ → Walk → Walked
hunk_step triggers_to_read record_samples seg s =
    if tag seg == 0x01
    then trigger_hunk_step triggers_to_read seg s
    else if tag seg == 0x04 || tag seg == 0x0a
    then onward (gate_hunk_step record_samples seg s)
    else if tag seg == 0x08
    then failed dummy_gate s.context
    else failed (unexpected_header (tag seg)) s.context

-- The hunk that the pointer to the unprocessed elements reads.
unfoldable pub next_hunk : AcquisitionBuffer → List ℕ
next_hunk b = take markers_hunk_size (drop (get_raw_unprocessed b) b.elements)

abbrev pub and_then : Walked → (Walk → Walked) → Walked
and_then (onward s) k = k s
and_then (full s) k = full s
and_then (failed e c) k = failed e c

-- The `for` over the hunks at hand.
unfoldable pub walk : ℕ → ℕ → ℕ → Walk → Walked
walk triggers_to_read record_samples zero s = onward s
walk triggers_to_read record_samples (suc n) s =
    and_then (hunk_step triggers_to_read record_samples (next_hunk s.context.markers_buffer) s)
      (λ s'. walk triggers_to_read record_samples n s')
