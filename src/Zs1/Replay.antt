-- ===== src/Zs1/Replay.antt =====
-- A markers stream that is read a second time, in libaqmd3/src/cstzs1context.cpp.
use aq_md3_acquisition_conso.Common.{
  ℕ, zero, suc, ◌%◌, ◌≤◌, ◌<◌, ◌≡◌, refl, ap, ◌∙◌, ◌⊎◌, Bool, true, false, List, [], ◌∷◌, ◌++◌,
  arith, All, drop,
}
use aq_md3_acquisition_conso.Common.Int.{pos_part}
use aq_md3_acquisition_conso.Buffer.{AcquisitionBuffer, get_unprocessed}
use aq_md3_acquisition_conso.Stream.{Failure, markers_replayed, Fetch}
use aq_md3_acquisition_conso.Zs1.Marker.{tag, trigger_timestamp}
use aq_md3_acquisition_conso.Zs1.{
  Zs1Context, Walk, fresh_walk, start, is_replay, note_trigger, note_gate, entry_step, entries_step,
  gate_hunk_step, trigger_hunk_step, hunk_step, onward, failed, and_then,
}
use aq_md3_acquisition_conso.Zs1.Hunks.{walk_list}
use aq_md3_acquisition_conso.Zs1.Acquire.{
  Outcome, returned, threw, waiting, collect, acquire, and_fetch_samples,
}
use aq_md3_acquisition_conso.Zs1.Requests.{IsRequestable}
use aq_md3_acquisition_conso.Zs1.Chunks.{erase_context, broken, of_walked, of_outcome}
use aq_md3_acquisition_conso.Zs1.Delivery.{IsHealthy, leftover, stream_hunks, collect-of_outcome}

abbrev pub IsGateHunk : List ℕ → Type 0
IsGateHunk h = (tag h ≡ 0x04) ⊎ (tag h ≡ 0x0a)

-- A context whose next trigger is the frame's first, with a frame before it.
pub record AwaitsFirst (c : Zs1Context) : Type 0 where
  pub unchecked : c.frame_first_trigger_checked ≡ false
  pub seen : c.frame_last_trigger.valid ≡ true

entry_step-frame :
    (r : ℕ) (l : List ℕ) (s : Walk)
    → ((entry_step r l s).context.frame_first_trigger_checked
        ≡ s.context.frame_first_trigger_checked)
      × ((entry_step r l s).context.frame_last_trigger ≡ s.context.frame_last_trigger)
      × ((entry_step r l s).trig_count ≡ s.trig_count)
unfolding entry_step note_gate
entry_step-frame r l s = ground arith

entries_step-frame :
    (n r : ℕ) (l : List ℕ) (s : Walk)
    → ((entries_step n r l s).context.frame_first_trigger_checked
        ≡ s.context.frame_first_trigger_checked)
      × ((entries_step n r l s).context.frame_last_trigger ≡ s.context.frame_last_trigger)
      × ((entries_step n r l s).trig_count ≡ s.trig_count)
unfolding entries_step
entries_step-frame zero r l s = (refl, refl, refl)
entries_step-frame (suc n) r l s =
    let later = entries_step-frame n r (drop 4 l) (entry_step r l s) in
    let now = entry_step-frame r l s in (later.0 ∙ now.0, later.1 ∙ now.1, later.2 ∙ now.2)

gate_hunk_onward :
    (t r : ℕ) (h : List ℕ) (s : Walk)
    → IsGateHunk h
    → hunk_step t r h s ≡ onward (gate_hunk_step r h s)
unfolding hunk_step
gate_hunk_onward t r h s g = ground arith

gate_hunk_step-frame :
    (r : ℕ) (h : List ℕ) (s : Walk)
    → ((gate_hunk_step r h s).context.frame_first_trigger_checked
        ≡ s.context.frame_first_trigger_checked)
      × ((gate_hunk_step r h s).context.frame_last_trigger ≡ s.context.frame_last_trigger)
      × ((gate_hunk_step r h s).trig_count ≡ s.trig_count)
unfolding gate_hunk_step
gate_hunk_step-frame r h s = entries_step-frame 4 r h s

replayed_trigger :
    (t r : ℕ) (seg : List ℕ) (s : Walk)
    → tag seg ≡ 0x01
    → s.trig_count < t
    → AwaitsFirst s.context
    → trigger_timestamp seg ≤ s.context.frame_last_trigger.timestamp
    → hunk_step t r seg s
      ≡ failed markers_replayed (record (s.context) { frame_first_trigger_checked = true })
unfolding hunk_step trigger_hunk_step note_trigger is_replay
replayed_trigger t r seg s one few first old = ground (arith, first.unchecked, first.seen)

pub replayed_walk :
    (t r : ℕ) (hs rest : List (List ℕ)) (seg : List ℕ) (s : Walk)
    → All IsGateHunk hs
    → tag seg ≡ 0x01
    → s.trig_count < t
    → AwaitsFirst s.context
    → trigger_timestamp seg ≤ s.context.frame_last_trigger.timestamp
    → (c : Zs1Context) × (walk_list t r (hs ++ seg ∷ rest) s ≡ failed markers_replayed c)
unfolding walk_list
replayed_walk t r [] rest seg s gates one few first old = (
  record (s.context) { frame_first_trigger_checked = true },
  ap (λ w. and_then w (λ u. walk_list t r rest u)) (replayed_trigger t r seg s one few first old),
)
replayed_walk t r (h ∷ hs) rest seg s gates one few first old =
    let frame = gate_hunk_step-frame r h s in
    let later =
      replayed_walk t r hs rest seg (gate_hunk_step r h s) gates.1 one (omega (arith, frame.2))
        (record {
          unchecked = frame.0 ∙ first.unchecked;
          seen = ap (λ l. l.valid) frame.1 ∙ first.seen;
        })
        (omega (arith, ap (λ l. l.timestamp) frame.1)) in
    (
      later.0,
      ap (λ w. and_then w (λ u. walk_list t r (hs ++ seg ∷ rest) u))
            (gate_hunk_onward t r h s gates.0)
          ∙ later.1,
    )

of_broken :
    (o : Outcome Walk) (e : Failure) (c : Zs1Context)
    → of_outcome o ≡ broken e c
    → (c' : Zs1Context) × (o ≡ threw e c')
of_broken (returned s fs) e c h = cc
of_broken (threw e' c') e c h = (c', ap (λ x. threw x c') (same h))
  where
    same : broken e' (erase_context c') ≡ broken e c → e' ≡ e
    same p = cc
of_broken waiting e c h = cc

-- Let a frame follow an earlier one, and let the first trigger of its marker stream, gates before it
-- or not, bear a timestamp that is not past the earlier frame's last. Then `acquire` throws
-- `FrameDamaged`.
pub replay_ends_acquire :
    (t : ℕ) (use_timeout : Bool) (fs : List Fetch) (b : AcquisitionBuffer) (c : Zs1Context)
    (hs rest : List (List ℕ)) (seg : List ℕ)
    → IsRequestable t
    → All (IsHealthy use_timeout) fs
    → pos_part (get_unprocessed c.markers_buffer) % 16 ≡ 0
    → leftover c ++ stream_hunks fs ≡ hs ++ seg ∷ rest
    → All IsGateHunk hs
    → tag seg ≡ 0x01
    → AwaitsFirst c
    → trigger_timestamp seg ≤ c.frame_last_trigger.timestamp
    → (c' : Zs1Context) × (acquire t use_timeout fs b c ≡ threw markers_replayed c')
unfolding acquire
replay_ends_acquire t use_timeout fs b c hs rest seg size healthy aligned stream gates one first
      old =
    let r = b.samples_per_trigger in
    let w =
      replayed_walk t r hs rest seg (fresh_walk c) gates one (omega (arith, size.0)) first old in
    let o = of_broken (collect t r use_timeout fs c) markers_replayed (erase_context w.0) (
      collect-of_outcome t r use_timeout size fs c healthy aligned
      ∙ ap (λ x. of_walked (walk_list t r x (fresh_walk c))) stream
      ∙ ap of_walked w.1) in
    (o.0, ap (and_fetch_samples b) o.1)

-- The frame begun by `start` is checked against the latest trigger of the frames before it.
pub start-AwaitsFirst :
    (c : Zs1Context)
    → c.last_trigger.valid ≡ true
    → AwaitsFirst (start c) × ((start c).frame_last_trigger ≡ c.last_trigger)
unfolding start
start-AwaitsFirst c v = (record { unchecked = refl; seen = v }, refl)

-- A trigger past the previous frame's last is taken, and the latest trigger never goes back.
pub note_trigger_advances :
    (timestamp index : ℕ) (c : Zs1Context)
    → (c.frame_last_trigger.valid ≡ true → c.frame_last_trigger.timestamp < timestamp)
    → ((note_trigger timestamp index c).1 ≡ false)
      × ((note_trigger timestamp index c).0.last_trigger.valid ≡ true)
      × (timestamp ≤ (note_trigger timestamp index c).0.last_trigger.timestamp)
      × (c.last_trigger.valid ≡ true
          → c.last_trigger.timestamp ≤ (note_trigger timestamp index c).0.last_trigger.timestamp)
unfolding note_trigger
note_trigger_advances timestamp index c h = ground arith
