-- ===== src/Zs1/Counts.antt =====
-- The counters of a walk (libaqmd3/src/cstzs1context.cpp) beside the triggers and gates collected.
use aq_md3_acquisition_conso.Common.{
  ℕ, zero, suc, ◌+◌, ◌/◌, ◌%◌, ◌^◌, ◌≤◌, ◌≡◌, refl, Bool, List, [], ◌∷◌, arith, length,
  length-append, length-update_back, drop,
}
use aq_md3_acquisition_conso.Common.Int.{ℤ, pos_part}
use aq_md3_acquisition_conso.Buffer.{AcquisitionBuffer, get_unprocessed}
use aq_md3_acquisition_conso.Stream.{Fetch, AcquiredData}
use aq_md3_acquisition_conso.Zs1.Marker.{
  gate_elements, decode_gate, decode_trigger, markers_hunk_size,
}
use aq_md3_acquisition_conso.Zs1.Marker.Format.{gate_elements_aligned}
use aq_md3_acquisition_conso.Zs1.{
  Zs1Context, Walk, fresh_walk, and_then, next_hunk, add_gate, entry_step, entries_step,
  gate_hunk_step, note_trigger, trigger_hunk_step, hunk_step, walk, Walked, onward, full, failed,
}
use aq_md3_acquisition_conso.Zs1.Acquire.{
  Outcome, returned, threw, waiting, reset_markers, with_markers, written, received, fetches,
  collect, after_walk, next_request, grown, markers_request, acquired, and_fetch_samples,
  fetch_samples, acquire,
}
use aq_md3_acquisition_conso.Zs1.Elements.{
  total_elements, total_gates, total_elements-append, total_gates-append, total_elements-add_gate,
  total_gates-add_gate,
}

-- The request for samples is the total of the gates' elements as far as 32 bits tell, and whole
-- chunks of 16.
pub record IsCounted (s : Walk) : Type 0 where
  pub gates : s.gate_count ≡ total_gates s.stamps
  pub elements : s.to_acquire % 2 ^ 32 ≡ total_elements s.stamps % 2 ^ 32
  pub chunks : s.to_acquire % 16 ≡ 0

element_count_lem : (l : List ℕ) → (decode_gate l).element_count ≡ gate_elements l % 2 ^ 32
unfolding decode_gate
element_count_lem l = refl

entry_step-IsCounted : (r : ℕ) (l : List ℕ) (s : Walk) → IsCounted s → IsCounted (entry_step r l s)
unfolding entry_step
entry_step-IsCounted r l s v = ground (
  arith,
  total_elements-add_gate (decode_gate l) s.stamps,
  total_gates-add_gate (decode_gate l) s.stamps,
  element_count_lem l,
  gate_elements_aligned l,
)

entry_step-stamps :
    (r : ℕ) (l : List ℕ) (s : Walk)
    → (length (entry_step r l s).stamps ≡ length s.stamps)
      × ((entry_step r l s).trig_count ≡ s.trig_count)
unfolding entry_step
entry_step-stamps r l s = ground (arith, length-update_back (add_gate (decode_gate l)) s.stamps)

entries_step-IsCounted :
    (n r : ℕ) (seg : List ℕ) (s : Walk) → IsCounted s → IsCounted (entries_step n r seg s)
unfolding entries_step
entries_step-IsCounted zero r seg s v = v
entries_step-IsCounted (suc n) r seg s v =
    entries_step-IsCounted n r (drop 4 seg) (entry_step r seg s) (entry_step-IsCounted r seg s v)

entries_step-stamps :
    (n r : ℕ) (seg : List ℕ) (s : Walk)
    → (length (entries_step n r seg s).stamps ≡ length s.stamps)
      × ((entries_step n r seg s).trig_count ≡ s.trig_count)
unfolding entries_step
entries_step-stamps zero r seg s = (refl, refl)
entries_step-stamps (suc n) r seg s =
    omega
      (arith, entries_step-stamps n r (drop 4 seg) (entry_step r seg s), entry_step-stamps r seg s)

-- What holds of a walk that wants `t` triggers, before it is full and when it is.
pub record IsUnderWay (t : ℕ) (s : Walk) : Type 0 where
  pub counted : IsCounted s
  pub triggers : length s.stamps ≡ s.trig_count
  pub wanted : s.trig_count ≤ t

pub record IsComplete (t : ℕ) (s : Walk) : Type 0 where
  pub counted : IsCounted s
  pub triggers : length s.stamps ≡ t
  pub past : s.trig_count ≡ t + 1

abbrev pub Sound : ℕ → Walked → Type 0
Sound t (onward s) = IsUnderWay t s
Sound t (full s) = IsComplete t s
Sound t (failed e c) = Unit

trigger_hunk_step-Sound :
    (t : ℕ) (seg : List ℕ) (s : Walk) → IsUnderWay t s → Sound t (trigger_hunk_step t seg s)
unfolding trigger_hunk_step note_trigger decode_trigger
trigger_hunk_step-Sound t seg s v = ground (
  arith,
  length-append s.stamps (decode_trigger seg ∷ []),
  total_elements-append s.stamps (decode_trigger seg ∷ []),
  total_gates-append s.stamps (decode_trigger seg ∷ []),
)

gate_hunk_step-IsUnderWay :
    (t r : ℕ) (seg : List ℕ) (s : Walk) → IsUnderWay t s → IsUnderWay t (gate_hunk_step r seg s)
unfolding gate_hunk_step
gate_hunk_step-IsUnderWay t r seg s v = record {
  counted =
      let c = entries_step-IsCounted 4 r seg s v.counted in
      record { gates = c.gates; elements = c.elements; chunks = c.chunks };
  triggers = omega (arith, v.triggers, entries_step-stamps 4 r seg s);
  wanted = omega (arith, v.wanted, entries_step-stamps 4 r seg s);
}

hunk_step-Sound :
    (t r : ℕ) (seg : List ℕ) (s : Walk) → IsUnderWay t s → Sound t (hunk_step t r seg s)
unfolding hunk_step
hunk_step-Sound t r seg s v =
    ground (arith, trigger_hunk_step-Sound t seg s v, gate_hunk_step-IsUnderWay t r seg s v)

and_then-Sound :
    (t : ℕ) (w : Walked) (k : Walk → Walked)
    → Sound t w
    → ((s : Walk) → IsUnderWay t s → Sound t (k s))
    → Sound t (and_then w k)
and_then-Sound t (onward s) k v h = h s v
and_then-Sound t (full s) k v h = v
and_then-Sound t (failed e c) k v h = tt

pub walk-Sound : (t r n : ℕ) (s : Walk) → IsUnderWay t s → Sound t (walk t r n s)
unfolding walk
walk-Sound t r zero s v = v
walk-Sound t r (suc n) s v =
    and_then-Sound t (hunk_step t r (next_hunk s.context.markers_buffer) s) (λ s'. walk t r n s')
      (hunk_step-Sound t r (next_hunk s.context.markers_buffer) s v)
      (λ s' v'. walk-Sound t r n s' v')

-- What a call that collects markers leaves when it returns.
abbrev pub Collected : ℕ → Outcome Walk → Type 0
Collected t (returned s fs) = IsComplete t s
Collected t (threw e c) = Unit
Collected t waiting = Unit

after_walk-Collected :
    (t : ℕ) (w : Walked) (fs : List Fetch) (k : Walk → Outcome Walk)
    → Sound t w
    → ((s : Walk) → IsUnderWay t s → Collected t (k s))
    → Collected t (after_walk w fs k)
after_walk-Collected t (onward s) fs k v h = h s v
after_walk-Collected t (full s) fs k v h = v
after_walk-Collected t (failed e c) fs k v h = tt

IsUnderWay-context :
    (t : ℕ) (s s' : Walk)
    → IsUnderWay t s
    → s'.stamps ≡ s.stamps
    → s'.trig_count ≡ s.trig_count
    → s'.gate_count ≡ s.gate_count
    → s'.to_acquire ≡ s.to_acquire
    → IsUnderWay t s'
IsUnderWay-context t s s' v a b c d = record {
  counted = record {
    gates = rw (a, c) v.counted.gates;
    elements = rw (a, d) v.counted.elements;
    chunks = rw d v.counted.chunks;
  };
  triggers = rw (a, b) v.triggers;
  wanted = rw b v.wanted;
}

module _ (t r : ℕ) (use_timeout : Bool) where
  fetches-Collected :
      (fs : List Fetch) (request : ℤ) (m : ℕ) (s : Walk)
      → IsUnderWay t s
      → Collected t (fetches t r use_timeout fs request m s)
  unfolding fetches
  fetches-Collected [] request m s v = ground arith
  fetches-Collected (f ∷ fs) request m s v = ground (
    arith,
    fetches-Collected fs request m (with_markers (written f) s)
        (IsUnderWay-context t s (with_markers (written f) s) v refl refl refl refl),
    after_walk-Collected t (walk t r (f.actual_elements / markers_hunk_size) (received f s)) fs
        (λ s'.
          fetches t r use_timeout fs (next_request t f request m) (grown f request m)
            (reset_markers s'))
        (walk-Sound t r (f.actual_elements / markers_hunk_size) (received f s)
          (unfold received in IsUnderWay-context t s (received f s) v refl refl refl refl))
        (λ s' v'.
          fetches-Collected fs (next_request t f request m) (grown f request m) (reset_markers s')
            (IsUnderWay-context t s' (reset_markers s') v' refl refl refl refl)),
  )

  pub collect-Collected :
      (fs : List Fetch) (c : Zs1Context) → Collected t (collect t r use_timeout fs c)
  unfolding collect
  collect-Collected fs c = ground (
    arith,
    after_walk-Collected t
        (walk t r (pos_part (get_unprocessed c.markers_buffer) / markers_hunk_size) (fresh_walk c))
        fs (λ s'. fetches t r use_timeout fs (markers_request t 1) 1 (reset_markers s'))
        (walk-Sound t r _ (fresh_walk c) (omega arith))
        (λ s' v'.
          fetches-Collected fs (markers_request t 1) 1 (reset_markers s')
            (IsUnderWay-context t s' (reset_markers s') v' refl refl refl refl)),
  )

-- What is returned by a call of `acquire` that asked for `t` triggers.
abbrev pub Delivers : ℕ → Outcome (AcquiredData × Zs1Context) → Type 0
Delivers t (returned (d, c) fs) = length d.stamps ≡ t
Delivers t (threw e c) = Unit
Delivers t waiting = Unit

acquired-Delivers :
    (t : ℕ) (s : Walk) (o : Outcome AcquisitionBuffer)
    → length s.stamps ≡ t
    → Delivers t (acquired s o)
acquired-Delivers t s (returned b fs) h = h
acquired-Delivers t s (threw e c) h = tt
acquired-Delivers t s waiting h = tt

-- An acquire that returns has exactly as many triggers as were asked for, whatever the driver
-- answered on the way.
pub acquire-Delivers :
    (t : ℕ) (use_timeout : Bool) (fs : List Fetch) (b : AcquisitionBuffer) (c : Zs1Context)
    → Delivers t (acquire t use_timeout fs b c)
unfolding acquire
acquire-Delivers t use_timeout fs b c =
    go (collect t b.samples_per_trigger use_timeout fs c)
      (collect-Collected t b.samples_per_trigger use_timeout fs c)
  where
    go : (o : Outcome Walk) → Collected t o → Delivers t (and_fetch_samples b o)
    go (returned s rest) v =
        acquired-Delivers t s (fetch_samples rest s.context s.to_acquire 0 b) v.triggers
    go (threw e c') v = tt
    go waiting v = tt
