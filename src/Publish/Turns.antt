-- ===== src/Publish/Turns.antt =====
-- The loop of one frame's acquisition (AqMD3_console/src/acquirepublisher.cpp).
use aq_md3_acquisition_conso.Common.{
  ℕ, zero, suc, ◌+◌, ◌≤◌, ◌<◌, ◌≡◌, ◌⊎◌, inl, inr, refl, Bool, true, false, ◌||◌, [], length, leb,
  if◌then◌else◌, arith,
}
use mathlib.Core.Bool.{true≢false}
use aq_md3_acquisition_conso.Stream.{AcquiredData}
use aq_md3_acquisition_conso.Encode.{UimfFrameParameters}
use aq_md3_acquisition_conso.Publish.{
  Reply, delivered, frame_damaged, std_exception, unknown_throw, hangs, Context, notified,
  status_error, status_error_data, Loop, ended, hung, out_of_fuel, emit, to_acquire_count,
  after_acquire, acquire_loop, acquisition_record,
}
use aq_md3_acquisition_conso.Publish.Events.{records, Follow, errors, count}

-- An `acquire` that returns returns the triggers it was asked for, as the contexts do.
-- `H` is what else it takes for a call not to return.
abbrev pub Delivers : {S : Type 0} → Type 0 → ℕ → Reply × S → Type 0
Delivers H n (delivered d, s) = length d.stamps ≡ n
Delivers H n (frame_damaged, s) = Unit
Delivers H n (std_exception, s) = Unit
Delivers H n (unknown_throw, s) = Unit
Delivers H n (hangs, s) = H

module _ {S : Type 0} (c : Context S) (segment_size : ℕ) (parameters : UimfFrameParameters)
    (H : Type 0) (some_size : 0 < segment_size)
    (delivers : (n : ℕ) (s : S) → Delivers H n (c.acquire n s)) where
  -- A loop that ended: what it counted is what it handed on, all of it if it was neither stopped nor
  -- failed, and an error is reported once.
  abbrev pub Done : ℕ → Bool → Loop S → Type 0
  Done acquired failed (ended scans has_errored s events) =
      Follow parameters acquired (records events) scans
      × ((scans ≤ parameters.frame_length)
          × ((errors events + count failed ≡ count has_errored)
              × ((scans ≡ parameters.frame_length) ⊎ (has_errored || c.should_stop s) ≡ true)))
  Done acquired failed (hung events) = H
  Done acquired failed out_of_fuel = ⊥

  -- One more event, that hands nothing on.
  emit_record :
      (acquired : ℕ) (d : AcquiredData) (loop : Loop S)
      → Done (acquired + length d.stamps) false loop
      → Done acquired false (emit (notified (acquisition_record parameters d acquired)) loop)
  unfolding records Follow errors
  emit_record acquired d (ended scans has_errored s events) h = ((refl, (refl, h.0)), h.1)
  emit_record acquired d (hung events) h = h
  emit_record acquired d out_of_fuel h = h

  emit_error :
      (acquired : ℕ) (loop : Loop S)
      → Done acquired true loop
      → Done acquired false (emit status_error loop)
  unfolding records Follow errors
  emit_error acquired (ended scans has_errored s events) h =
      (h.0, (h.1.0, (omega (arith, h.1.1.0), h.1.1.1)))
  emit_error acquired (hung events) h = h
  emit_error acquired out_of_fuel h = h

  emit_error_data :
      (acquired : ℕ) (loop : Loop S)
      → Done acquired true loop
      → Done acquired false (emit (status_error_data parameters.frame_number) loop)
  unfolding records Follow errors
  emit_error_data acquired (ended scans has_errored s events) h =
      (h.0, (h.1.0, (omega (arith, h.1.1.0), h.1.1.1)))
  emit_error_data acquired (hung events) h = h
  emit_error_data acquired out_of_fuel h = h

  -- The rest of the loop, on fuel that is enough for what is left to acquire.
  abbrev Onward : ℕ → (ℕ → Bool → S → Loop S) → Type 0
  Onward fuel rest =
      (a : ℕ) (f : Bool) (s : S)
      → suc parameters.frame_length < fuel + a + count f
      → a ≤ parameters.frame_length
      → Done a f (rest a f s)

  turn-Done :
      (fuel n acquired : ℕ) (reply : Reply × S) (rest : ℕ → Bool → S → Loop S)
      → Onward fuel rest
      → Delivers H n reply
      → 0 < n
      → n + acquired ≤ parameters.frame_length
      → suc parameters.frame_length < suc fuel + acquired
      → Done acquired false (after_acquire parameters acquired reply rest)
  unfolding after_acquire
  turn-Done fuel n acquired (delivered d, s) rest onward e p q h =
      emit_record acquired d (rest (acquired + length d.stamps) false s)
        (onward (acquired + length d.stamps) false s (omega arith) (omega arith))
  turn-Done fuel n acquired (frame_damaged, s) rest onward e p q h =
      emit_error_data acquired (rest acquired true s)
        (onward acquired true s (omega arith) (omega arith))
  turn-Done fuel n acquired (std_exception, s) rest onward e p q h =
      emit_error acquired (rest acquired true s)
        (onward acquired true s (omega arith) (omega arith))
  turn-Done fuel n acquired (unknown_throw, s) rest onward e p q h =
      emit_error acquired (rest acquired true s)
        (onward acquired true s (omega arith) (omega arith))
  turn-Done fuel n acquired (hangs, s) rest onward e p q h = e

  -- Both tests of the loop's head.
  head-Done :
      (acquired : ℕ) (failed : Bool) (s : S) (onward : Loop S) (x y : Bool)
      → acquired ≤ parameters.frame_length
      → leb parameters.frame_length acquired ≡ x
      → (failed || c.should_stop s) ≡ y
      → (x ≡ false → y ≡ false → Done acquired failed onward)
      → Done acquired failed (
          if x
          then ended acquired failed s []
          else if y
          then ended acquired failed s []
          else onward)
  unfolding records Follow errors
  head-Done acquired failed s onward true y k e e' h =
      (refl, (k, (omega arith, inl (ground (arith, e)))))
  head-Done acquired failed s onward false true k e e' h = (refl, (k, (omega arith, inr e')))
  head-Done acquired failed s onward false false k e e' h = h refl refl

  pub loop-Done :
      (fuel acquired : ℕ) (failed : Bool) (s : S)
      → suc parameters.frame_length < fuel + acquired + count failed
      → acquired ≤ parameters.frame_length
      → Done acquired failed (acquire_loop c segment_size parameters fuel acquired failed s)
  unfolding acquire_loop to_acquire_count
  loop-Done zero acquired true s h k = absurd (omega arith)
  loop-Done zero acquired false s h k = absurd (omega arith)
  loop-Done (suc fuel) acquired true s h k =
      head-Done acquired true s out_of_fuel (leb parameters.frame_length acquired) true k refl refl
        (λ e e'. absurd (true≢false e'))
  loop-Done (suc fuel) acquired false s h k =
      let n = to_acquire_count segment_size parameters.frame_length acquired in
      head-Done acquired false s _ (leb parameters.frame_length acquired) (c.should_stop s) k refl
        refl
        (λ e e'.
          turn-Done fuel n acquired (c.acquire n s) _ (λ a f s'. loop-Done fuel a f s')
            (delivers n s) (ground (arith, e)) (ground (arith, e)) (omega arith))
