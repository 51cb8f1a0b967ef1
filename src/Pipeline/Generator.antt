-- ===== src/Pipeline/Generator.antt =====
-- The stand-in for a card: DataGeneratorContext
-- (AqMD3_console/include/diagnostic/datageneratorcontext.h) as the publisher's context. The order in
-- which the compiler evaluates `acq_count++` and `acq_count` of one call is a parameter: it decides
-- what a trigger's index is. A buffer is taken to hold 400 elements. The sleep is left out.
use aq_md3_acquisition_conso.Common.{
  ℕ, zero, suc, ◌+◌, ◌*◌, ◌<◌, ◌≡◌, refl, ap, Bool, true, false, leb, arith, Option, none, some,
  List, [], ◌∷◌, length, replicate, if◌then◌else◌,
}
use aq_md3_acquisition_conso.Common.Int.{pos}
use aq_md3_acquisition_conso.Common.Word.{u32, u64}
use aq_md3_acquisition_conso.Buffer.{AcquisitionBuffer, advance_acquired, write_at}
use aq_md3_acquisition_conso.Pool.{AcquisitionBufferPool, get_buffer}
use aq_md3_acquisition_conso.Stream.{GateData, TriggerData}
use aq_md3_acquisition_conso.Card.{Driver, Result, ok, thrown, get_is_acquiring}
use aq_md3_acquisition_conso.Encode.{UimfFrameParameters}
use aq_md3_acquisition_conso.Publish.{
  Reply, delivered, Context, Event, digitizer_start, Loop, ended, hung, out_of_fuel, emit, finish,
  acquire_loop, after_acquire, after_query, after_start, work,
}
use aq_md3_acquisition_conso.Publish.Turns.{Delivers, Done, loop-Done}
use aq_md3_acquisition_conso.Publish.Frame.{IsFrame}
use aq_md3_acquisition_conso.Pipeline.{Turn, release, asks_to_stop, buffer_of, keep_buffer}

pub record Generator (D : Type 0) : Type 0 where
  pub card : D
  pub acq_count : ℕ
  pub buffer_pool : AcquisitionBufferPool
  pub turns : List Turn

abbrev pub tof_width : ℕ
tof_width = 200000

abbrev pub generated_gate : GateData
generated_gate = record {
  gate_start_block_index = 5000;
  gate_start_sample_pos = 1;
  gate_stop_block_index = 5001;
  gate_stop_sample_pos = 5;
  element_count = 2;
}

abbrev pub generated_trigger : Bool → ℕ → TriggerData
generated_trigger incremented acq_count = record {
  timestamp = u64 (acq_count * tof_width);
  subsample_pos = pos 0;
  index = u32 (if incremented then acq_count + 1 else acq_count);
  gate_data = generated_gate ∷ [];
}

-- The loop over triggers.
unfoldable pub generate : Bool → ℕ → ℕ → List TriggerData
generate incremented acq_count zero = []
generate incremented acq_count (suc n) =
    generated_trigger incremented acq_count ∷ generate incremented (u64 (acq_count + 1)) n

-- 400 elements of 0 from the buffer's beginning.
unfoldable pub generated_samples : AcquisitionBuffer → AcquisitionBuffer
generated_samples b = advance_acquired 400 (write_at 0 (replicate 400 0) b)

module _ {R D : Type 0} (driver : Driver R D) (incremented : Bool) where
  abbrev next_turn : List Turn → Generator D → Generator D
  next_turn [] g = g
  next_turn (turn ∷ turns) g = record g {
    buffer_pool = record (g.buffer_pool) {
      samples_buffer_pool = release turn.released g.buffer_pool.samples_buffer_pool;
    };
    turns = turns;
  }

  unfoldable pub acquire : ℕ → Generator D → Reply × Generator D
  unfolding generate generated_samples
  acquire triggers_per_read g =
      let g' = next_turn g.turns g in
      let (p, index) = get_buffer g'.buffer_pool in
      let buffer = generated_samples (buffer_of p index) in
      (
        delivered (record {
          stamps = generate incremented g.acq_count triggers_per_read;
          samples_buffer = buffer;
          samples_count = 800;
        }),
        record g' {
          acq_count = u64 (g.acq_count + triggers_per_read);
          buffer_pool = keep_buffer index buffer p;
        },
      )

  abbrev queried : Generator D → Result Bool × D → Option (Bool × Generator D)
  queried g (ok b, d) = some (b, record g { card = d })
  queried g (thrown e, d) = none

  -- Its `start` and `stop` do nothing.
  unfoldable pub data_generator : Context (Generator D)
  unfolding acquire
  data_generator = record {
    get_is_acquiring = λ g. queried g (get_is_acquiring driver g.card);
    start = λ g. some g;
    stop = λ g. some g;
    acquire = acquire;
    should_stop = λ g. asks_to_stop g.turns;
  }

  length-generate : (acq_count n : ℕ) → length (generate incremented acq_count n) ≡ n
  unfolding generate
  length-generate acq_count zero = refl
  length-generate acq_count (suc n) = ap suc (length-generate (u64 (acq_count + 1)) n)

  data_generator-Delivers : (n : ℕ) (g : Generator D) → Delivers ⊥ n (data_generator.acquire n g)
  unfolding data_generator acquire
  data_generator-Delivers n g = length-generate g.acq_count n

  -- A loop that ended without an error.
  Clean : Loop (Generator D) → Type 0
  Clean (ended scans has_errored g events) = has_errored ≡ false
  Clean (hung events) = Unit
  Clean out_of_fuel = Unit

  emit-Clean : (event : Event) (loop : Loop (Generator D)) → Clean loop → Clean (emit event loop)
  unfolding Clean
  emit-Clean event (ended scans has_errored g events) h = h
  emit-Clean event (hung events) h = h
  emit-Clean event out_of_fuel h = h

  head-Clean :
      (acquired : ℕ) (g : Generator D) (onward : Loop (Generator D)) (x y : Bool)
      → Clean onward
      → Clean
          (if x then ended acquired false g [] else if y then ended acquired false g [] else onward)
  unfolding Clean
  head-Clean acquired g onward true y h = refl
  head-Clean acquired g onward false true h = refl
  head-Clean acquired g onward false false h = h

  loop-Clean :
      (segment_size : ℕ) (parameters : UimfFrameParameters) (fuel acquired : ℕ) (g : Generator D)
      → Clean (acquire_loop data_generator segment_size parameters fuel acquired false g)
  unfolding Clean acquire_loop after_acquire data_generator acquire
  loop-Clean segment_size parameters zero acquired g = tt
  loop-Clean segment_size parameters (suc fuel) acquired g =
      head-Clean acquired g _ (leb parameters.frame_length acquired) (asks_to_stop g.turns)
        (emit-Clean _ _ (loop-Clean segment_size parameters fuel _ _))

  Clean-Frame :
      (segment_size : ℕ) (parameters : UimfFrameParameters) (some_size : 0 < segment_size)
      (loop : Loop (Generator D))
      → Done data_generator segment_size parameters ⊥ some_size data_generator-Delivers 0 false loop
      → Clean loop
      → (frame : IsFrame data_generator parameters
          (finish data_generator (digitizer_start ∷ []) loop))
        × (frame.has_errored ≡ false)
  unfolding Clean
  Clean-Frame segment_size parameters some_size (ended scans has_errored g events) h clean = (
    record {
      scans = scans;
      has_errored = has_errored;
      world = g;
      events = events;
      ends = refl;
      followed = h.0;
      no_more = h.1.0;
      reported = omega (arith, h.1.1.0);
      all_acquired = h.1.1.1;
    },
    clean,
  )
  Clean-Frame segment_size parameters some_size (hung events) h clean = absurd h
  Clean-Frame segment_size parameters some_size out_of_fuel h clean = absurd h

  -- Over the stand-in a frame's thread is never stuck and meets no error: it comes to its end with all
  -- scans of the frame handed on in order, unless it was stopped, on any card that is idle at first, if
  -- the segment size is positive and the fuel two above the frame's length.
  pub work-data_generator :
      (segment_size fuel : ℕ) (parameters : UimfFrameParameters) (g idle : Generator D)
      → 0 < segment_size
      → suc parameters.frame_length < fuel
      → data_generator.get_is_acquiring g ≡ some (false, idle)
      → (frame : IsFrame data_generator parameters
          (work data_generator segment_size fuel parameters g))
        × (frame.has_errored ≡ false)
  unfolding data_generator work after_query after_start
  work-data_generator segment_size fuel parameters g idle some_size enough is_idle = rw (is_idle) (
      Clean-Frame segment_size parameters some_size
        (acquire_loop data_generator segment_size parameters fuel 0 false idle)
        (loop-Done data_generator segment_size parameters ⊥ some_size data_generator-Delivers fuel 0
          false idle (omega arith) (omega arith))
        (loop-Clean segment_size parameters fuel 0 idle))
