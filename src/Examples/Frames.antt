-- ===== src/Examples/Frames.antt =====
-- A frame from the card to the live stream, and the settings of a card
-- (AqMD3_console/src/acquirepublisher.cpp, libaqmd3/src/sa220.cpp).
use native.Mathlib.Nat.{pow-suc}
use aq_md3_acquisition_conso.Common.{
  ℕ, zero, suc, ◌+◌, ◌^◌, ◌<◌, ap, length, length-append, ◌≡◌, refl, sym, subst, true, false, some,
  List, [], ◌∷◌, ◌++◌, push_back, append-nil, append_assoc, arith,
}
use aq_md3_acquisition_conso.Common.Int.{pos, negsuc}
use aq_md3_acquisition_conso.Encode.{UimfFrameParameters, UimfAcquisitionRecord}
use aq_md3_acquisition_conso.Pool
use aq_md3_acquisition_conso.Zs1
use aq_md3_acquisition_conso.Card.{Driver, checked, get_is_acquiring, begin_acquisition}
use aq_md3_acquisition_conso.Stream.{check_error}
use aq_md3_acquisition_conso.Card.Setup.{
  zero_suppress_parameters, cst_zs1_context, configure_cst_zs,
}
use aq_md3_acquisition_conso.Card.Steps.{Ends, zs_setup, configure_cst_zs-Ends}
use aq_md3_acquisition_conso.Queue
use aq_md3_acquisition_conso.Queue.{
  Subscriber, Reach, setup, update, drain, notify_items, is_over, move_items, updated, fresh,
  drained, notifies, stopped, shares, frame_type,
}
use aq_md3_acquisition_conso.Queue.Order.{passes, passes_empty}
use aq_md3_acquisition_conso.Publish.Events.{records, events_of}
use aq_md3_acquisition_conso.Pipeline.{Machine, zs1}
use aq_md3_acquisition_conso.Pipeline.Rows.{forwarded}
use aq_md3_acquisition_conso.Pipeline.Delivery.{worked, Arrives, worked-Arrives}
use aq_md3_acquisition_conso.Pipeline.Generator.{Generator, data_generator, work-data_generator}
use aq_md3_acquisition_conso.Publish.{work}
use aq_md3_acquisition_conso.Publish.Frame.{IsFrame}
use aq_md3_acquisition_conso.Examples.Markers.{stream}

-- A card that accepts every call, counts them, and asks for a calibration.
abbrev pub card : Driver ℕ ℕ
card = record {
  ask = λ call d. (record { status = pos 0; value = pos 1 }, d + 1);
  result_true = pos 2;
}

configure_cst_zs-Ends_example :
    Ends card
      (zs_setup "Channel1" (zero_suppress_parameters (negsuc 32666) 100))
      (cst_zs1_context "Channel1")
      0
      (configure_cst_zs card "Channel1" (zero_suppress_parameters (negsuc 32666) 100) 0)
configure_cst_zs-Ends_example =
    configure_cst_zs-Ends card "Channel1" (zero_suppress_parameters (negsuc 32666) 100) 0

abbrev pub one_scan : UimfFrameParameters
one_scan = record {
  start_trigger = 0;
  nbr_samples = 64;
  nbr_accumulations = 1;
  frame_length = 1;
  frame_number = 1;
  offset_bins = 0;
  file_name = [];
}

abbrev pub machine : ℕ → Machine ℕ
machine calls = record {
  card = calls;
  context = Zs1.create 4;
  buffer_pool = Pool.create_pool 4 64 1 2;
  fetches = stream;
  turns = [];
}

-- A queue that is filled, and then emptied by its subscriber's thread.
updates {ℓ} : {T : Type ℓ} → List T → Subscriber T → Subscriber T
updates [] s = s
updates (x ∷ xs) s = updates xs (update x s)

updates-Reach {ℓ} :
    {T : Type ℓ} (xs : List T) (s : Subscriber T) (sent : List T)
    → Reach s sent
    → Reach (updates xs s) (sent ++ xs)
unfolding updates
updates-Reach [] s sent r = subst (Reach s) (sym (append-nil sent)) r
updates-Reach (x ∷ xs) s sent r =
    subst (Reach (updates xs (update x s))) (append_assoc sent (x ∷ []) xs)
      (updates-Reach xs (update x s) (push_back sent x) (updated x s sent r))

pub at_end {ℓ} : {T : Type ℓ} → List T → Subscriber T
at_end xs = record (passes (length xs) (updates xs setup)) { stop = true }

passes-Reach {ℓ} :
    {T : Type ℓ} (n : ℕ) (s : Subscriber T) (sent : List T) → Reach s sent → Reach (passes n s) sent
passes-Reach zero s sent r = r
passes-Reach (suc n) s sent r =
    passes-Reach n (notify_items (drain s)) sent (notifies (drain s) sent (drained s sent r))

pub at_end-Reach {ℓ} : {T : Type ℓ} (xs : List T) → Reach (at_end xs) xs
unfolding at_end
at_end-Reach xs =
    stopped (passes (length xs) (updates xs setup)) xs
      (passes-Reach (length xs) (updates xs setup) xs (updates-Reach xs setup [] fresh))

pub idles : (zs1 card false).get_is_acquiring (machine 0) ≡ some (false, machine 1)
unfolding zs1 get_is_acquiring checked check_error
idles = refl

abbrev pub begun : Machine ℕ
begun = record (machine 2) { context = Zs1.start (Zs1.create 4) }

pub starts : (zs1 card false).start (machine 1) ≡ some begun
unfolding zs1 begin_acquisition checked check_error
starts = refl

abbrev handed_on : List UimfAcquisitionRecord
handed_on = records (events_of (worked card false 1 3 one_scan (machine 0)))

-- A queue is emptied by as many passes as it has items.
below_power : (n : ℕ) → n < 2 ^ n
below_power zero = omega arith
below_power (suc n) = omega (arith, below_power n, pow-suc 2 n)

updates-queue {ℓ} :
    {T : Type ℓ} (xs : List T) (s : Subscriber T)
    → length (updates xs s).protected_queue ≡ length s.protected_queue + length xs
unfolding updates update
updates-queue [] s = omega arith
updates-queue (x ∷ xs) s =
    omega (arith, updates-queue xs (update x s), length-append s.protected_queue (x ∷ []))

passes-items {ℓ} :
    {T : Type ℓ} (n : ℕ) (s : Subscriber T) → length s.items ≡ 0 → length (passes n s).items ≡ 0
unfolding drain notify_items
passes-items zero s h = h
passes-items (suc n) s h = passes-items n (notify_items (drain s)) refl

updates-items {ℓ} : {T : Type ℓ} (xs : List T) (s : Subscriber T) → (updates xs s).items ≡ s.items
unfolding updates update
updates-items [] s = refl
updates-items (x ∷ xs) s = updates-items xs (update x s)

pub at_end_over {ℓ} : {T : Type ℓ} (xs : List T) → is_over (at_end xs) ≡ true
unfolding is_over at_end setup
at_end_over xs = ground (
  arith,
  passes-items (length xs) (updates xs setup) (ap length (updates-items xs setup)),
  passes_empty (length xs) (updates xs setup)
      (omega (arith, updates-queue xs setup, below_power (length xs))),
)

worked-Arrives_example :
    Arrives card false 1 3 one_scan
      (machine 0)
      (at_end (forwarded Queue.acquire (at_end handed_on).notified)).notified
unfolding frame_type shares
worked-Arrives_example =
    worked-Arrives card false 1 3 one_scan (machine 0) (machine 1) begun (at_end handed_on)
      Queue.acquire (at_end (forwarded Queue.acquire (at_end handed_on).notified)) (omega arith)
      (omega arith) (omega arith) idles starts refl (at_end-Reach handed_on) (at_end_over handed_on)
      (at_end-Reach (forwarded Queue.acquire (at_end handed_on).notified))
      (at_end_over (forwarded Queue.acquire (at_end handed_on).notified))

abbrev generator : Generator ℕ
generator = record { card = 0; acq_count = 7; buffer_pool = Pool.create_pool 4 800 1 2; turns = [] }

generator_idles :
    (data_generator card true).get_is_acquiring generator
    ≡ some (false, record generator { card = 1 })
unfolding data_generator get_is_acquiring checked check_error
generator_idles = refl

work-data_generator_example :
    (frame : IsFrame
      (data_generator card true)
      one_scan
      (work (data_generator card true) 1 3 one_scan generator))
    × (frame.has_errored ≡ false)
work-data_generator_example =
    work-data_generator card true 1 3 one_scan generator (record generator { card = 1 })
      (omega arith) (omega arith) generator_idles
