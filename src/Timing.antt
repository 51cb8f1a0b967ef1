-- ===== src/Timing.antt =====
-- AqMD3_console: TofTimingInformation (AqMD3_console/include/massspec/toftiminginformation.h and
-- AqMD3_console/src/massspec/toftiminginformation.cpp), the measurement of the pusher period and the
-- record size that follows from it. The program's `double`s are a parameter.
pub mod Median
pub mod Record
use aq_md3_acquisition_conso.Common.{
  ℕ, suc, ◌+◌, ◌-◌, ◌*◌, ◌/◌, ◌%◌, Bool, true, false, ◌||◌, Option, none, some, List, [], ◌∷◌, ◌==◌,
  ltb, leb, if◌then◌else◌, length, get_or,
}
use aq_md3_acquisition_conso.Common.Word.{u64, sub64}
use aq_md3_acquisition_conso.Stream.{TriggerData, AcquiredData, Failure}
use aq_md3_acquisition_conso.Cst

-- What the code does with a `double`; `to_u64` is the conversion to `uint64_t`.
pub record Double {ℓ} (R : Type ℓ) : Type ℓ where
  pub of_u64 : ℕ → R
  pub times : R → R → R
  pub over : R → R → R
  pub less : R → R → Bool
  pub to_u64 : R → ℕ
  -- 2000000000.0, 1e-6 and 0.1
  pub max_sample_rate : R
  pub min_pusher_period_seconds : R
  pub max_pusher_period_seconds : R

pub data TimingError : Type 0 where
  acquisition_failed : Failure → TimingError
  too_few_timestamps : ℕ → TimingError
  outside_band : ℕ → TimingError
  no_record : ℕ → ℕ → ℕ → TimingError

pub data Result {ℓ} (A : Type ℓ) : Type ℓ where
  ok : A → Result A
  err : TimingError → Result A

infixl 5 ◌>>=◌
abbrev pub ◌>>=◌ {ℓ κ} : {A : Type ℓ} {B : Type κ} → Result A → (A → Result B) → Result B
ok a >>= f = f a
err e >>= f = err e

-- The differences of consecutive timestamps, which wrap.
unfoldable pub differences : List TriggerData → List ℕ
differences [] = []
differences (a ∷ []) = []
differences (a ∷ b ∷ ts) = sub64 b.timestamp a.timestamp ∷ differences (b ∷ ts)

-- `std::nth_element` leaves at its position what sorting would.
unfoldable pub insert_sorted : ℕ → List ℕ → List ℕ
insert_sorted x [] = x ∷ []
insert_sorted x (y ∷ ys) = if leb x y then x ∷ y ∷ ys else y ∷ insert_sorted x ys

unfoldable pub sort : List ℕ → List ℕ
sort [] = []
sort (x ∷ xs) = insert_sorted x (sort xs)

unfoldable pub nth_element : List ℕ → ℕ → ℕ
nth_element xs n = get_or (sort xs) n 0

-- The end of `get_trigger_period_samples`: the median difference.
unfoldable pub period_of : List TriggerData → Result ℕ
period_of stamps =
    if ltb (length stamps) 2
    then err (too_few_timestamps (length stamps))
    else ok (nth_element (differences stamps) (length (differences stamps) / 2))

-- What the streaming context answers to the calls of the measurement, in their order.
pub record Session : Type 0 where
  pub start : Option Failure
  pub acquire : Cst.Outcome AcquiredData
  pub stop_between : Option Failure
  pub start_again : Option Failure
  pub acquire_again : Cst.Outcome AcquiredData

pub data Call : Type 0 where
  starts acquires stops : Call

-- The data, with the calls made so far; `none` is an acquire that is still waiting.
pub data Measured : Type 0 where
  data_of : AcquiredData → Measured
  failure_of : Failure → Measured
  hanging : Measured

abbrev pub second_try : Session → Measured × List Call
second_try s = elim s.stop_between [
  | some e ↦ (failure_of e, starts ∷ acquires ∷ stops ∷ stops ∷ [])
  | none ↦ elim s.start_again [
    | some e ↦ (failure_of e, starts ∷ acquires ∷ stops ∷ starts ∷ stops ∷ [])
    | none ↦ elim s.acquire_again [
      | Cst.returned d fs ↦ (data_of d, starts ∷ acquires ∷ stops ∷ starts ∷ acquires ∷ stops ∷ [])
      | Cst.threw e ↦ (failure_of e, starts ∷ acquires ∷ stops ∷ starts ∷ acquires ∷ stops ∷ [])
      | Cst.waiting ↦ (hanging, starts ∷ acquires ∷ stops ∷ starts ∷ acquires ∷ [])
    ]
  ]
]

-- One retry, and the context stopped on the way out of the function, whichever way that is.
unfoldable pub measure : Session → Measured × List Call
measure s = elim s.start [
  | some e ↦ (failure_of e, starts ∷ stops ∷ [])
  | none ↦ elim s.acquire [
    | Cst.returned d fs ↦ (data_of d, starts ∷ acquires ∷ stops ∷ [])
    | Cst.threw e ↦ second_try s
    | Cst.waiting ↦ (hanging, starts ∷ acquires ∷ [])
  ]
]

-- The numbers of `get_optimal_record_size`, after the conversions: delay, record, rearm.
unfoldable pub record_size_of : ℕ → ℕ → ℕ → Result (ℕ × ℕ × ℕ)
record_size_of width delay rearm =
    if leb width (u64 (delay + rearm))
    then err (no_record width delay rearm)
    else (let size = sub64 (sub64 width delay) rearm in
        ok (delay, (if size % 32 == 0 then size else size / 32 * 32), rearm))

pub record TofTimingInformation : Type 0 where
  pub samples_per_trigger : ℕ
  pub record_size : ℕ
  pub post_trigger_delay_samples : ℕ
  pub trigger_rearm_samples : ℕ

module _ {ℓ} {R : Type ℓ} ⦃d : Double R⦄ where
  unfoldable pub get_optimal_record_size : ℕ → R → R → R → Result (ℕ × ℕ × ℕ)
  get_optimal_record_size width delay_s sample_rate rearm_s =
      record_size_of (d.to_u64 (d.times (d.of_u64 width) (d.over sample_rate d.max_sample_rate)))
        (d.to_u64 (d.times delay_s sample_rate)) (d.to_u64 (d.times rearm_s sample_rate))

  -- `create_timing_information`, given the period that was measured.
  unfoldable pub timing_of_period : ℕ → R → R → R → Result TofTimingInformation
  timing_of_period period sample_rate delay_s rearm_s =
      let seconds = d.over (d.of_u64 period) sample_rate in
      if d.less seconds d.min_pusher_period_seconds || d.less d.max_pusher_period_seconds seconds
      then err (outside_band period)
      else (get_optimal_record_size period delay_s sample_rate rearm_s >>= λ t. ok (record {
        samples_per_trigger = period;
        record_size = t.1;
        post_trigger_delay_samples = t.0;
        trigger_rearm_samples = t.2;
      }))

  unfoldable pub create_timing_information :
      List TriggerData → R → R → R → Result TofTimingInformation
  create_timing_information stamps sample_rate delay_s rearm_s =
      period_of stamps >>= λ period. timing_of_period period sample_rate delay_s rearm_s
