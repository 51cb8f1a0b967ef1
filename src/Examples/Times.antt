-- ===== src/Examples/Times.antt =====
-- Pusher periods (AqMD3_console/src/massspec/toftiminginformation.cpp).
use aq_md3_acquisition_conso.Common.{ℕ, ◌*◌, ◌≡◌, ◌≤◌, ◌<◌, List, [], ◌∷◌, length, arith}
use aq_md3_acquisition_conso.Common.Int.{pos}
use aq_md3_acquisition_conso.Stream.{TriggerData, trigger_data}
use aq_md3_acquisition_conso.Timing.{differences, period_of, ok, record_size_of}
use aq_md3_acquisition_conso.Timing.Median.{count_in, period_rides_out_minority}
use aq_md3_acquisition_conso.Timing.Record.{FitsPeriod, record_size_of-FitsPeriod}

-- Three periods of about 200, and one gap of 800.
abbrev stamps : List TriggerData
stamps =
    trigger_data 0 0 (pos 0)
    ∷ trigger_data 200 1 (pos 0)
    ∷ trigger_data 1000 2 (pos 0)
    ∷ trigger_data 1201 3 (pos 0)
    ∷ trigger_data 1400 4 (pos 0)
    ∷ []

most_near : length (differences stamps) < 2 * count_in 199 201 (differences stamps)
unfolding differences
most_near = omega arith

period_rides_out_minority_example :
    (period : ℕ) × (period_of stamps ≡ ok period) × (199 ≤ period) × (period ≤ 201)
period_rides_out_minority_example = period_rides_out_minority 199 201 stamps (omega arith) most_near

record_size_of-FitsPeriod_example : FitsPeriod 200000 20000 4096 (record_size_of 200000 20000 4096)
record_size_of-FitsPeriod_example =
    record_size_of-FitsPeriod 200000 20000 4096 (omega arith) (omega arith)
