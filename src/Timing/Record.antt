-- ===== src/Timing/Record.antt =====
-- The record that is left of a pusher period
-- (AqMD3_console/src/massspec/toftiminginformation.cpp).
use aq_md3_acquisition_conso.Common.{ℕ, ◌+◌, ◌%◌, ◌^◌, ◌≤◌, ◌<◌, ◌≡◌, arith}
use aq_md3_acquisition_conso.Timing.{record_size_of, Result, ok, err, no_record}

abbrev pub FitsPeriod : ℕ → ℕ → ℕ → Result (ℕ × ℕ × ℕ) → Type 0
FitsPeriod width delay rearm (ok (d, size, r)) =
    (d ≡ delay)
    × (r ≡ rearm)
    × (size % 32 ≡ 0)
    × (delay + size + rearm ≤ width)
    × (width < delay + size + rearm + 32)
FitsPeriod width delay rearm (err e) = (e ≡ no_record width delay rearm) × (width ≤ delay + rearm)

-- Either the period is no longer than the delay and the rearm time together, and that is refused; or
-- the record is the largest multiple of 32 samples that fits between them. (The sum of the two is
-- within 64 bits.)
pub record_size_of-FitsPeriod :
    (width delay rearm : ℕ)
    → width < 2 ^ 64
    → delay + rearm < 2 ^ 64
    → FitsPeriod width delay rearm (record_size_of width delay rearm)
unfolding record_size_of
record_size_of-FitsPeriod width delay rearm w s = ground arith
