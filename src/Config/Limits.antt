-- ===== src/Config/Limits.antt =====
-- The console's limits and the casts behind them (AqMD3_console/src/aqmd3_console.cpp).
use aq_md3_acquisition_conso.Common.{◌≡◌, true, none, arith}
use aq_md3_acquisition_conso.Common.Int.{pos, ◌≤ℤ◌}
use aq_md3_acquisition_conso.Config.{Limited, reject_bad_settings, to_int16, to_uint16}

-- Settings that are let pass reach the card as they are: the casts of the threshold to 16 signed bits
-- and of the hysteresis to 16 unsigned bits lose nothing. The hysteresis and the port are then in
-- the card's own ranges, and the full scale is one that the card has.
pub reject_bad_settings-Fits :
    (s : Limited)
    → reject_bad_settings s ≡ none
    → (to_int16 s.zero_suppress_threshold ≡ s.zero_suppress_threshold)
      × (pos (to_uint16 s.zero_suppress_hysteresis) ≡ s.zero_suppress_hysteresis)
      × ((pos 100 ≤ℤ s.zero_suppress_hysteresis) × (s.zero_suppress_hysteresis ≤ℤ pos 1023))
      × (s.full_scale_known ≡ true)
      × ((pos 1 ≤ℤ s.control_io_port) × (s.control_io_port ≤ℤ pos 3))
unfolding reject_bad_settings to_int16 to_uint16
reject_bad_settings-Fits s h = ground arith
