-- ===== src/Config/Keys.antt =====
-- The words that the console looks for in its settings, as their characters' codes
-- (AqMD3_console/src/aqmd3_console.cpp). A key's name ends in `_key`, a value's in `_word`.
use aq_md3_acquisition_conso.Common.{[], ◌∷◌}
use aq_md3_acquisition_conso.Config.{Text}

-- "PostTriggerDelay"
abbrev pub post_trigger_delay_key : Text
post_trigger_delay_key =
    80 ∷ 111 ∷ 115 ∷ 116 ∷ 84 ∷ 114 ∷ 105 ∷ 103 ∷ 103 ∷ 101 ∷ 114 ∷ 68 ∷ 101 ∷ 108 ∷ 97 ∷ 121 ∷ []

-- "TriggerRearmDeadTime"
abbrev pub trigger_rearm_dead_time_key : Text
trigger_rearm_dead_time_key =
    84 ∷ 114 ∷ 105 ∷ 103 ∷ 103 ∷ 101 ∷ 114 ∷ 82 ∷ 101 ∷ 97 ∷ 114 ∷ 109 ∷ 68 ∷ 101 ∷ 97 ∷ 100 ∷ 84
    ∷ 105 ∷ 109 ∷ 101 ∷ []

-- "ResourceName"
abbrev pub resource_name_key : Text
resource_name_key = 82 ∷ 101 ∷ 115 ∷ 111 ∷ 117 ∷ 114 ∷ 99 ∷ 101 ∷ 78 ∷ 97 ∷ 109 ∷ 101 ∷ []

-- "NotifyOnScansCount"
abbrev pub notify_on_scans_count_key : Text
notify_on_scans_count_key =
    78 ∷ 111 ∷ 116 ∷ 105 ∷ 102 ∷ 121 ∷ 79 ∷ 110 ∷ 83 ∷ 99 ∷ 97 ∷ 110 ∷ 115 ∷ 67 ∷ 111 ∷ 117 ∷ 110
    ∷ 116 ∷ []

-- "AcquisitionTimeoutMs"
abbrev pub acquisition_timeout_ms_key : Text
acquisition_timeout_ms_key =
    65 ∷ 99 ∷ 113 ∷ 117 ∷ 105 ∷ 115 ∷ 105 ∷ 116 ∷ 105 ∷ 111 ∷ 110 ∷ 84 ∷ 105 ∷ 109 ∷ 101 ∷ 111 ∷ 117
    ∷ 116 ∷ 77 ∷ 115 ∷ []

-- "AcquisitionInitialBufferCount"
abbrev pub acquisition_initial_buffer_count_key : Text
acquisition_initial_buffer_count_key =
    65 ∷ 99 ∷ 113 ∷ 117 ∷ 105 ∷ 115 ∷ 105 ∷ 116 ∷ 105 ∷ 111 ∷ 110 ∷ 73 ∷ 110 ∷ 105 ∷ 116 ∷ 105 ∷ 97
    ∷ 108 ∷ 66 ∷ 117 ∷ 102 ∷ 102 ∷ 101 ∷ 114 ∷ 67 ∷ 111 ∷ 117 ∷ 110 ∷ 116 ∷ []

-- "AcquisitionMaxBufferCount"
abbrev pub acquisition_max_buffer_count_key : Text
acquisition_max_buffer_count_key =
    65 ∷ 99 ∷ 113 ∷ 117 ∷ 105 ∷ 115 ∷ 105 ∷ 116 ∷ 105 ∷ 111 ∷ 110 ∷ 77 ∷ 97 ∷ 120 ∷ 66 ∷ 117 ∷ 102
    ∷ 102 ∷ 101 ∷ 114 ∷ 67 ∷ 111 ∷ 117 ∷ 110 ∷ 116 ∷ []

-- "AcquisitionBufferReserveElementsCount"
abbrev pub acquisition_buffer_reserve_elements_count_key : Text
acquisition_buffer_reserve_elements_count_key =
    65 ∷ 99 ∷ 113 ∷ 117 ∷ 105 ∷ 115 ∷ 105 ∷ 116 ∷ 105 ∷ 111 ∷ 110 ∷ 66 ∷ 117 ∷ 102 ∷ 102 ∷ 101 ∷ 114
    ∷ 82 ∷ 101 ∷ 115 ∷ 101 ∷ 114 ∷ 118 ∷ 101 ∷ 69 ∷ 108 ∷ 101 ∷ 109 ∷ 101 ∷ 110 ∷ 116 ∷ 115 ∷ 67
    ∷ 111 ∷ 117 ∷ 110 ∷ 116 ∷ []

-- "LogLevel"
abbrev pub log_level_key : Text
log_level_key = 76 ∷ 111 ∷ 103 ∷ 76 ∷ 101 ∷ 118 ∷ 101 ∷ 108 ∷ []

-- "TriggerLevel"
abbrev pub trigger_level_key : Text
trigger_level_key = 84 ∷ 114 ∷ 105 ∷ 103 ∷ 103 ∷ 101 ∷ 114 ∷ 76 ∷ 101 ∷ 118 ∷ 101 ∷ 108 ∷ []

-- "FullScaleRange"
abbrev pub full_scale_range_key : Text
full_scale_range_key =
    70 ∷ 117 ∷ 108 ∷ 108 ∷ 83 ∷ 99 ∷ 97 ∷ 108 ∷ 101 ∷ 82 ∷ 97 ∷ 110 ∷ 103 ∷ 101 ∷ []

-- "ZeroSuppressThreshold"
abbrev pub zero_suppress_threshold_key : Text
zero_suppress_threshold_key =
    90 ∷ 101 ∷ 114 ∷ 111 ∷ 83 ∷ 117 ∷ 112 ∷ 112 ∷ 114 ∷ 101 ∷ 115 ∷ 115 ∷ 84 ∷ 104 ∷ 114 ∷ 101 ∷ 115
    ∷ 104 ∷ 111 ∷ 108 ∷ 100 ∷ []

-- "ZeroSuppressHysteresis"
abbrev pub zero_suppress_hysteresis_key : Text
zero_suppress_hysteresis_key =
    90 ∷ 101 ∷ 114 ∷ 111 ∷ 83 ∷ 117 ∷ 112 ∷ 112 ∷ 114 ∷ 101 ∷ 115 ∷ 115 ∷ 72 ∷ 121 ∷ 115 ∷ 116 ∷ 101
    ∷ 114 ∷ 101 ∷ 115 ∷ 105 ∷ 115 ∷ []

-- "ControlIoPort"
abbrev pub control_io_port_key : Text
control_io_port_key = 67 ∷ 111 ∷ 110 ∷ 116 ∷ 114 ∷ 111 ∷ 108 ∷ 73 ∷ 111 ∷ 80 ∷ 111 ∷ 114 ∷ 116 ∷ []

-- "MarkerDiagnostics"
abbrev pub marker_diagnostics_key : Text
marker_diagnostics_key =
    77 ∷ 97 ∷ 114 ∷ 107 ∷ 101 ∷ 114 ∷ 68 ∷ 105 ∷ 97 ∷ 103 ∷ 110 ∷ 111 ∷ 115 ∷ 116 ∷ 105 ∷ 99 ∷ 115
    ∷ []

-- "TriggerSlope"
abbrev pub trigger_slope_key : Text
trigger_slope_key = 84 ∷ 114 ∷ 105 ∷ 103 ∷ 103 ∷ 101 ∷ 114 ∷ 83 ∷ 108 ∷ 111 ∷ 112 ∷ 101 ∷ []

-- "rising"
abbrev pub rising_word : Text
rising_word = 114 ∷ 105 ∷ 115 ∷ 105 ∷ 110 ∷ 103 ∷ []

-- "falling"
abbrev pub falling_word : Text
falling_word = 102 ∷ 97 ∷ 108 ∷ 108 ∷ 105 ∷ 110 ∷ 103 ∷ []

-- "trace"
abbrev pub trace_word : Text
trace_word = 116 ∷ 114 ∷ 97 ∷ 99 ∷ 101 ∷ []

-- "debug"
abbrev pub debug_word : Text
debug_word = 100 ∷ 101 ∷ 98 ∷ 117 ∷ 103 ∷ []

-- "info"
abbrev pub info_word : Text
info_word = 105 ∷ 110 ∷ 102 ∷ 111 ∷ []

-- "warn"
abbrev pub warn_word : Text
warn_word = 119 ∷ 97 ∷ 114 ∷ 110 ∷ []

-- "err"
abbrev pub err_word : Text
err_word = 101 ∷ 114 ∷ 114 ∷ []

-- "critical"
abbrev pub critical_word : Text
critical_word = 99 ∷ 114 ∷ 105 ∷ 116 ∷ 105 ∷ 99 ∷ 97 ∷ 108 ∷ []

-- "off"
abbrev pub off_word : Text
off_word = 111 ∷ 102 ∷ 102 ∷ []
