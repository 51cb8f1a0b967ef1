-- ===== src/Examples/Startups.antt =====
-- Starts of the console with settings files (AqMD3_console/src/aqmd3_console.cpp).
use aq_md3_acquisition_conso.Common.{
  ℕ, ◌+◌, ◌-◌, ◌*◌, ◌≡◌, refl, true, false, ◌&&◌, ◌||◌, Option, none, some, List, [], ◌∷◌, ◌==◌,
  leb, if◌then◌else◌,
}
use aq_md3_acquisition_conso.Common.Int.{ℤ, pos, negsuc}
use aq_md3_acquisition_conso.Config.{
  Text, eq_text, find, insert, tokens, tokens_from, read, read_line, read_lines,
  reject_bad_settings, config_number,
}
use aq_md3_acquisition_conso.Config.Startup.{
  Parsers, Settings, number, text_of, trim_end, lower, slope_of, trigger_slope, diagnostics_of,
  accepted, limited, configure_settings, log_levels, get_log_level_from_string, start_up, runs,
  debug,
}
use aq_md3_acquisition_conso.Config.Accepted.{IsKept, start_up-IsKept}

digits : ℕ → Text → Option ℕ
digits n [] = some n
digits n (c ∷ cs) =
    let rest = digits (n * 10 + (c - 48)) cs in if leb 48 c && leb c 57 then rest else none

whole : Option ℕ → Option ℤ
whole none = none
whole (some n) = some (pos n)

-- Numbers without a sign; a full scale is in millivolts.
abbrev parsers : Parsers ℕ
parsers = record {
  stod = digits 0;
  stoull = digits 0;
  stoll = λ t. whole (digits 0 t);
  stoi = λ t. whole (digits 0 t);
  is_full_scale = λ x. x == 500 || x == 2500;
}

-- The defaults, the delays in nanoseconds and the voltages in millivolts.
abbrev defaults : Settings ℕ
defaults = record {
  post_trigger_delay = 10000;
  estimated_trigger_rearm_time = 2048;
  resource_name =
      80 ∷ 88 ∷ 73 ∷ 48 ∷ 58 ∷ 58 ∷ 48 ∷ 58 ∷ 58 ∷ 48 ∷ 58 ∷ 58 ∷ 73 ∷ 78 ∷ 83 ∷ 84 ∷ 82 ∷ [];
  notify_on_scans_count = 500;
  acquisition_timeout_ms = pos 100;
  acquisition_initial_buffer_count = 40;
  acquisition_max_buffer_count = 100;
  acquisition_buffer_reserve_elements_count = 2048;
  log_level = 105 ∷ 110 ∷ 102 ∷ 111 ∷ [];
  trigger_level = 2000;
  full_scale_range = 500;
  zero_suppress_threshold = negsuc 32666;
  zero_suppress_hysteresis = pos 100;
  control_io_port = pos 2;
  marker_diagnostics = pos 0;
  diagnostics = false;
  trigger_rising = true;
}

-- "LogLevel=Debug", "TriggerSlope=Falling " and "ControlIoPort=3".
abbrev lines : List Text
lines =
    (76 ∷ 111 ∷ 103 ∷ 76 ∷ 101 ∷ 118 ∷ 101 ∷ 108 ∷ 61 ∷ 68 ∷ 101 ∷ 98 ∷ 117 ∷ 103 ∷ [])
    ∷ (84 ∷ 114 ∷ 105 ∷ 103 ∷ 103 ∷ 101 ∷ 114 ∷ 83 ∷ 108 ∷ 111 ∷ 112 ∷ 101 ∷ 61 ∷ 70 ∷ 97 ∷ 108
        ∷ 108 ∷ 105 ∷ 110 ∷ 103 ∷ 32 ∷ [])
    ∷ (67 ∷ 111 ∷ 110 ∷ 116 ∷ 114 ∷ 111 ∷ 108 ∷ 73 ∷ 111 ∷ 80 ∷ 111 ∷ 114 ∷ 116 ∷ 61 ∷ 51 ∷ [])
    ∷ []

abbrev changed : Settings ℕ
changed = record defaults {
  log_level = 68 ∷ 101 ∷ 98 ∷ 117 ∷ 103 ∷ [];
  trigger_rising = false;
  control_io_port = pos 3;
}

started : start_up parsers (some lines) defaults ≡ runs changed debug
unfolding start_up configure_settings number config_number text_of trigger_slope slope_of trim_end
    lower diagnostics_of accepted get_log_level_from_string log_levels reject_bad_settings find
    eq_text insert tokens tokens_from read read_line read_lines digits whole
started = refl

start_up-IsKept_example : IsKept parsers "Channel1" changed
start_up-IsKept_example = start_up-IsKept parsers "Channel1" lines defaults changed debug started

defaults_pass : reject_bad_settings (limited parsers defaults) ≡ none
unfolding reject_bad_settings
defaults_pass = refl
