-- ===== src/Config/Defaults.antt =====
-- A settings file that names no setting (AqMD3_console/src/aqmd3_console.cpp).
use aq_md3_acquisition_conso.Common.{
  ◌≡◌, refl, false, none, some, Option, Bool, List, arith, [], ◌∷◌, All,
}
use aq_md3_acquisition_conso.Common.Int.{pos}
use aq_md3_acquisition_conso.Config.{Text, eq_text, find, reject_bad_settings, config_number, read}
use aq_md3_acquisition_conso.Config.Keys.{
  post_trigger_delay_key, trigger_rearm_dead_time_key, resource_name_key, notify_on_scans_count_key,
  acquisition_timeout_ms_key, acquisition_initial_buffer_count_key,
  acquisition_max_buffer_count_key, acquisition_buffer_reserve_elements_count_key, log_level_key,
  trigger_level_key, full_scale_range_key, zero_suppress_threshold_key,
  zero_suppress_hysteresis_key, control_io_port_key, marker_diagnostics_key, trigger_slope_key,
  info_word,
}
use aq_md3_acquisition_conso.Config.Startup.{
  Parsers, Settings, settled, limited, accepted, configure_settings, diagnostics_of, number,
  text_of, trigger_slope, get_log_level_from_string, start_up, info, lower, log_levels,
}

abbrev pub keys : List Text
keys =
    post_trigger_delay_key ∷ trigger_rearm_dead_time_key ∷ resource_name_key
    ∷ notify_on_scans_count_key ∷ acquisition_timeout_ms_key ∷ acquisition_initial_buffer_count_key
    ∷ acquisition_max_buffer_count_key ∷ acquisition_buffer_reserve_elements_count_key
    ∷ log_level_key ∷ trigger_level_key ∷ full_scale_range_key ∷ zero_suppress_threshold_key
    ∷ zero_suppress_hysteresis_key ∷ control_io_port_key ∷ marker_diagnostics_key
    ∷ trigger_slope_key ∷ []

-- No setting is named there.
pub record IsSilent (config : List (Text × Text)) : Type 0 where
  pub unnamed : All (λ key. find key config ≡ none) keys

number_unnamed :
    {A : Type 0} (parse : Text → Option A) (config : List (Text × Text)) (key : Text) (a : A)
    → find key config ≡ none
    → number parse config key a ≡ settled a
unfolding number config_number
number_unnamed parse config key a e = ground (arith, e)

text_unnamed :
    (config : List (Text × Text)) (key v : Text) → find key config ≡ none → text_of config key v ≡ v
unfolding text_of
text_unnamed config key v e = ground (arith, e)

slope_unnamed :
    (config : List (Text × Text)) (b : Bool)
    → find trigger_slope_key config ≡ none
    → trigger_slope config b ≡ settled b
unfolding trigger_slope
slope_unnamed config b e = ground (arith, e)

info_level : get_log_level_from_string info_word ≡ info
unfolding get_log_level_from_string lower log_levels eq_text
info_level = refl

module _ {R : Type 0} (parsers : Parsers R) where
  accepted_as_is :
      (s : Settings R)
      → reject_bad_settings (limited parsers s) ≡ none
      → accepted parsers s ≡ settled s
  unfolding accepted
  accepted_as_is s e = ground (arith, e)

  diagnosed :
      (s : Settings R)
      → s.marker_diagnostics ≡ pos 0
      → s.diagnostics ≡ false
      → diagnostics_of s.marker_diagnostics ≡ settled s.diagnostics
  unfolding diagnostics_of
  diagnosed s m d = rw (m, d) refl

  configure_settings_unnamed :
      (config : List (Text × Text)) (s : Settings R)
      → IsSilent config
      → s.marker_diagnostics ≡ pos 0
      → s.diagnostics ≡ false
      → reject_bad_settings (limited parsers s) ≡ none
      → configure_settings parsers config s ≡ settled s
  unfolding configure_settings
  configure_settings_unnamed config s silent m d ok =
      let u = silent.unnamed in
      rw
        (
          number_unnamed parsers.stod config post_trigger_delay_key s.post_trigger_delay u.0,
          number_unnamed parsers.stod config trigger_rearm_dead_time_key
              s.estimated_trigger_rearm_time u.1.0,
          text_unnamed config resource_name_key s.resource_name u.1.1.0,
          number_unnamed parsers.stoull config notify_on_scans_count_key s.notify_on_scans_count
              u.1.1.1.0,
          number_unnamed parsers.stoll config acquisition_timeout_ms_key s.acquisition_timeout_ms
              u.1.1.1.1.0,
          number_unnamed parsers.stoull config acquisition_initial_buffer_count_key
              s.acquisition_initial_buffer_count u.1.1.1.1.1.0,
          number_unnamed parsers.stoull config acquisition_max_buffer_count_key
              s.acquisition_max_buffer_count u.1.1.1.1.1.1.0,
          number_unnamed parsers.stoull config acquisition_buffer_reserve_elements_count_key
              s.acquisition_buffer_reserve_elements_count u.1.1.1.1.1.1.1.0,
          text_unnamed config log_level_key s.log_level u.1.1.1.1.1.1.1.1.0,
          number_unnamed parsers.stod config trigger_level_key s.trigger_level
              u.1.1.1.1.1.1.1.1.1.0,
          number_unnamed parsers.stod config full_scale_range_key s.full_scale_range
              u.1.1.1.1.1.1.1.1.1.1.0,
          number_unnamed parsers.stoi config zero_suppress_threshold_key s.zero_suppress_threshold
              u.1.1.1.1.1.1.1.1.1.1.1.0,
          number_unnamed parsers.stoi config zero_suppress_hysteresis_key s.zero_suppress_hysteresis
              u.1.1.1.1.1.1.1.1.1.1.1.1.0,
          number_unnamed parsers.stoi config control_io_port_key s.control_io_port
              u.1.1.1.1.1.1.1.1.1.1.1.1.1.0,
          number_unnamed parsers.stoi config marker_diagnostics_key s.marker_diagnostics
              u.1.1.1.1.1.1.1.1.1.1.1.1.1.1.0,
          diagnosed s m d,
          slope_unnamed config s.trigger_rising u.1.1.1.1.1.1.1.1.1.1.1.1.1.1.1.0,
        )
        (accepted_as_is s ok)

  -- A file that names none of the settings changes nothing: the console runs with its defaults, if
  -- they are such as it accepts, and at the same log level as without a file.
  pub start_up_silent :
      (lines : List Text) (s : Settings R)
      → IsSilent (read (some lines))
      → s.marker_diagnostics ≡ pos 0
      → s.diagnostics ≡ false
      → reject_bad_settings (limited parsers s) ≡ none
      → start_up parsers (some lines) s ≡ start_up parsers none s
  unfolding start_up
  start_up_silent lines s silent m d ok = ground (
    arith,
    configure_settings_unnamed (read (some lines)) s silent m d ok,
    text_unnamed (read (some lines)) log_level_key info_word silent.unnamed.1.1.1.1.1.1.1.1.0,
    info_level,
  )
