-- ===== src/Config/Startup.antt =====
-- What the console takes from its settings file before it opens the card: configure_settings, the log
-- level, and the beginning of main (AqMD3_console/src/aqmd3_console.cpp). The parsers of numbers are
-- the standard library's, and floating-point numbers a type `R`: both are the interface `Parsers`.
use aq_md3_acquisition_conso.Common.{
  ℕ, ◌+◌, Bool, true, false, ◌&&◌, ◌||◌, Option, none, some, List, [], ◌∷◌, ◌==◌, leb,
  if◌then◌else◌,
}
use aq_md3_acquisition_conso.Common.Int.{ℤ, pos, eqb_ℤ}
use aq_md3_acquisition_conso.Config.{
  Text, eq_text, find, config_number, Limited, Rejection, reject_bad_settings, read,
}
use aq_md3_acquisition_conso.Config.Keys.{
  post_trigger_delay_key, trigger_rearm_dead_time_key, resource_name_key, notify_on_scans_count_key,
  acquisition_timeout_ms_key, acquisition_initial_buffer_count_key,
  acquisition_max_buffer_count_key, acquisition_buffer_reserve_elements_count_key, log_level_key,
  trigger_level_key, full_scale_range_key, zero_suppress_threshold_key,
  zero_suppress_hysteresis_key, control_io_port_key, marker_diagnostics_key, trigger_slope_key,
  rising_word, falling_word, trace_word, debug_word, info_word, warn_word, err_word, critical_word,
  off_word,
}

-- `stod`, `stoull`, `stoll` and `stoi`, which refuse a text by a throw, and the comparison of a full
-- scale with 0.5 and 2.5.
pub record Parsers (R : Type 0) : Type 0 where
  pub stod : Text → Option R
  pub stoull : Text → Option ℕ
  pub stoll : Text → Option ℤ
  pub stoi : Text → Option ℤ
  pub is_full_scale : R → Bool

-- The variables that the file sets.
pub record Settings (R : Type 0) : Type 0 where
  pub post_trigger_delay : R
  pub estimated_trigger_rearm_time : R
  pub resource_name : Text
  pub notify_on_scans_count : ℕ
  pub acquisition_timeout_ms : ℤ
  pub acquisition_initial_buffer_count : ℕ
  pub acquisition_max_buffer_count : ℕ
  pub acquisition_buffer_reserve_elements_count : ℕ
  pub log_level : Text
  pub trigger_level : R
  pub full_scale_range : R
  pub zero_suppress_threshold : ℤ
  pub zero_suppress_hysteresis : ℤ
  pub control_io_port : ℤ
  pub marker_diagnostics : ℤ
  pub diagnostics : Bool
  pub trigger_rising : Bool

-- What the start ends on: a number that does not parse, with its key, or a value that is refused.
pub data Refusal : Type 0 where
  not_a_number : Text → Refusal
  bad_marker_diagnostics : ℤ → Refusal
  bad_trigger_slope : Text → Refusal
  bad_setting : Rejection → Refusal

pub data Settled (A : Type 0) : Type 0 where
  settled : A → Settled A
  refused : Refusal → Settled A

infixl 1 ◌>>=◌
abbrev pub ◌>>=◌ : {A B : Type 0} → Settled A → (A → Settled B) → Settled B
settled a >>= f = f a
refused e >>= f = refused e

abbrev pub or_refuse : {A : Type 0} → Refusal → Option A → Settled A
or_refuse e none = refused e
or_refuse e (some a) = settled a

-- A setting that is a number: its default where the file does not name it. A text that does not parse
-- is a throw, which names the key for the settings that config_double and config_int read.
unfoldable pub number : {A : Type 0} → (Text → Option A) → List (Text × Text) → Text → A → Settled A
unfolding config_number
number parse config key fallback =
    or_refuse (not_a_number key) (config_number parse config key fallback)

unfoldable pub text_of : List (Text × Text) → Text → Text → Text
text_of config key fallback = elim (find key config) [ none ↦ fallback | some v ↦ v ]

-- " \t\r\n"
abbrev pub is_blank : ℕ → Bool
is_blank c = c == 32 || (c == 9 || (c == 13 || c == 10))

abbrev keep_head : ℕ → Text → Text
keep_head c [] = if is_blank c then [] else c ∷ []
keep_head c (d ∷ ds) = c ∷ d ∷ ds

-- `erase` from behind the last character that is not blank.
unfoldable pub trim_end : Text → Text
trim_end [] = []
trim_end (c ∷ cs) = keep_head c (trim_end cs)

-- `tolower`, in the "C" locale.
abbrev pub to_lower : ℕ → ℕ
to_lower c = if leb 65 c && leb c 90 then c + 32 else c

unfoldable pub lower : Text → Text
lower [] = []
lower (c ∷ cs) = to_lower c ∷ lower cs

unfoldable pub slope_of : Text → Settled Bool
unfolding trim_end lower
slope_of value =
    let slope = lower (trim_end value) in
    if eq_text slope rising_word
    then settled true
    else if eq_text slope falling_word
    then settled false
    else refused (bad_trigger_slope slope)

unfoldable pub trigger_slope : List (Text × Text) → Bool → Settled Bool
unfolding slope_of
trigger_slope config rising = elim (find trigger_slope_key config) [
  | none ↦ settled rising
  | some v ↦ slope_of v
]

-- `marker_diagnostics` must be 0 or 1.
unfoldable pub diagnostics_of : ℤ → Settled Bool
diagnostics_of marker_diagnostics =
    if eqb_ℤ marker_diagnostics (pos 0) || eqb_ℤ marker_diagnostics (pos 1)
    then settled (eqb_ℤ marker_diagnostics (pos 1))
    else refused (bad_marker_diagnostics marker_diagnostics)

module _ {R : Type 0} (parsers : Parsers R) where
  abbrev pub limited : Settings R → Limited
  limited s = record {
    zero_suppress_threshold = s.zero_suppress_threshold;
    zero_suppress_hysteresis = s.zero_suppress_hysteresis;
    full_scale_known = parsers.is_full_scale s.full_scale_range;
    control_io_port = s.control_io_port;
  }

  unfoldable pub accepted : Settings R → Settled (Settings R)
  accepted s = elim (reject_bad_settings (limited s)) [
    | none ↦ settled s
    | some e ↦ refused (bad_setting e)
  ]

  -- `configure_settings`, on what was read from the file.
  unfoldable pub configure_settings : List (Text × Text) → Settings R → Settled (Settings R)
  unfolding number text_of trigger_slope diagnostics_of accepted
  configure_settings config s = do
    delay ← number parsers.stod config post_trigger_delay_key s.post_trigger_delay
    rearm ← number parsers.stod config trigger_rearm_dead_time_key s.estimated_trigger_rearm_time
    let resource = text_of config resource_name_key s.resource_name
    scans ← number parsers.stoull config notify_on_scans_count_key s.notify_on_scans_count
    timeout ← number parsers.stoll config acquisition_timeout_ms_key s.acquisition_timeout_ms
    initial ←
        number parsers.stoull config acquisition_initial_buffer_count_key
          s.acquisition_initial_buffer_count
    most ←
        number parsers.stoull config acquisition_max_buffer_count_key s.acquisition_max_buffer_count
    reserve ←
        number parsers.stoull config acquisition_buffer_reserve_elements_count_key
          s.acquisition_buffer_reserve_elements_count
    let log = text_of config log_level_key s.log_level
    level ← number parsers.stod config trigger_level_key s.trigger_level
    range ← number parsers.stod config full_scale_range_key s.full_scale_range
    threshold ← number parsers.stoi config zero_suppress_threshold_key s.zero_suppress_threshold
    hysteresis ← number parsers.stoi config zero_suppress_hysteresis_key s.zero_suppress_hysteresis
    port ← number parsers.stoi config control_io_port_key s.control_io_port
    markers ← number parsers.stoi config marker_diagnostics_key s.marker_diagnostics
    diagnosed ← diagnostics_of markers
    rising ← trigger_slope config s.trigger_rising
    accepted (record {
      post_trigger_delay = delay;
      estimated_trigger_rearm_time = rearm;
      resource_name = resource;
      notify_on_scans_count = scans;
      acquisition_timeout_ms = timeout;
      acquisition_initial_buffer_count = initial;
      acquisition_max_buffer_count = most;
      acquisition_buffer_reserve_elements_count = reserve;
      log_level = log;
      trigger_level = level;
      full_scale_range = range;
      zero_suppress_threshold = threshold;
      zero_suppress_hysteresis = hysteresis;
      control_io_port = port;
      marker_diagnostics = markers;
      diagnostics = diagnosed;
      trigger_rising = rising;
    })

pub data Level : Type 0 where
  trace debug info warn err critical off : Level

unfoldable pub log_levels : List (Text × Level)
log_levels =
    (trace_word, trace)
    ∷ (debug_word, debug)
    ∷ (info_word, info)
    ∷ (warn_word, warn)
    ∷ (err_word, err)
    ∷ (critical_word, critical)
    ∷ (off_word, off)
    ∷ []

abbrev find_level : Text → List (Text × Level) → Level
find_level word [] = info
find_level word ((w, level) ∷ levels) = if eq_text w word then level else find_level word levels

unfoldable pub get_log_level_from_string : Text → Level
unfolding lower log_levels
get_log_level_from_string level_str = find_level (lower level_str) log_levels

-- What `main` has come to before it opens the card: an exit, or the settings and the log level. A
-- refusal is logged at "info", as is the run of a console without a file.
pub data StartUp (R : Type 0) : Type 0 where
  exits : Refusal → StartUp R
  runs : Settings R → Level → StartUp R

unfoldable pub start_up : {R : Type 0} → Parsers R → Option (List Text) → Settings R → StartUp R
unfolding configure_settings get_log_level_from_string text_of
start_up parsers none s = runs s info
start_up parsers (some lines) s = elim (configure_settings parsers (read (some lines)) s) [
  | refused e ↦ exits e
  | settled s' ↦
      runs s' (get_log_level_from_string (text_of (read (some lines)) log_level_key info_word))
]
