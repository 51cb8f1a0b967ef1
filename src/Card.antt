-- ===== src/Card.antt =====
-- The card: the calls of the driver that Digitizer makes (libaqmd3/include/libaqmd3/digitizer.h and
-- libaqmd3/src/digitizer.cpp), and the parts of StreamingContext
-- (libaqmd3/include/libaqmd3/streamingcontext.h, libaqmd3/src/streamingcontext.cpp) that the
-- contexts share. The driver itself is the interface `Driver`, over a state `D` of the card, its
-- floating-point numbers a type `R`. `Card.Setup` has the settings of SA220.
pub mod Setup
pub mod Steps
pub mod Info
use text.Mathlib.Text.{◌==◌}
use aq_md3_acquisition_conso.Common.{Bool, true, if◌then◌else◌}
use Prim.Native.String.{String}
use aq_md3_acquisition_conso.Common.Int.{ℤ, eqb_ℤ}
use aq_md3_acquisition_conso.Stream.{check_error, is_error}

-- The values of the driver's header that the console names.
pub data Constant : Type 0 where
  streaming_mode_triggered : Constant
  acquisition_mode_normal : Constant
  data_reduction_mode_disabled : Constant
  data_reduction_mode_zero_suppress : Constant
  trigger_slope_positive trigger_slope_negative : Constant
  vertical_coupling_dc : Constant

pub data Attribute : Type 0 where
  streaming_mode sample_rate : Attribute
  active_trigger_source trigger_level trigger_slope trigger_delay : Attribute
  record_size acquisition_data_reduction_mode acquisition_mode : Attribute
  zero_suppress_hysteresis zero_suppress_threshold : Attribute
  zero_suppress_pre_gate_samples zero_suppress_post_gate_samples : Attribute
  channel_data_inversion_enabled control_io_signal : Attribute

pub data Value (R : Type 0) : Type 0 where
  constant : Constant → Value R
  whole : ℤ → Value R
  real : R → Value R
  name : String → Value R
  boolean : Bool → Value R

-- A call of the driver, the session aside.
pub data Call (R : Type 0) : Type 0 where
  set_attribute : String → Attribute → Value R → Call R
  configure_vertical : String → R → R → Constant → Bool → Call R
  apply_setup self_calibrate : Call R
  initiate_acquisition abort : Call R
  get_calibration_required is_idle is_measuring : Call R

-- What a call answers: the status, and the out-parameter where it has one.
pub record Answer : Type 0 where
  pub status : ℤ
  pub value : ℤ

pub record Driver (R : Type 0) (D : Type 0) : Type 0 where
  pub ask : Call R → D → Answer × D
  -- `AQMD3_VAL_ACQUISITION_STATUS_RESULT_TRUE`.
  pub result_true : ℤ

-- The result, or the status that was thrown.
pub data Result (A : Type 0) : Type 0 where
  ok : A → Result A
  thrown : ℤ → Result A

-- A computation on the card.
abbrev pub Run : Type 0 → Type 0 → Type 0
Run D A = D → Result A × D

abbrev pub go_on : {A B D : Type 0} → Result A × D → (A → Run D B) → Result B × D
go_on (ok a, d) f = f a d
go_on (thrown e, d) f = (thrown e, d)

infixl 1 ◌>>=◌ ◌>>◌
abbrev pub ◌>>=◌ : {A B D : Type 0} → Run D A → (A → Run D B) → Run D B
m >>= f = λ d. go_on (m d) f

abbrev pub ◌>>◌ : {A B D : Type 0} → Run D A → Run D B → Run D B
m >> k = m >>= λ _. k

abbrev pub return : {A D : Type 0} → A → Run D A
return a = λ d. (ok a, d)

abbrev pub settle : {D : Type 0} → Answer × D → Result ℤ × D
settle (a, d) = if is_error (check_error a.status) then (thrown a.status, d) else (ok a.value, d)

-- `check_and_throw_on_error` round a call of Digitizer, which is a call of the driver and `check_error`.
unfoldable pub checked : {R D : Type 0} → Driver R D → Call R → Run D ℤ
checked driver call = λ d. settle (driver.ask call d)

module _ {R : Type 0} where
  unfoldable pub configure_streaming_mode : Constant → Call R
  configure_streaming_mode mode = set_attribute "" streaming_mode (constant mode)

  unfoldable pub configure_zs_hysteresis : String → ℤ → Call R
  configure_zs_hysteresis channel hysteresis =
      set_attribute channel zero_suppress_hysteresis (whole hysteresis)

  unfoldable pub configure_zs_threshold : String → ℤ → Call R
  configure_zs_threshold channel threshold =
      set_attribute channel zero_suppress_threshold (whole threshold)

  unfoldable pub configure_zs_pre_gate_samples : String → ℤ → Call R
  configure_zs_pre_gate_samples channel samples =
      set_attribute channel zero_suppress_pre_gate_samples (whole samples)

  unfoldable pub configure_zs_post_gate_samples : String → ℤ → Call R
  configure_zs_post_gate_samples channel samples =
      set_attribute channel zero_suppress_post_gate_samples (whole samples)

  unfoldable pub configure_channel : String → R → R → Constant → Call R
  configure_channel channel range offset coupling =
      configure_vertical channel range offset coupling true

  unfoldable pub configure_channel_data_inversion : String → Bool → Call R
  configure_channel_data_inversion channel invert =
      set_attribute channel channel_data_inversion_enabled (boolean invert)

  unfoldable pub configure_sample_rate : R → Call R
  configure_sample_rate rate = set_attribute "" sample_rate (real rate)

  unfoldable pub configure_trigger_source : String → Call R
  configure_trigger_source source = set_attribute "" active_trigger_source (name source)

  unfoldable pub configure_trigger_level : String → R → Call R
  configure_trigger_level source level = set_attribute source trigger_level (real level)

  unfoldable pub configure_trigger_slope : String → Constant → Call R
  configure_trigger_slope source slope = set_attribute source trigger_slope (constant slope)

  unfoldable pub configure_trigger_delay : R → Call R
  configure_trigger_delay delay = set_attribute "" trigger_delay (real delay)

  unfoldable pub configure_record_size : ℤ → Call R
  configure_record_size size = set_attribute "" record_size (whole size)

  unfoldable pub configure_data_reduction : Constant → Call R
  configure_data_reduction mode = set_attribute "" acquisition_data_reduction_mode (constant mode)

  unfoldable pub configure_acquisition_mode : Constant → Call R
  configure_acquisition_mode mode = set_attribute "" acquisition_mode (constant mode)

  unfoldable pub configure_io_port : String → String → Call R
  configure_io_port port value = set_attribute port control_io_signal (name value)

-- The streams that a context of a channel reads.
unfoldable pub samples_channel : String → String
samples_channel channel = if channel == "Channel1" then "StreamCh1" else "StreamCh2"

unfoldable pub markers_channel : String → String
markers_channel channel = if channel == "Channel1" then "MarkersCh1" else "MarkersCh2"

module _ {R D : Type 0} (driver : Driver R D) where
  -- `StreamingContext::start`.
  unfoldable pub begin_acquisition : Run D ℤ
  unfolding checked
  begin_acquisition = checked driver initiate_acquisition

  -- `StreamingContext::stop`.
  unfoldable pub abort_acquisition : Run D ℤ
  unfolding checked
  abort_acquisition = checked driver abort

  -- `StreamingContext::get_is_acquiring`.
  unfoldable pub get_is_acquiring : Run D Bool
  unfolding checked
  get_is_acquiring = do
    status ← checked driver is_measuring
    return (eqb_ℤ status driver.result_true)
