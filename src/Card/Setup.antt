-- ===== src/Card/Setup.antt =====
-- The settings of the card: SA220 (libaqmd3/include/libaqmd3/sa220.h, libaqmd3/src/sa220.cpp), each a
-- sequence of driver calls that the first error ends.
use Prim.Native.String.{String}
use aq_md3_acquisition_conso.Common.{ℕ, Bool, if◌then◌else◌}
use aq_md3_acquisition_conso.Common.Int.{ℤ, pos, eqb_ℤ}
use aq_md3_acquisition_conso.Common.Word.{signed64}
use aq_md3_acquisition_conso.Card.{
  apply_setup, self_calibrate, get_calibration_required, is_idle, Driver, Run, ◌>>=◌, ◌>>◌, return,
  checked, streaming_mode_triggered, acquisition_mode_normal, data_reduction_mode_disabled,
  data_reduction_mode_zero_suppress, trigger_slope_positive, trigger_slope_negative,
  vertical_coupling_dc, configure_streaming_mode, configure_zs_hysteresis, configure_zs_threshold,
  configure_zs_pre_gate_samples, configure_zs_post_gate_samples, configure_channel,
  configure_channel_data_inversion, configure_sample_rate, configure_trigger_source,
  configure_trigger_level, configure_trigger_slope, configure_trigger_delay, configure_record_size,
  configure_data_reduction, configure_acquisition_mode, configure_io_port,
}

pub record ZeroSuppressParameters : Type 0 where
  pub threshold : ℤ
  pub hysteresis : ℕ
  pub pre_samples : ℕ
  pub post_samples : ℕ

-- The constructor.
unfoldable pub zero_suppress_parameters : ℤ → ℕ → ZeroSuppressParameters
zero_suppress_parameters threshold hysteresis = record {
  threshold = threshold;
  hysteresis = hysteresis;
  pre_samples = 0;
  post_samples = 0;
}

-- The streaming context that a configuration makes, for a channel.
pub data Made : Type 0 where
  cst_context : String → Made
  cst_zs1_context : String → Made

module _ {R D : Type 0} (driver : Driver R D) where
  unfoldable pub set_sampling_rate : R → Run D ℤ
  set_sampling_rate rate = checked driver (configure_sample_rate rate)

  -- The count of elements becomes a `ViInt64`.
  unfoldable pub set_record_size : ℕ → Run D ℤ
  set_record_size elements = checked driver (configure_record_size (signed64 elements))

  unfoldable pub set_trigger_parameters : String → R → Bool → R → Run D ℤ
  set_trigger_parameters trigger level is_rising_edge_triggered delay = do
    let slope = if is_rising_edge_triggered then trigger_slope_positive else trigger_slope_negative
    checked driver (configure_trigger_source trigger)
    checked driver (configure_trigger_level trigger level)
    checked driver (configure_trigger_slope trigger slope)
    checked driver (configure_trigger_delay delay)

  unfoldable pub set_channel_parameters : String → R → R → Run D ℤ
  set_channel_parameters channel range offset =
      checked driver (configure_channel channel range offset vertical_coupling_dc)

  unfoldable pub set_channel_data_inversion : String → Bool → Run D ℤ
  set_channel_data_inversion channel enable =
      checked driver (configure_channel_data_inversion channel enable)

  unfoldable pub enable_io_port : String → Run D ℤ
  enable_io_port io_port = checked driver (configure_io_port io_port "In-TriggerEnable")

  unfoldable pub disable_io_port : String → Run D ℤ
  disable_io_port io_port = checked driver (configure_io_port io_port "Disabled")

  unfoldable pub get_is_idle : Run D Bool
  get_is_idle = do result ← checked driver is_idle; return (eqb_ℤ result driver.result_true)

  -- What both configurations do last: the card is calibrated if it asks for it.
  unfoldable pub calibrate_if : ℤ → Made → Run D Made
  calibrate_if is_required made =
      if eqb_ℤ is_required (pos 0)
      then return made
      else (checked driver self_calibrate >> return made)

  unfoldable pub configure_cst : String → Run D Made
  configure_cst channel = do
    checked driver (configure_streaming_mode streaming_mode_triggered)
    checked driver (configure_acquisition_mode acquisition_mode_normal)
    checked driver (configure_data_reduction data_reduction_mode_disabled)
    checked driver apply_setup
    is_required ← checked driver get_calibration_required
    calibrate_if is_required (cst_context channel)

  unfoldable pub configure_cst_zs : String → ZeroSuppressParameters → Run D Made
  configure_cst_zs channel parameters = do
    checked driver (configure_streaming_mode streaming_mode_triggered)
    checked driver (configure_data_reduction data_reduction_mode_zero_suppress)
    checked driver (configure_zs_hysteresis channel (pos parameters.hysteresis))
    checked driver (configure_zs_threshold channel parameters.threshold)
    checked driver (configure_zs_pre_gate_samples channel (pos parameters.pre_samples))
    checked driver (configure_zs_post_gate_samples channel (pos parameters.post_samples))
    checked driver apply_setup
    is_required ← checked driver get_calibration_required
    calibrate_if is_required (cst_zs1_context channel)
