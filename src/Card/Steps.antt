-- ===== src/Card/Steps.antt =====
-- What a configuration of the card leaves, over any driver (libaqmd3/src/sa220.cpp).
use Prim.Native.String.{String}
use aq_md3_acquisition_conso.Common.{
  ◌≡◌, ◌⊎◌, Bool, true, false, List, [], ◌∷◌, ◌++◌, if◌then◌else◌, arith,
}
use aq_md3_acquisition_conso.Common.Int.{ℤ, pos, eqb_ℤ}
use aq_md3_acquisition_conso.Stream.{check_error, is_error}
use aq_md3_acquisition_conso.Card.{
  Call, apply_setup, self_calibrate, get_calibration_required, Driver, Result, ok, thrown, Run,
  ◌>>=◌, ◌>>◌, checked, streaming_mode_triggered, acquisition_mode_normal,
  data_reduction_mode_disabled, data_reduction_mode_zero_suppress, configure_streaming_mode,
  configure_zs_hysteresis, configure_zs_threshold, configure_zs_pre_gate_samples,
  configure_zs_post_gate_samples, configure_data_reduction, configure_acquisition_mode,
}
use aq_md3_acquisition_conso.Card.Setup.{
  ZeroSuppressParameters, Made, cst_context, cst_zs1_context, calibrate_if, configure_cst,
  configure_cst_zs,
}

-- The settings of the two configurations, in order, ending in the call that applies them.
abbrev pub cst_setup : {R : Type 0} → List (Call R)
cst_setup =
    configure_streaming_mode streaming_mode_triggered
    ∷ configure_acquisition_mode acquisition_mode_normal
    ∷ configure_data_reduction data_reduction_mode_disabled
    ∷ apply_setup
    ∷ []

abbrev pub zs_setup : {R : Type 0} → String → ZeroSuppressParameters → List (Call R)
zs_setup channel parameters =
    configure_streaming_mode streaming_mode_triggered
    ∷ configure_data_reduction data_reduction_mode_zero_suppress
    ∷ configure_zs_hysteresis channel (pos parameters.hysteresis)
    ∷ configure_zs_threshold channel parameters.threshold
    ∷ configure_zs_pre_gate_samples channel (pos parameters.pre_samples)
    ∷ configure_zs_post_gate_samples channel (pos parameters.post_samples)
    ∷ apply_setup
    ∷ []

module _ {R D : Type 0} (driver : Driver R D) where
  unfoldable pub refuses : Call R → D → Bool
  refuses call d = is_error (check_error (driver.ask call d).0.status)

  -- The calls were made one after the other from `d` to `d'`, and none was an error.
  unfoldable pub Steps : List (Call R) → D → D → Type 0
  Steps [] d d' = d ≡ d'
  Steps (call ∷ calls) d d' = (refuses call d ≡ false) × Steps calls (driver.ask call d).1 d'

  -- One of the calls was an error, which is the status thrown; those before it were none, and those
  -- after it were not made.
  unfoldable pub StopsAt : List (Call R) → D → ℤ → D → Type 0
  StopsAt [] d status d' = ⊥
  StopsAt (call ∷ calls) d status d' =
      (refuses call d ≡ true)
        × (((driver.ask call d).0.status ≡ status) × ((driver.ask call d).1 ≡ d'))
      ⊎ (refuses call d ≡ false) × StopsAt calls (driver.ask call d).1 status d'

  -- The calls after the setup was applied.
  unfoldable pub calibration : D → List (Call R)
  calibration d =
      get_calibration_required
      ∷ (if eqb_ℤ (driver.ask get_calibration_required d).0.value (pos 0)
          then []
          else self_calibrate ∷ [])

  -- How a configuration ends: with the context it is for after all its calls, or at the first error.
  abbrev pub Ends : List (Call R) → Made → D → Result Made × D → Type 0
  Ends setup made d (ok m, d') =
      (m ≡ made) × ((applied : D) × Steps setup d applied × Steps (calibration applied) applied d')
  Ends setup made d (thrown status, d') =
      StopsAt (setup ++ get_calibration_required ∷ self_calibrate ∷ []) d status d'

  -- A sequence of checked calls, and what follows it.
  abbrev calls_then : List (Call R) → Run D Made → Run D Made
  calls_then [] rest = rest
  calls_then (call ∷ calls) rest = checked driver call >> calls_then calls rest

  abbrev finish : Made → Run D Made
  finish made = checked driver get_calibration_required >>= λ is_required.
      calibrate_if driver is_required made

  finish-Ends : (made : Made) (d : D) → Ends [] made d (finish made d)
  unfolding checked calibrate_if Steps StopsAt refuses calibration
  finish-Ends made d = ground arith

  calls_then-Ends :
      (setup : List (Call R)) (made : Made) (d : D)
      → Ends setup made d (calls_then setup (finish made) d)
  unfolding checked Steps StopsAt refuses
  calls_then-Ends [] made d = finish-Ends made d
  calls_then-Ends (call ∷ calls) made d =
      ground (arith, calls_then-Ends calls made (driver.ask call d).1)

  -- The plain configuration makes its settings in order and applies them, asks whether to calibrate
  -- and does so exactly if the card says so, and makes a CST context, if no call is an error; the
  -- first that is ends it, with nothing made and no later call.
  pub configure_cst-Ends :
      (channel : String) (d : D)
      → Ends cst_setup (cst_context channel) d (configure_cst driver channel d)
  unfolding configure_cst
  configure_cst-Ends channel d = calls_then-Ends cst_setup (cst_context channel) d

  -- The zero-suppressing configuration makes its settings in order and applies them, asks whether to
  -- calibrate and does so exactly if the card says so, and makes a ZS1 context, if no call is an error;
  -- the first that is ends it, with nothing made and no later call.
  pub configure_cst_zs-Ends :
      (channel : String) (parameters : ZeroSuppressParameters) (d : D)
      → Ends
          (zs_setup channel parameters)
          (cst_zs1_context channel)
          d
          (configure_cst_zs driver channel parameters d)
  unfolding configure_cst_zs
  configure_cst_zs-Ends channel parameters d =
      calls_then-Ends (zs_setup channel parameters) (cst_zs1_context channel) d
