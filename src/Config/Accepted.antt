-- ===== src/Config/Accepted.antt =====
-- What the settings that the console starts with are (AqMD3_console/src/aqmd3_console.cpp).
use Prim.Native.String.{String}
use aq_md3_acquisition_conso.Common.{
  ◌≡◌, ◌⊎◌, refl, subst, Bool, true, false, Option, none, some, List, [], ◌∷◌, arith,
}
use aq_md3_acquisition_conso.Common.Int.{ℤ, pos, ◌≤ℤ◌}
use aq_md3_acquisition_conso.Config.{
  Text, Rejection, read, reject_bad_settings, to_int16, to_uint16,
}
use aq_md3_acquisition_conso.Config.Limits.{reject_bad_settings-Fits}
use aq_md3_acquisition_conso.Config.Keys.{log_level_key, info_word}
use aq_md3_acquisition_conso.Config.Startup.{
  Parsers, Settings, Settled, settled, refused, ◌>>=◌, limited, accepted, configure_settings,
  diagnostics_of, start_up, StartUp, Level, get_log_level_from_string, exits, runs, text_of,
  bad_setting,
}
use aq_md3_acquisition_conso.Card.{
  apply_setup, streaming_mode_triggered, data_reduction_mode_zero_suppress,
  configure_streaming_mode, configure_data_reduction, configure_zs_hysteresis,
  configure_zs_threshold, configure_zs_pre_gate_samples, configure_zs_post_gate_samples,
}
use aq_md3_acquisition_conso.Card.Setup.{zero_suppress_parameters}
use aq_md3_acquisition_conso.Card.Steps.{zs_setup}

-- What holds of any result there is.
abbrev Holds : {A : Type 0} → (A → Type 0) → Settled A → Type 0
Holds P (settled a) = P a
Holds P (refused e) = Unit

bind-Holds :
    {A B : Type 0} (P : B → Type 0) (m : Settled A) (f : A → Settled B)
    → ((a : A) → m ≡ settled a → Holds P (f a))
    → Holds P (m >>= f)
bind-Holds P (settled a) f h = h a refl
bind-Holds P (refused e) f h = tt

module _ {R : Type 0} (parsers : Parsers R) where
  -- Settings that no check refuses.
  pub record IsAccepted (s : Settings R) : Type 0 where
    pub let_pass : reject_bad_settings (limited parsers s) ≡ none
    pub traced :
        ((s.marker_diagnostics ≡ pos 0) × (s.diagnostics ≡ false))
        ⊎ ((s.marker_diagnostics ≡ pos 1) × (s.diagnostics ≡ true))

  diagnostics_of-traced :
      (markers : ℤ) (b : Bool)
      → diagnostics_of markers ≡ settled b
      → ((markers ≡ pos 0) × (b ≡ false)) ⊎ ((markers ≡ pos 1) × (b ≡ true))
  unfolding diagnostics_of
  diagnostics_of-traced markers b h = ground (arith, h)

  accepted-Holds :
      (s : Settings R)
      → ((s.marker_diagnostics ≡ pos 0) × (s.diagnostics ≡ false))
        ⊎ ((s.marker_diagnostics ≡ pos 1) × (s.diagnostics ≡ true))
      → Holds IsAccepted (accepted parsers s)
  unfolding accepted
  accepted-Holds s traced = go (reject_bad_settings (limited parsers s)) refl
    where
      go :
          (o : Option Rejection)
          → reject_bad_settings (limited parsers s) ≡ o
          → Holds IsAccepted (elim o as (λ _. Settled (Settings R)) [
            | none ↦ settled s
            | some e ↦ refused (bad_setting e)
          ])
      go none e = record { let_pass = e; traced = traced }
      go (some x) e = tt

  configure_settings-Holds :
      (config : List (Text × Text)) (s : Settings R)
      → Holds IsAccepted (configure_settings parsers config s)
  unfolding configure_settings
  configure_settings-Holds config s =
      search (bind-Holds, accepted-Holds, diagnostics_of-traced) depth 40

  -- A configured value that the card has: its calls are those of the settings themselves.
  pub record IsKept (channel : String) (s : Settings R) : Type 0 where
    pub suppressed :
        zs_setup {R = R} channel (
          zero_suppress_parameters
            (to_int16 s.zero_suppress_threshold)
            (to_uint16 s.zero_suppress_hysteresis))
        ≡ configure_streaming_mode streaming_mode_triggered
          ∷ configure_data_reduction data_reduction_mode_zero_suppress
          ∷ configure_zs_hysteresis channel s.zero_suppress_hysteresis
          ∷ configure_zs_threshold channel s.zero_suppress_threshold
          ∷ configure_zs_pre_gate_samples channel (pos 0)
          ∷ configure_zs_post_gate_samples channel (pos 0)
          ∷ apply_setup
          ∷ []
    pub hysteresis_kept :
        (pos 100 ≤ℤ s.zero_suppress_hysteresis) × (s.zero_suppress_hysteresis ≤ℤ pos 1023)
    pub full_scale_kept : parsers.is_full_scale s.full_scale_range ≡ true
    pub port_kept : (pos 1 ≤ℤ s.control_io_port) × (s.control_io_port ≤ℤ pos 3)
    pub traced :
        ((s.marker_diagnostics ≡ pos 0) × (s.diagnostics ≡ false))
        ⊎ ((s.marker_diagnostics ≡ pos 1) × (s.diagnostics ≡ true))

  accepted-IsKept : (channel : String) (s : Settings R) → IsAccepted s → IsKept channel s
  unfolding zero_suppress_parameters
  accepted-IsKept channel s h =
      let fits = reject_bad_settings-Fits (limited parsers s) h.let_pass in
      record {
        suppressed = λ k.
            configure_streaming_mode streaming_mode_triggered
            ∷ configure_data_reduction data_reduction_mode_zero_suppress
            ∷ configure_zs_hysteresis channel (fits.1 k)
            ∷ configure_zs_threshold channel (fits.0 k)
            ∷ configure_zs_pre_gate_samples channel (pos 0)
            ∷ configure_zs_post_gate_samples channel (pos 0)
            ∷ apply_setup
            ∷ [];
        hysteresis_kept = fits.2;
        full_scale_kept = fits.3;
        port_kept = fits.4;
        traced = h.traced;
      }

  -- Whatever the settings file holds, a console that comes to open the card has settings that reach the
  -- card as they are: the zero-suppressing configuration asks the driver for the threshold and the
  -- hysteresis that the settings say, through the casts to 16 bits, and the hysteresis, the full
  -- scale and the port are the card's.
  pub start_up-IsKept :
      (channel : String) (lines : List Text) (s s' : Settings R) (level : Level)
      → start_up parsers (some lines) s ≡ runs s' level
      → IsKept channel s'
  unfolding start_up
  start_up-IsKept channel lines s s' level e =
      go (configure_settings parsers (read (some lines)) s)
        (configure_settings-Holds (read (some lines)) s) e
    where
      go :
          (o : Settled (Settings R))
          → Holds IsAccepted o
          → (elim o as (λ _. StartUp R) [
            | refused x ↦ exits x
            | settled x ↦
                runs x
                  (get_log_level_from_string (text_of (read (some lines)) log_level_key info_word))
          ])
            ≡ runs s' level
          → IsKept channel s'
      go (settled x) h p =
          let same : x ≡ s' = cc in subst (IsKept channel) same (accepted-IsKept channel x h)
      go (refused x) h p = absurd (ground (arith, p))
