-- ===== src/Examples/Settings.antt =====
-- A queue filled and emptied, and a settings file read (AqMD3_console/include/subscriber.h,
-- AqMD3_console/include/util/config.h, AqMD3_console/src/aqmd3_console.cpp).
use aq_md3_acquisition_conso.Common.{
  ℕ, ◌≡◌, ◌<◌, refl, true, none, some, [], ◌∷◌, ◌++◌, length, arith,
}
use aq_md3_acquisition_conso.Common.Int.{pos, negsuc}
use aq_md3_acquisition_conso.Queue.{
  Subscriber, setup, update, drain, Reach, fresh, updated, drained,
}
use aq_md3_acquisition_conso.Queue.Order.{Reach-InOrder, passes, passes_empty}
use aq_md3_acquisition_conso.Config.{read, get_value, Limited, reject_bad_settings}
use aq_md3_acquisition_conso.Config.Lookup.{get_value-read}

abbrev two_sent : Subscriber ℕ
two_sent = update 8 (update 7 setup)

two_sent_reached : Reach two_sent (7 ∷ 8 ∷ [])
two_sent_reached = updated 8 (update 7 setup) (7 ∷ []) (updated 7 setup [] fresh)

Reach-InOrder_example :
    (drain two_sent).notified ++ ((drain two_sent).items ++ (drain two_sent).protected_queue)
    ≡ 7 ∷ 8 ∷ []
Reach-InOrder_example =
    Reach-InOrder (drain two_sent) (7 ∷ 8 ∷ []) (drained two_sent (7 ∷ 8 ∷ []) two_sent_reached)

two_queued : length two_sent.protected_queue < 4
unfolding setup update
two_queued = omega arith

passes_empty_example : length (passes 2 two_sent).protected_queue ≡ 0
passes_empty_example = passes_empty 2 two_sent two_queued

-- "K=5", and later lines that name the key again or nothing.
get_value-read_example :
    get_value
      (75 ∷ [])
      (read (some ((75 ∷ 61 ∷ 53 ∷ []) ∷ (75 ∷ 61 ∷ 54 ∷ []) ∷ [] ∷ (35 ∷ []) ∷ [])))
    ≡ some (53 ∷ [])
get_value-read_example =
    get_value-read 75 [] 53 [] ((75 ∷ 61 ∷ 54 ∷ []) ∷ [] ∷ (35 ∷ []) ∷ []) (omega arith, tt)
      (omega arith, tt) (omega arith)

-- The console's defaults.
abbrev defaults : Limited
defaults = record {
  zero_suppress_threshold = negsuc 32666;
  zero_suppress_hysteresis = pos 100;
  full_scale_known = true;
  control_io_port = pos 2;
}

defaults_pass : reject_bad_settings defaults ≡ none
unfolding reject_bad_settings
defaults_pass = refl
