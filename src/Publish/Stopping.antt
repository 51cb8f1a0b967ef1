-- ===== src/Publish/Stopping.antt =====
-- What repeated calls of AcquirePublisher::stop do (AqMD3_console/src/acquirepublisher.cpp).
use aq_md3_acquisition_conso.Common.{◌≡◌, refl, Bool, true, false, []}
use aq_md3_acquisition_conso.Publish.{Control, stop}

-- Every `stop` asks the loop to end. A second `stop` that ends the chain does nothing else: it sends
-- no message and joins no thread.
pub stop_again :
    (k : Control) → ((stop true k).0.should_stop ≡ true) × ((stop true (stop true k).0).1 ≡ [])
unfolding stop
stop_again k = go k.should_stop k.completed k.joinable
  where
    go :
        (asked completed joinable : Bool)
        → let k' : Control = record {
          should_stop = asked;
          completed = completed;
          joinable = joinable;
        } in
          ((stop true k').0.should_stop ≡ true) × ((stop true (stop true k').0).1 ≡ [])
    go asked true joinable = (refl, refl)
    go asked false true = (refl, refl)
    go asked false false = (refl, refl)
