-- ===== src/Console/Controller.antt =====
-- When the handler calls a null controller (AqMD3_console/src/aqmd3_console.cpp).
use aq_md3_acquisition_conso.Common.{◌≡◌, ◌≢◌, refl, true, List, [], ◌∷◌, All, arith}
use aq_md3_acquisition_conso.Console.{Word, Devices, Settings, Console, Handled, undefined, handle}
use aq_md3_acquisition_conso.Console.Every.{GoesOn, IsClosed, TakesMore, handle-Holds}

abbrev HasController : {W : Type 0} → Console W → Type 0
HasController k = k.has_controller ≡ true

-- An end that C++ defines, with the controller still there.
abbrev pub IsDefined : {W : Type 0} → Handled W → Type 0
IsDefined h = (h.ending ≢ undefined) × (h.after.has_controller ≡ true)

module _ {W : Type 0} (d : Devices W) (s : Settings) where
  IsDefined-IsClosed : IsClosed {W = W} d HasController IsDefined
  IsDefined-IsClosed = record {
    moved = λ w k i. i;
    timed = λ width post k i. i;
    pooled = λ k i. i;
    controlled = λ k i. refl;
    throws = λ k i. (ground arith, i);
    terminates = λ e k i. (ground arith, i);
    answers = λ r k i. (ground arith, i);
  }

  always_more : (words : List Word) → All (λ word. GoesOn word → TakesMore {W = W} IsDefined) words
  always_more [] = tt
  always_more (word ∷ words) = (λ g r h p. p, always_more words)

  -- Once there is a controller, no payload makes the handler call a null one, whatever the devices answer
  -- and whichever of them throws or ends the process, and the controller is still there for the next payload.
  pub handle-IsDefined :
      (payload : List Word) (k : Console W)
      → k.has_controller ≡ true
      → IsDefined (handle d s payload k)
  handle-IsDefined payload k i =
      handle-Holds d s HasController IsDefined IsDefined-IsClosed (λ k i. (ground arith, i))
        (λ k i e. ground arith) payload k (always_more payload) i
