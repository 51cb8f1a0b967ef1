-- ===== src/Console/Answers.antt =====
-- How often a command is answered (AqMD3_console/src/aqmd3_console.cpp).
use aq_md3_acquisition_conso.Common.{◌≤◌, List, [], ◌∷◌, length, All, arith}
use aq_md3_acquisition_conso.Console.{Word, Devices, Settings, Console, Handled, handle}
use aq_md3_acquisition_conso.Console.Every.{GoesOn, IsClosed, TakesMore, handle-Holds}

abbrev pub Ends : Word → Type 0
Ends word = ¬ GoesOn word

pub record AtMostOnce {W : Type 0} (h : Handled W) : Type 0 where
  pub once : length h.responses ≤ 1

module _ {W : Type 0} (d : Devices W) (s : Settings) where
  AtMostOnce-IsClosed : IsClosed {W = W} d (λ k. Unit) AtMostOnce
  AtMostOnce-IsClosed = record {
    moved = λ w k i. tt;
    timed = λ width post k i. tt;
    pooled = λ k i. tt;
    controlled = λ k i. tt;
    throws = λ k i. record { once = omega arith };
    terminates = λ e k i. record { once = omega arith };
    answers = λ r k i. record { once = omega arith };
  }

  never_more :
      (words : List Word)
      → All Ends words
      → All (λ word. GoesOn word → TakesMore {W = W} AtMostOnce) words
  never_more [] h = tt
  never_more (word ∷ words) h = (λ g. absurd (h.0 g), never_more words h.1)

  -- A payload without "info", "firmware", "serial" and "init" is answered at most once, whatever the
  -- devices answer and whichever of them throws.
  pub handle-AtMostOnce :
      (payload : List Word) (k : Console W) → All Ends payload → AtMostOnce (handle d s payload k)
  handle-AtMostOnce payload k h =
      handle-Holds d s (λ k. Unit) AtMostOnce AtMostOnce-IsClosed
        (λ k i. record { once = omega arith }) (λ k i e. record { once = omega arith }) payload k
        (never_more payload h) tt
