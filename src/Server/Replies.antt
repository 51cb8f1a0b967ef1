-- ===== src/Server/Replies.antt =====
-- How often a request is answered (AqMD3_console/src/server.cpp).
use aq_md3_acquisition_conso.Common.{
  ℕ, zero, suc, ◌≡◌, refl, sym, ap, Bool, true, false, some, List, [], ◌∷◌, ◌++◌, length,
  if◌then◌else◌, length-append, arith,
}
use mathlib.Core.Bool.{true≢false}
use aq_md3_acquisition_conso.Live.{one_line}
use aq_md3_acquisition_conso.Server.{
  Frame, error_text, unknown_error, Ending, returns, throws, throws_unknown, Handled, respond,
  respond_more, send_all, serve,
}

-- The responses that hold a frame.
unfoldable pub answers : List (List Frame) → ℕ
answers [] = 0
answers ([] ∷ rest) = answers rest
answers ((x ∷ xs) ∷ rest) = suc (answers rest)

abbrev pub is_some : ℕ → Bool
is_some zero = false
is_some (suc n) = true

send_all_counts :
    (client : List ℕ) (responses : List (List Frame))
    → (length (send_all client responses).0 ≡ answers responses)
      × ((send_all client responses).1 ≡ is_some (answers responses))
unfolding send_all answers respond_more
send_all_counts client [] = (refl, refl)
send_all_counts client ([] ∷ rest) = send_all_counts client rest
send_all_counts client ((x ∷ xs) ∷ rest) = (ap suc (send_all_counts client rest).0, refl)

-- The messages owed: those of the handler, and one if it throws before it answered.
abbrev pub owed : Ending → ℕ → ℕ
owed returns n = n
owed (throws what) zero = 1
owed (throws what) (suc n) = suc n
owed throws_unknown zero = 1
owed throws_unknown (suc n) = suc n

-- A last message for a handler that has not answered.
once :
    (n : ℕ) (sent : List (List Frame)) (responded : Bool) (message : List Frame)
    → length sent ≡ n
    → responded ≡ is_some n
    → length (if responded then sent else sent ++ (message ∷ [])) ≡ owed throws_unknown n
once zero sent true message p q = absurd (true≢false q)
once zero sent false message p q = omega (arith, length-append sent (message ∷ []), p)
once (suc n) sent true message p q = p
once (suc n) sent false message p q = absurd (true≢false (sym q))

-- A request is answered as often as its handler answers it, and once if the handler throws without
-- having answered: an error is never a second reply.
pub length-serve :
    (handler : List (List ℕ) → Handled) (client : List ℕ) (msg : List ℕ) (msgs : List (List ℕ))
    → length (serve (some handler) client (msg ∷ msgs))
      ≡ owed (handler (msg ∷ msgs)).ending (answers (handler (msg ∷ msgs)).responses)
unfolding serve
length-serve handler client msg msgs =
    go (handler (msg ∷ msgs)).ending (answers h.responses) (send_all client h.responses).0
      (send_all client h.responses).1 (send_all_counts client h.responses).0
      (send_all_counts client h.responses).1
  where
    h : Handled
    h = handler (msg ∷ msgs)

    go :
        (e : Ending) (n : ℕ) (sent : List (List Frame)) (responded : Bool)
        → length sent ≡ n
        → responded ≡ is_some n
        → length (elim e as (λ x. List (List Frame)) [
          | returns ↦ sent
          | throws what ↦
              if responded then sent else sent ++ (respond client (error_text (one_line what)) ∷ [])
          | throws_unknown ↦
              if responded then sent else sent ++ (respond client (unknown_error msg) ∷ [])
        ])
          ≡ owed e n
    go returns n sent responded p q = p
    go (throws what) zero sent responded p q = once 0 sent responded _ p q
    go (throws what) (suc n) sent responded p q = once (suc n) sent responded _ p q
    go throws_unknown zero sent responded p q = once 0 sent responded _ p q
    go throws_unknown (suc n) sent responded p q = once (suc n) sent responded _ p q
