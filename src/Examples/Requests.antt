-- ===== src/Examples/Requests.antt =====
-- Requests received and served (AqMD3_console/src/server.cpp).
use aq_md3_acquisition_conso.Common.{
  ℕ, suc, ◌≡◌, refl, true, false, Bool, some, List, [], ◌∷◌, ◌++◌,
}
use aq_md3_acquisition_conso.Server.{Handled, text, returns}
use aq_md3_acquisition_conso.Server.Run.{
  Request, wire, framed, wires, receive, run, serve_all, run-wires, receive_swallows,
}

-- A handler that counts the requests, and gives each its first frame back.
abbrev echo : ℕ → List (List ℕ) → Handled × ℕ
echo w [] = (record { responses = []; ending = returns }, suc w)
echo w (msg ∷ msgs) = (record { responses = (text msg ∷ []) ∷ []; ending = returns }, suc w)

abbrev ask : Request
ask = record { client = 1 ∷ []; command = 105 ∷ []; arguments = (49 ∷ []) ∷ [] }

abbrev ask_again : Request
ask_again = record { client = 2 ∷ []; command = 106 ∷ []; arguments = [] }

abbrev polls : List Bool
polls = false ∷ true ∷ false ∷ true ∷ []

run-wires_example :
    run echo polls (wires (ask ∷ ask_again ∷ [])) 0 ≡ serve_all echo (ask ∷ ask_again ∷ []) 0
run-wires_example = run-wires echo polls (ask ∷ ask_again ∷ []) 0 refl

receive_swallows_example :
    (receive ((3 ∷ [], true) ∷ (107 ∷ [], false) ∷ (wire ask ++ []))
      ≡ some ((3 ∷ [], (1 ∷ []) ∷ [] ∷ (105 ∷ []) ∷ (49 ∷ []) ∷ []), []))
    × (receive ((3 ∷ [], true) ∷ (107 ∷ [], true) ∷ (framed (50 ∷ []) [] ++ []))
        ≡ some ((3 ∷ [], (50 ∷ []) ∷ []), []))
receive_swallows_example = receive_swallows (3 ∷ []) (107 ∷ []) (50 ∷ []) [] ask []
