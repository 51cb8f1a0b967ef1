-- ===== src/Server.antt =====
-- The command socket: Server (AqMD3_console/src/server.cpp and AqMD3_console/include/server.h).
-- A message is the list of its frames. The registered handler is a parameter: for a payload it
-- makes some responses and then returns or throws.
pub mod Replies
pub mod Run
pub mod Publishers
use aq_md3_acquisition_conso.Common.{
  ℕ, Bool, true, false, Option, none, some, List, [], ◌∷◌, ◌++◌, if◌then◌else◌,
}
use aq_md3_acquisition_conso.Live.{one_line}

-- One frame. The errors are told after the words "error" and "error unknown error handling command".
pub data Frame : Type 0 where
  text : List ℕ → Frame
  error_text : List ℕ → Frame
  unknown_error : List ℕ → Frame

pub data Ending : Type 0 where
  returns : Ending
  throws : List ℕ → Ending
  throws_unknown : Ending

-- A handler's `send_response`s and `send_responses`, each by its frames, and its end.
pub record Handled : Type 0 where
  pub responses : List (List Frame)
  pub ending : Ending

abbrev pub envelope : List ℕ → List Frame → List Frame
envelope client frames = text client ∷ text [] ∷ frames

unfoldable pub respond : List ℕ → Frame → List Frame
respond client response = envelope client (response ∷ [])

-- `respond_more`: the messages sent, none for no response at all.
unfoldable pub respond_more : List ℕ → List Frame → List (List Frame)
respond_more client [] = []
respond_more client (response ∷ responses) = envelope client (response ∷ responses) ∷ []

-- The messages of a handler's responses, and `responded_to_request`.
unfoldable pub send_all : List ℕ → List (List Frame) → List (List Frame) × Bool
send_all client [] = ([], false)
send_all client ([] ∷ rest) = send_all client rest
send_all client ((response ∷ responses) ∷ rest) =
    (respond_more client (response ∷ responses) ++ (send_all client rest).0, true)

-- One turn of `run` on a received message: what is sent. No handler is registered at first.
unfoldable pub serve : Option (List (List ℕ) → Handled) → List ℕ → List (List ℕ) → List (List Frame)
unfolding respond
serve handler client [] = []
serve none client (msg ∷ msgs) = []
serve (some handler) client (msg ∷ msgs) =
    let h = handler (msg ∷ msgs) in
    let (sent, responded) = send_all client h.responses in
    elim h.ending [
      | returns ↦ sent
      | throws what ↦
          if responded then sent else sent ++ (respond client (error_text (one_line what)) ∷ [])
      | throws_unknown ↦
          if responded then sent else sent ++ (respond client (unknown_error msg) ∷ [])
    ]
