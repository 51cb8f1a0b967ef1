-- ===== src/Dialogue.antt =====
-- Clients in dialogue with the console: the command socket's loop (AqMD3_console/src/server.cpp) with
-- the handler that `main` registers (AqMD3_console/src/aqmd3_console.cpp). The messages of protobuf,
-- the hash of picosha2 and the text of an exception are other code's.
pub mod Words
pub mod Replied
use aq_md3_acquisition_conso.Common.{
  ℕ, Bool, true, false, Option, none, some, List, [], ◌∷◌, map, if◌then◌else◌,
}
use aq_md3_acquisition_conso.Config.{Text, eq_text}
use aq_md3_acquisition_conso.Server
use aq_md3_acquisition_conso.Server.{Frame}
use aq_md3_acquisition_conso.Console
use aq_md3_acquisition_conso.Console.{Word, Devices, Settings, Console, Response, Handled, handle}
use aq_md3_acquisition_conso.Dialogue.Words.{command_words}

abbrev pub find_word : Text → List (Text × Word) → Word
find_word msg [] = Console.other msg
find_word msg ((text, word) ∷ words) = if eq_text msg text then word else find_word msg words

unfoldable pub word_of : Text → Word
unfolding command_words
word_of msg = find_word msg command_words

pub record Texts (W : Type 0) : Type 0 where
  -- TofWidthMessage::SerializeAsString, of `num_samples` and `pusher_pulse_width`.
  pub serialize : ℕ → ℕ → Text
  pub hash_hex : Text → Text
  -- `what()` of the exception that a handler leaves.
  pub what : Console W → Text

-- "ack"
abbrev pub ack_text : Text
ack_text = 97 ∷ 99 ∷ 107 ∷ []

module _ {W : Type 0} (t : Texts W) where
  unfoldable pub frames_of : Response → List Frame
  frames_of Console.ack = Server.text ack_text ∷ []
  frames_of (Console.told (Console.text x)) = Server.text x ∷ []
  frames_of (Console.told Console.nothing) = Server.text [] ∷ []
  frames_of (Console.told (Console.timing r p w)) = Server.text [] ∷ []
  frames_of (Console.tof_width_message n width) =
      Server.text (t.serialize n width) ∷ Server.text (t.hash_hex (t.serialize n width)) ∷ []

  -- The console after a payload; `none` where the process is gone, with what was sent before.
  unfoldable pub handled : Handled W → Server.Handled × Option (Console W)
  unfolding frames_of
  handled h = elim h.ending [
    | Console.returned ↦
        (record { responses = map frames_of h.responses; ending = Server.returns }, some h.after)
    | Console.thrown ↦ (
      record { responses = map frames_of h.responses; ending = Server.throws (t.what h.after) },
      some h.after,
    )
    | Console.undefined ↦
        (record { responses = map frames_of h.responses; ending = Server.returns }, none)
    | Console.terminated ↦
        (record { responses = map frames_of h.responses; ending = Server.returns }, none)
  ]

  -- The handler that the server calls. A process that is gone answers nothing.
  unfoldable pub on_message :
      Devices W → Settings → Option (Console W) → List Text → Server.Handled × Option (Console W)
  unfolding handled word_of
  on_message d s none msgs = (record { responses = []; ending = Server.returns }, none)
  on_message d s (some k) msgs = handled (handle d s (map word_of msgs) k)
