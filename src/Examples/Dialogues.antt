-- ===== src/Examples/Dialogues.antt =====
-- Two clients in dialogue with the console (AqMD3_console/src/server.cpp,
-- AqMD3_console/src/aqmd3_console.cpp).
use aq_md3_acquisition_conso.Common.{ℕ, true, false, Bool, List, [], ◌∷◌}
use aq_md3_acquisition_conso.Server.Run.{Request}
use aq_md3_acquisition_conso.Console
use aq_md3_acquisition_conso.Console.{Devices}
use aq_md3_acquisition_conso.Dialogue.{Texts}
use aq_md3_acquisition_conso.Dialogue.Words.{info_word, stop_word, acquire_word}
use aq_md3_acquisition_conso.Dialogue.Replied.{Replied}

abbrev texts : Texts ℕ
texts = record {
  serialize = λ n width. n ∷ width ∷ [];
  hash_hex = λ x. 35 ∷ x;
  what = λ k. 69 ∷ [];
}

-- Devices that throw on every call.
abbrev failing : Devices ℕ
failing = record { perform = λ c w. (Console.failed, w) }

abbrev asks_info : Request
asks_info = record { client = 1 ∷ []; command = info_word; arguments = [] }

abbrev asks_stop : Request
asks_stop = record { client = 2 ∷ []; command = stop_word; arguments = acquire_word ∷ [] }

abbrev requests : List Request
requests = asks_info ∷ asks_stop ∷ []

abbrev polls : List Bool
polls = false ∷ true ∷ true ∷ []
