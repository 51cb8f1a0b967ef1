-- ===== src/Dialogue/Replied.antt =====
-- What a client is answered (AqMD3_console/src/server.cpp, AqMD3_console/src/aqmd3_console.cpp).
use aq_md3_acquisition_conso.Common.{◌≡◌, Bool, true, Option, none, some, List, [], ◌∷◌, map}
use aq_md3_acquisition_conso.Server.{Frame, envelope, respond}
use aq_md3_acquisition_conso.Server.Run.{Request}
use aq_md3_acquisition_conso.Console
use aq_md3_acquisition_conso.Console.{Word, Devices, Console, Response, Handled, done}
use aq_md3_acquisition_conso.Console.Every.{Terminates}
use aq_md3_acquisition_conso.Dialogue.{word_of}

-- The payloads that are answered whatever happens, where a frame may be asked for or not: those whose
-- first word ends the handler's turn with a response, "info" and the like by themselves, and "stop" with
-- its argument.
unfoldable pub IsAnswerable : Bool → List Word → Type 0
IsAnswerable frames (Console.num_instruments ∷ words) = Unit
IsAnswerable frames (Console.info ∷ []) = Unit
IsAnswerable frames (Console.firmware ∷ []) = Unit
IsAnswerable frames (Console.serial ∷ []) = Unit
IsAnswerable frames (Console.init ∷ []) = Unit
IsAnswerable frames (Console.horizontal ∷ words) = Unit
IsAnswerable frames (Console.vertical ∷ words) = Unit
IsAnswerable frames (Console.setup_array ∷ words) = Unit
IsAnswerable frames (Console.acquire_frame ∷ words) = frames ≡ true
IsAnswerable frames (Console.acquire ∷ words) = Unit
IsAnswerable frames (Console.tof_width ∷ words) = Unit
IsAnswerable frames (Console.stop ∷ argument ∷ []) = Unit
IsAnswerable frames (Console.invert ∷ words) = Unit
IsAnswerable frames (Console.enable_io_port ∷ words) = Unit
IsAnswerable frames (Console.disable_io_port ∷ words) = Unit
IsAnswerable frames _ = ⊥

-- A frame may be asked for if there is a controller.
abbrev pub IsReady : {W : Type 0} → Bool → Console W → Type 0
IsReady frames k = frames ≡ true → k.has_controller ≡ true

-- One response, or a throw or the end of the process before any.
data IsOne {W : Type 0} (d : Devices W) (frames : Bool) : Handled W → Type 0 where
  answered :
      (r : Response) (k : Console W)
      → IsReady frames k
      → IsOne d frames (Console.respond r (done k))
  threw :
      (k : Console W)
      → IsReady frames k
      → IsOne d frames (record { responses = []; ending = Console.thrown; after = k })
  died :
      Terminates d
      → (k : Console W)
      → IsOne d frames (record { responses = []; ending = Console.terminated; after = k })

-- What came of requests: the messages sent are one to each request's client, in the requests' order,
-- up to where the process ended, if some call can end it.
pub data Replied {W : Type 0} (d : Devices W) (frames : Bool)
    : List Request → List (List Frame) → Option (Console W) → Type 0 where
  none_left : (k : Console W) → IsReady frames k → Replied d frames [] [] (some k)
  replied :
      {requests : List Request} {sent : List (List Frame)} {state : Option (Console W)}
      (r : Request) (frame : Frame) (more : List Frame)
      → Replied d frames requests sent state
      → Replied d frames (r ∷ requests) (envelope r.client (frame ∷ more) ∷ sent) state
  process_ended :
      Terminates d
      → (r : Request) (requests : List Request) → Replied d frames (r ∷ requests) [] none

abbrev pub payload_of : Request → List Word
payload_of r = map word_of (r.command ∷ r.arguments)
