-- ===== src/Server/Run.antt =====
-- The command socket's loop: Server::receive and Server::run (AqMD3_console/src/server.cpp). What
-- `recv` gives is a stream of frames, each with whether more of its message follow; a poll says
-- whether there is a message. The handler has a state `W`.
use aq_md3_acquisition_conso.Common.{
  ℕ, suc, ◌≡◌, refl, ap, ◌∙◌, Bool, true, false, Option, none, some, List, [], ◌∷◌, ◌++◌, length,
  if◌then◌else◌, arith,
}
use aq_md3_acquisition_conso.Server.{Frame, Handled, serve}

abbrev pub Wire : Type 0
Wire = List (List ℕ × Bool)

abbrev first : List ℕ → Option (List (List ℕ) × Wire) → Option (List (List ℕ) × Wire)
first msg none = none
first msg (some (msgs, rest)) = some (msg ∷ msgs, rest)

-- The `do` loop over the payload; `none` where `recv` waits for a frame that does not come.
unfoldable pub receive_payload : Wire → Option (List (List ℕ) × Wire)
receive_payload [] = none
receive_payload ((msg, more) ∷ frames) =
    let rest = receive_payload frames in if more then first msg rest else some (msg ∷ [], frames)

abbrev from : List ℕ → Option (List (List ℕ) × Wire) → Option ((List ℕ × List (List ℕ)) × Wire)
from client none = none
from client (some (msgs, rest)) = some ((client, msgs), rest)

-- The id, a frame that is not looked at, and the payload.
unfoldable pub receive : Wire → Option ((List ℕ × List (List ℕ)) × Wire)
receive [] = none
receive (id ∷ []) = none
receive ((client, more) ∷ null ∷ frames) = from client (receive_payload frames)

-- The messages sent, and the handler's state.
abbrev Served : Type 0 → Type 0
Served W = List (List Frame) × W

abbrev after : {W : Type 0} → List (List Frame) → Served W → Served W
after sent (later, w) = (sent ++ later, w)

-- What one message that was received comes to, and the turns after it.
abbrev turn :
    {W : Type 0}
    → (W → List (List ℕ) → Handled × W)
    → W
    → Option ((List ℕ × List (List ℕ)) × Wire)
    → (Wire → W → Served W)
    → Served W
turn handler w none rest = ([], w)
turn handler w (some ((client, payload), frames)) rest =
    let (h, w') = handler w payload in after (serve (some (λ _. h)) client payload) (rest frames w')

-- `run`, for as long as it polls and is not stopped.
unfoldable pub run :
    {W : Type 0} → (W → List (List ℕ) → Handled × W) → List Bool → Wire → W → Served W
run handler [] frames w = ([], w)
run handler (false ∷ polls) frames w = run handler polls frames w
run handler (true ∷ polls) frames w =
    turn handler w (receive frames) (λ fs w'. run handler polls fs w')

-- A request as a client's socket frames it.
abbrev pub framed : List ℕ → List (List ℕ) → Wire
framed msg [] = (msg, false) ∷ []
framed msg (next ∷ msgs) = (msg, true) ∷ framed next msgs

pub record Request : Type 0 where
  pub client : List ℕ
  pub command : List ℕ
  pub arguments : List (List ℕ)

unfoldable pub wire : Request → Wire
wire r = (r.client, true) ∷ ([], true) ∷ framed r.command r.arguments

unfoldable pub wires : List Request → Wire
wires [] = []
wires (r ∷ requests) = wire r ++ wires requests

-- The requests served one after the other.
unfoldable pub serve_all :
    {W : Type 0} → (W → List (List ℕ) → Handled × W) → List Request → W → Served W
serve_all handler [] w = ([], w)
serve_all handler (r ∷ requests) w =
    let (h, w') = handler w (r.command ∷ r.arguments) in
    after (serve (some (λ _. h)) r.client (r.command ∷ r.arguments)) (serve_all handler requests w')

receive_payload-framed :
    (msg : List ℕ) (msgs : List (List ℕ)) (rest : Wire)
    → receive_payload (framed msg msgs ++ rest) ≡ some (msg ∷ msgs, rest)
unfolding receive_payload
receive_payload-framed msg [] rest = refl
receive_payload-framed msg (next ∷ msgs) rest =
    ap (first msg) (receive_payload-framed next msgs rest)

receive-wire :
    (r : Request) (rest : Wire)
    → receive (wire r ++ rest) ≡ some ((r.client, r.command ∷ r.arguments), rest)
unfolding receive wire
receive-wire r rest = ap (from r.client) (receive_payload-framed r.command r.arguments rest)

abbrev pub polled : List Bool → ℕ
polled [] = 0
polled (true ∷ polls) = suc (polled polls)
polled (false ∷ polls) = polled polls

-- Requests as clients' sockets frame them are each served with its own frames, in the order in which
-- they arrive, however many polls find nothing between them: the messages sent and the handler's
-- state are those of serving the requests one after the other.
pub run-wires :
    {W : Type 0} (handler : W → List (List ℕ) → Handled × W) (polls : List Bool)
    (requests : List Request) (w : W)
    → polled polls ≡ length requests
    → run handler polls (wires requests) w ≡ serve_all handler requests w
unfolding run wires serve_all
run-wires handler [] [] w h = refl
run-wires handler [] (r ∷ requests) w h = absurd (omega (arith, h))
run-wires handler (false ∷ polls) requests w h = run-wires handler polls requests w h
run-wires handler (true ∷ polls) [] w h = absurd (omega (arith, h))
run-wires {W} handler (true ∷ polls) (r ∷ requests) w h =
    let (handled, w') = handler w (r.command ∷ r.arguments) in
    let onward = run-wires handler polls requests w' (omega (arith, h)) in
    ap (λ o. turn handler w o (λ fs v. run handler polls fs v)) (receive-wire r (wires requests))
    ∙ ap (after (serve (some (λ _. handled)) r.client (r.command ∷ r.arguments))) onward

-- What becomes of a message without the empty frame, as a socket that is no REQ sends it: one of a
-- single frame loses that frame and takes the next request whole for its payload, with that request's
-- client for its command; a longer one loses its first frame and takes nothing of what follows.
pub receive_swallows :
    (client msg next : List ℕ) (msgs : List (List ℕ)) (r : Request) (rest : Wire)
    → (receive ((client, true) ∷ (msg, false) ∷ (wire r ++ rest))
        ≡ some ((client, r.client ∷ [] ∷ r.command ∷ r.arguments), rest))
      × (receive ((client, true) ∷ (msg, true) ∷ (framed next msgs ++ rest))
          ≡ some ((client, next ∷ msgs), rest))
unfolding receive wire receive_payload
receive_swallows client msg next msgs r rest = (
  ap (λ o. from client (first r.client (first [] o)))
      (receive_payload-framed r.command r.arguments rest),
  ap (from client) (receive_payload-framed next msgs rest),
)
