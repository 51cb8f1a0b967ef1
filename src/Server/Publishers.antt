-- ===== src/Server/Publishers.antt =====
-- The publishing sockets: Server::get_publisher (AqMD3_console/src/server.cpp) and Server::Publisher
-- (AqMD3_console/include/server.h). A publisher is the number of the socket that it was bound with; the
-- map holds it weakly, and whether someone still does is the state of the world at a call. A socket
-- that does not bind, which throws, is left out.
use aq_md3_acquisition_conso.Common.{
  ℕ, suc, ◌≡◌, Bool, true, Option, none, some, List, [], ◌∷◌, if◌then◌else◌, arith,
}
use aq_md3_acquisition_conso.Config.{Text, eq_text}
use aq_md3_acquisition_conso.Config.Lookup.{eq_text_refl}

pub record Publishers : Type 0 where
  pub entries : List (Text × ℕ)
  -- The sockets bound so far, each with its address.
  pub bound : List Text

abbrev pub count : List Text → ℕ
count [] = 0
count (x ∷ xs) = suc (count xs)

unfoldable pub find_publisher : Text → List (Text × ℕ) → Option ℕ
find_publisher address [] = none
find_publisher address ((a, socket) ∷ entries) =
    if eq_text a address then some socket else find_publisher address entries

unfoldable pub put_publisher : Text → ℕ → List (Text × ℕ) → List (Text × ℕ)
put_publisher address socket [] = (address, socket) ∷ []
put_publisher address socket ((a, s) ∷ entries) =
    if eq_text a address
    then (a, socket) ∷ entries
    else (a, s) ∷ put_publisher address socket entries

abbrev pub lock : (ℕ → Bool) → Option ℕ → Option ℕ
lock is_held none = none
lock is_held (some socket) = if is_held socket then some socket else none

abbrev pub or_bind : Text → Publishers → Option ℕ → ℕ × Publishers
or_bind address p (some socket) = (socket, p)
or_bind address p none = (
  count p.bound,
  record { entries = put_publisher address (count p.bound) p.entries; bound = address ∷ p.bound },
)

unfoldable pub get_publisher : (ℕ → Bool) → Text → Publishers → ℕ × Publishers
unfolding find_publisher put_publisher
get_publisher is_held address p =
    or_bind address p (lock is_held (find_publisher address p.entries))

-- `Publisher::send`: what it returns, and the frames sent. Where the lock is not had in time, there
-- are none.
unfoldable pub send : Bool → Text → Text → Bool × List Text
send acquired subject message = (true, (if acquired then subject ∷ message ∷ [] else []))

find_publisher-put_publisher :
    (address : Text) (socket : ℕ) (entries : List (Text × ℕ))
    → find_publisher address (put_publisher address socket entries) ≡ some socket
unfolding find_publisher put_publisher
find_publisher-put_publisher address socket [] = ground (arith, eq_text_refl address)
find_publisher-put_publisher address socket ((a, s) ∷ entries) =
    ground (arith, find_publisher-put_publisher address socket entries)

-- While a publisher is held, whoever asks for its address gets the same one, and no socket is bound
-- again: not even to the same address, which would fail.
pub get_publisher_again :
    (is_held later_held : ℕ → Bool) (address : Text) (p : Publishers)
    → later_held (get_publisher is_held address p).0 ≡ true
    → get_publisher later_held address (get_publisher is_held address p).1
      ≡ get_publisher is_held address p
unfolding get_publisher
get_publisher_again is_held later_held address p h =
    ground (arith, h, find_publisher-put_publisher address (count p.bound) p.entries)
