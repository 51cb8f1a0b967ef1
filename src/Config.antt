-- ===== src/Config.antt =====
-- The settings file: Config (AqMD3_console/include/util/config.h), and the settings that the console
-- refuses (AqMD3_console/src/aqmd3_console.cpp). A text is the list of its characters' codes, and a
-- file that exists is its lines. The numbers' parsers are the standard library's.
pub mod Lookup
pub mod Limits
pub mod Keys
pub mod Startup
pub mod Accepted
pub mod Defaults
pub mod Slope
use aq_md3_acquisition_conso.Common.{
  ℕ, ◌+◌, ◌-◌, ◌%◌, ◌^◌, Bool, true, false, ◌&&◌, ◌||◌, not, Option, none, some, List, [], ◌∷◌,
  push_back, ◌==◌, if◌then◌else◌,
}
use aq_md3_acquisition_conso.Common.Int.{ℤ, pos, negsuc, ltb_ℤ}
use aq_md3_acquisition_conso.Common.Word.{signed16}

abbrev pub Text : Type 0
Text = List ℕ

unfoldable pub eq_text : Text → Text → Bool
eq_text [] [] = true
eq_text [] (d ∷ ds) = false
eq_text (c ∷ cs) [] = false
eq_text (c ∷ cs) (d ∷ ds) = (c == d) && eq_text cs ds

-- `getline` by '=': the token so far, and whether a character was read since the last '='. Nothing
-- after the last '=' is no token.
unfoldable pub tokens_from : Text → Bool → Text → List Text
tokens_from tok started [] = if started then tok ∷ [] else []
tokens_from tok started (c ∷ cs) =
    let next = tokens_from [] false cs in
    let more = tokens_from (push_back tok c) true cs in if c == 61 then tok ∷ next else more

unfoldable pub tokens : Text → List Text
tokens line = tokens_from [] false line

-- `count` and `find`.
unfoldable pub find : Text → List (Text × Text) → Option Text
find key [] = none
find key ((k, v) ∷ config_map) = if eq_text k key then some v else find key config_map

-- `insert` leaves a key that is there as it is.
unfoldable pub insert : Text → Text → List (Text × Text) → List (Text × Text)
insert key value config_map = elim (find key config_map) [
  | none ↦ push_back config_map (key, value)
  | some v ↦ config_map
]

abbrev pub insert_tokens : List Text → List (Text × Text) → List (Text × Text)
insert_tokens (key ∷ value ∷ []) config_map = insert key value config_map
insert_tokens [] config_map = config_map
insert_tokens (key ∷ []) config_map = config_map
insert_tokens (key ∷ value ∷ _ ∷ _) config_map = config_map

abbrev pub is_comment : Text → Bool
is_comment [] = false
is_comment (c ∷ cs) = c == 35

unfoldable pub read_line : Text → List (Text × Text) → List (Text × Text)
read_line [] config_map = config_map
read_line (c ∷ cs) config_map =
    if is_comment (c ∷ cs) then config_map else insert_tokens (tokens (c ∷ cs)) config_map

unfoldable pub read_lines : List Text → List (Text × Text) → List (Text × Text)
read_lines [] config_map = config_map
read_lines (line ∷ lines) config_map = read_lines lines (read_line line config_map)

-- A file that does not exist is no lines.
unfoldable pub read : Option (List Text) → List (Text × Text)
read none = []
read (some lines) = read_lines lines []

abbrev pub is_found : Option Text → Bool
is_found none = false
is_found (some v) = true

unfoldable pub has_key : Text → List (Text × Text) → Bool
has_key key config_map = is_found (find key config_map)

-- `get_value`; `none` is the throw.
unfoldable pub get_value : Text → List (Text × Text) → Option Text
get_value key config_map = find key config_map

-- `config_double` and `config_int`: the value a setting gets, if any. The parser is a parameter,
-- and a text that it refuses is thrown back with the key.
unfoldable pub config_number {ℓ} :
    {A : Type ℓ} → (Text → Option A) → List (Text × Text) → Text → A → Option A
config_number parse config_map key fallback = elim (find key config_map) [
  | none ↦ some fallback
  | some v ↦ parse v
]

-- What `reject_bad_settings` looks at. `full_scale_known` is that the range is 0.5 or 2.5.
pub record Limited : Type 0 where
  pub zero_suppress_threshold : ℤ
  pub zero_suppress_hysteresis : ℤ
  pub full_scale_known : Bool
  pub control_io_port : ℤ

pub data Rejection : Type 0 where
  bad_threshold bad_hysteresis bad_full_scale bad_port : Rejection

abbrev pub outside : ℤ → ℤ → ℤ → Bool
outside lo hi x = ltb_ℤ x lo || ltb_ℤ hi x

unfoldable pub reject_bad_settings : Limited → Option Rejection
reject_bad_settings s =
    if outside (negsuc 32767) (pos 32767) s.zero_suppress_threshold
    then some bad_threshold
    else if outside (pos 100) (pos 1023) s.zero_suppress_hysteresis
    then some bad_hysteresis
    else if not s.full_scale_known
    then some bad_full_scale
    else if outside (pos 1) (pos 3) s.control_io_port
    then some bad_port
    else none

-- The casts that the values go through where the card is configured.
unfoldable pub to_int16 : ℤ → ℤ
to_int16 (pos n) = signed16 (n % 2 ^ 16)
to_int16 (negsuc n) = signed16 (2 ^ 16 - 1 - n % 2 ^ 16)

unfoldable pub to_uint16 : ℤ → ℕ
to_uint16 (pos n) = n % 2 ^ 16
to_uint16 (negsuc n) = 2 ^ 16 - 1 - n % 2 ^ 16
