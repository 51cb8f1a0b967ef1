-- ===== src/Card/Info.antt =====
-- The names that a card reports: SA220::get_digitizer_info (libaqmd3/include/libaqmd3/sa220.h) over the
-- text queries of Digitizer (libaqmd3/src/digitizer.cpp). A text is its characters' codes, and the
-- driver is what it writes into the string that it is handed: nothing, where the query fails, whose
-- error is not looked at.
use aq_md3_acquisition_conso.Common.{
  ℕ, zero, suc, ◌-◌, ◌≡◌, ◌≢◌, refl, ap, ◌∙◌, List, [], ◌∷◌, ◌++◌, All, drop, length, replicate,
  ◌==◌, if◌then◌else◌, arith,
}

pub data Query : Type 0 where
  instrument_firmware_revision instrument_serial_number instrument_model : Query

pub record Info : Type 0 where
  pub instrument_model : List ℕ
  pub firmware_revision : List ℕ
  pub serial_number : List ℕ

-- `resize(strlen(...))`.
unfoldable pub until_nul : List ℕ → List ℕ
until_nul [] = []
until_nul (c ∷ cs) = let rest = until_nul cs in if c == 0 then [] else c ∷ rest

-- A string of zeros, with the driver's text over it.
abbrev pub written_over : List ℕ → List ℕ → List ℕ
written_over text string = text ++ drop (length text) string

unfoldable pub read_text : List ℕ → List ℕ
unfolding until_nul
read_text text = until_nul (written_over text (replicate 256 0))

unfoldable pub get_digitizer_info : (Query → List ℕ) → Info
unfolding read_text
get_digitizer_info driver = record {
  instrument_model = read_text (driver instrument_model);
  firmware_revision = read_text (driver instrument_firmware_revision);
  serial_number = read_text (driver instrument_serial_number);
}

abbrev pub IsVisible : ℕ → Type 0
IsVisible c = c ≢ 0

drop-replicate : (n m : ℕ) → drop {A = ℕ} n (replicate m 0) ≡ replicate (m - n) 0
drop-replicate zero m = let e : m ≡ m - 0 = omega arith in ap (λ k. replicate {A = ℕ} k 0) e
drop-replicate (suc n) zero =
    let e : 0 ≡ 0 - suc n = omega arith in ap (λ k. replicate {A = ℕ} k 0) e
drop-replicate (suc n) (suc m) =
    let e : m - n ≡ suc m - suc n = omega arith in
    drop-replicate n m ∙ ap (λ k. replicate {A = ℕ} k 0) e

until_nul-append :
    (text : List ℕ) (n : ℕ) → All IsVisible text → until_nul (text ++ replicate n 0) ≡ text
unfolding until_nul
until_nul-append [] zero h = refl
until_nul-append [] (suc n) h = refl
until_nul-append (c ∷ cs) n h = ground (arith, h.0, until_nul-append cs n h.1)

read_text_lem : (text : List ℕ) → All IsVisible text → read_text text ≡ text
unfolding read_text
read_text_lem text h =
    ap (λ zeros. until_nul (text ++ zeros)) (drop-replicate (length text) 256)
    ∙ until_nul-append text (256 - length text) h

-- The names come out as the driver wrote them, without its zeros, if there is none inside of them; a
-- query that failed gives an empty name.
pub get_digitizer_info_lem :
    (driver : Query → List ℕ)
    → ((query : Query) → All IsVisible (driver query))
    → get_digitizer_info driver ≡ record {
      instrument_model = driver instrument_model;
      firmware_revision = driver instrument_firmware_revision;
      serial_number = driver instrument_serial_number;
    }
unfolding get_digitizer_info
get_digitizer_info_lem driver h = λ k. record {
  instrument_model = read_text_lem (driver instrument_model) (h instrument_model) k;
  firmware_revision =
      read_text_lem (driver instrument_firmware_revision) (h instrument_firmware_revision) k;
  serial_number = read_text_lem (driver instrument_serial_number) (h instrument_serial_number) k;
}
