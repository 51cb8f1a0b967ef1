-- ===== src/Main.antt =====
-- The program from start to exit: `main` (AqMD3_console/src/aqmd3_console.cpp), with the card's session
-- that Digitizer opens and closes (libaqmd3/include/libaqmd3/digitizer.h,
-- libaqmd3/include/libaqmd3/sa220.h). The calls on the console's window and the serving of commands are
-- parameters: `Console` and `Dialogue` are the latter.
pub mod Exits
use aq_md3_acquisition_conso.Common.{ℕ, Bool, true, false, ◌&&◌, Option, List, if◌then◌else◌}
use aq_md3_acquisition_conso.Config.{Text}
use aq_md3_acquisition_conso.Config.Startup.{
  Parsers, Settings, Level, StartUp, exits, runs, start_up,
}
use aq_md3_acquisition_conso.Card.Info.{Query, Info, get_digitizer_info}

-- The driver's calls that open and close a session, whose status nothing looks at, and its texts.
pub record Sessions (D : Type 0) : Type 0 where
  pub init_with_options : Text → Bool → D → D
  pub close : D → D
  pub text_of : D → Query → List ℕ

-- Whether GetStdHandle, GetConsoleMode and SetConsoleMode succeed; if one fails, the others are not made
-- and it throws.
unfoldable pub disable_quick_edit : Bool → Bool → Bool → Bool
disable_quick_edit has_handle has_mode is_set = has_handle && (has_mode && is_set)

module _ {D : Type 0} (sessions : Sessions D) where
  -- SA220's constructor.
  unfoldable pub open_card : Text → Bool → D → Info × D
  open_card resource simulate d =
      let opened = sessions.init_with_options resource simulate d in
      (get_digitizer_info (sessions.text_of opened), opened)

  -- The part of `main` that has the card: what it does says whether it returned or threw, and either way
  -- the card is closed.
  unfoldable pub with_card : Text → (Info → D → Bool × D) → D → ℕ × D
  unfolding open_card
  with_card resource serve d =
      let (info, opened) = open_card resource false d in
      let (returned, after) = serve info opened in (if returned then 0 else 1, sessions.close after)

  abbrev pub started :
      {R : Type 0}
      → StartUp R
      → (Settings R → Level → Info → D → Bool × D)
      → (Settings R → Text)
      → D
      → ℕ × D
  started (exits refusal) serve resource d = (1, d)
  started (runs s level) serve resource d = with_card (resource s) (serve s level) d

  -- The exit code, and the card.
  unfoldable pub main :
      {R : Type 0}
      → Parsers R
      → Bool
      → Option (List Text)
      → Settings R
      → (Settings R → Level → Info → D → Bool × D)
      → D
      → ℕ × D
  unfolding with_card
  main parsers window config defaults serve d =
      if window
      then started (start_up parsers config defaults) serve (λ s. s.resource_name) d
      else (1, d)
