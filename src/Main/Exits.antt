-- ===== src/Main/Exits.antt =====
-- That the card is closed at every exit (AqMD3_console/src/aqmd3_console.cpp).
use aq_md3_acquisition_conso.Common.{ℕ, suc, ◌≡◌, refl, ◌∙◌, Bool, true, false, Option, List}
use aq_md3_acquisition_conso.Config.{Text}
use aq_md3_acquisition_conso.Config.Startup.{
  Parsers, Settings, Level, StartUp, exits, runs, start_up,
}
use aq_md3_acquisition_conso.Card.Info.{Info}
use aq_md3_acquisition_conso.Main.{Sessions, open_card, with_card, started, main}

-- What the driver says of its sessions: one more is open after a session is opened, one less after it is
-- closed.
pub record IsCounted {D : Type 0} (sessions : Sessions D) : Type 0 where
  pub count : D → ℕ
  pub opened :
      (resource : Text) (simulate : Bool) (d : D)
      → count (sessions.init_with_options resource simulate d) ≡ suc (count d)
  pub closed : (d : D) (n : ℕ) → count d ≡ suc n → count (sessions.close d) ≡ n

module _ {D : Type 0} (sessions : Sessions D) (h : IsCounted sessions) where
  -- To serve commands opens and closes no session.
  abbrev pub Keeps : (Info → D → Bool × D) → Type 0
  Keeps serve = (i : Info) (d : D) → h.count (serve i d).1 ≡ h.count d

  with_card-count :
      (resource : Text) (serve : Info → D → Bool × D) (d : D)
      → Keeps serve
      → h.count (with_card sessions resource serve d).1 ≡ h.count d
  unfolding with_card open_card
  with_card-count resource serve d keeps =
      h.closed _ (h.count d) (keeps _ _ ∙ h.opened resource false d)

  started-count :
      {R : Type 0} (s : StartUp R) (serve : Settings R → Level → Info → D → Bool × D)
      (resource : Settings R → Text) (d : D)
      → ((s : Settings R) (level : Level) → Keeps (serve s level))
      → h.count (started sessions s serve resource d).1 ≡ h.count d
  started-count (exits refusal) serve resource d keeps = refl
  started-count (runs s level) serve resource d keeps =
      with_card-count (resource s) (serve s level) d (keeps s level)

  -- Whether the window's calls fail, the settings are refused, or the serving of commands returns or
  -- throws, `main` leaves as many sessions of the driver open as it found. (An acquisition thread that
  -- was not joined ends the process before that: see `Chain`.)
  pub main-count :
      {R : Type 0} (parsers : Parsers R) (window : Bool) (config : Option (List Text))
      (defaults : Settings R) (serve : Settings R → Level → Info → D → Bool × D) (d : D)
      → ((s : Settings R) (level : Level) → Keeps (serve s level))
      → h.count (main sessions parsers window config defaults serve d).1 ≡ h.count d
  unfolding main
  main-count parsers true config defaults serve d keeps =
      started-count (start_up parsers config defaults) serve (λ s. s.resource_name) d keeps
  main-count parsers false config defaults serve d keeps = refl
