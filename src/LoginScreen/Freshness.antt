-- ===== src/LoginScreen/Freshness.antt =====
-- What the login screen shows of a user's running session.
use redfog.Base.{ℕ, Bool, Option, none, List, [], ◌∷◌}
use redfog.Base.Text.{Text}
use redfog.LoginScreen.{LoginUiState, Layout, new_state}
use redfog.LoginScreen.Requests.{LoginRequest, World, Screen, shows, exits, panics}
use redfog.LoginScreen.Handlers.{InputEvent, handle_input}
use redfog.LoginScreen.Reactions.{last_asked, IsFresh, ScreenFresh, Reacts, handle_input-Reacts}

module _ {Rect Pos : Type 0} (c : Rect → Pos → Bool) where
  -- The screen along its events, with the name that the server was last asked about.
  pub run_asked :
      List (World × Layout Rect × InputEvent Pos)
      → Option Text
      → LoginUiState Pos
      → Option Text × Screen Pos
  run_asked [] asked s = (asked, shows s)
  run_asked ((w, layout, event) ∷ inputs) asked s =
      let (screen, sent) = handle_input c w s layout event in
      elim screen [
        | shows t ↦ run_asked inputs (last_asked asked sent) t
        | exits ↦ (last_asked asked sent, exits)
        | panics ↦ (last_asked asked sent, panics)
      ]

  run_asked-ScreenFresh :
      (inputs : List (World × Layout Rect × InputEvent Pos)) (asked : Option Text)
      (s : LoginUiState Pos)
      → IsFresh asked s.username s.username_running
      → let (last, screen) = run_asked inputs asked s in ScreenFresh last screen
  unfolding run_asked
  run_asked-ScreenFresh [] asked s h = h
  run_asked-ScreenFresh ((w, layout, event) ∷ inputs) asked s h =
      onward (handle_input c w s layout event)
        (λ (a : Option Text) (t : LoginUiState Pos). run_asked-ScreenFresh inputs a t)
        (handle_input-Reacts c asked w s layout event h)
    where
      onward :
          (r : Screen Pos × List LoginRequest)
          → ((a : Option Text) (t : LoginUiState Pos)
              → IsFresh a t.username t.username_running
              → let (last, screen) = run_asked inputs a t in ScreenFresh last screen)
          → Reacts asked r
          → let q : Option Text × Screen Pos = elim (r.0) [
            | shows t ↦ run_asked inputs (last_asked asked r.1) t
            | exits ↦ (last_asked asked r.1, exits)
            | panics ↦ (last_asked asked r.1, panics)
          ] in
            ScreenFresh q.0 q.1
      onward (shows t, sent) ih k = ih (last_asked asked sent) t k
      onward (exits, sent) ih k = tt
      onward (panics, sent) ih k = tt

  -- Whatever input comes and whatever the server answers: where the screen says of a session that it
  -- runs, or that it does not, the name in the field is the one that the server was last asked about or
  -- told to log out. A name that was changed since is not said to have a session.
  pub shown_session-ScreenFresh :
      (inputs : List (World × Layout Rect × InputEvent Pos)) (width height : ℕ) (center : Pos)
      (sessions : List Text)
      → let (last, screen) = run_asked inputs none (new_state width height center sessions) in
        ScreenFresh last screen
  unfolding new_state
  shown_session-ScreenFresh inputs width height center sessions =
      run_asked-ScreenFresh inputs none (new_state width height center sessions) tt
