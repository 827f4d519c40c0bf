-- ===== src/LoginScreen/Run.antt =====
-- Any sequence of inputs to the login screen.
use redfog.Base.{ℕ, ◌<◌, ◌≡◌, ◌∙◌, refl, Bool, List, [], ◌∷◌, length, arith, All}
use redfog.Base.Text.{Text}
use redfog.LoginScreen.{LoginUiState, Layout, hit_test, new_state, default_keyboard_layouts}
use redfog.LoginScreen.Requests.{World, Screen, shows, exits, panics}
use redfog.LoginScreen.Handlers.{
  InputEvent, moves_to, mouse_button, mouse_axis, key, handle_click, handle_input,
}
use redfog.LoginScreen.Hits.{Fits, hit_test-Fits}
use redfog.LoginScreen.Safety.{IsValid, Goes, handle_hit-Goes, handle_key-Goes}

module _ {Rect Pos : Type 0} (c : Rect → Pos → Bool) where
  handle_input-Goes :
      (w : World) (s : LoginUiState Pos) (layout : Layout Rect) (event : InputEvent Pos)
      → IsValid s
      → Fits s layout
      → Goes s (handle_input c w s layout event).0
  unfolding handle_input handle_click
  handle_input-Goes w s layout (moves_to pos) v fits = ground arith
  handle_input-Goes w s layout (mouse_button button pressed) v fits = ground (
    arith,
    handle_hit-Goes w s (hit_test c layout s.cursor_pos) v
        (hit_test-Fits c s layout s.cursor_pos fits),
  )
  handle_input-Goes w s layout mouse_axis v fits = (v, refl, refl)
  handle_input-Goes w s layout (key keycode pressed text) v fits =
      ground (arith, handle_key-Goes w s keycode text v)

  -- The screen along the events that it gets, each with the server and the layout of its moment.
  pub run : List (World × Layout Rect × InputEvent Pos) → LoginUiState Pos → Screen Pos
  run [] s = shows s
  run ((w, layout, event) ∷ inputs) s = elim ((handle_input c w s layout event).0) [
    | shows t ↦ run inputs t
    | exits ↦ exits
    | panics ↦ panics
  ]

  Goes-along :
      (s t : LoginUiState Pos) (r : Screen Pos)
      → t.sessions ≡ s.sessions
      → t.keyboard_layouts ≡ s.keyboard_layouts
      → Goes t r
      → Goes s r
  Goes-along s t (shows u) p q (valid, a, b) = (valid, a ∙ p, b ∙ q)
  Goes-along s t exits p q g = tt
  Goes-along s t panics p q g = g

  same-Fits :
      (s t : LoginUiState Pos) (inputs : List (World × Layout Rect × InputEvent Pos))
      → t.sessions ≡ s.sessions
      → t.keyboard_layouts ≡ s.keyboard_layouts
      → All (λ (i : World × Layout Rect × InputEvent Pos). Fits s i.1) inputs
      → All (λ (i : World × Layout Rect × InputEvent Pos). Fits t i.1) inputs
  same-Fits s t [] p q h = tt
  same-Fits s t (i ∷ inputs) p q h = (rw (p, q) h.0, same-Fits s t inputs p q h.1)

  run_from-Goes :
      (inputs : List (World × Layout Rect × InputEvent Pos)) (s : LoginUiState Pos)
      → IsValid s
      → All (λ (i : World × Layout Rect × InputEvent Pos). Fits s i.1) inputs
      → Goes s (run inputs s)
  unfolding run
  run_from-Goes [] s v h = (v, refl, refl)
  run_from-Goes ((w, layout, event) ∷ inputs) s v h =
      onward ((handle_input c w s layout event).0)
        (λ (t : LoginUiState Pos). run_from-Goes inputs t)
        (handle_input-Goes w s layout event v h.0)
    where
      onward :
          (r : Screen Pos)
          → ((t : LoginUiState Pos)
              → IsValid t
              → All (λ (i : World × Layout Rect × InputEvent Pos). Fits t i.1) inputs
              → Goes t (run inputs t))
          → Goes s r
          → Goes s (
              let q : Screen Pos = elim r [
                | shows t ↦ run inputs t
                | exits ↦ exits
                | panics ↦ panics
              ] in
              q)
      onward (shows t) ih (valid, p, q) =
          Goes-along s t (run inputs t) p q (ih t valid (same-Fits s t inputs p q h.1))
      onward exits ih g = tt
      onward panics ih g = g

  -- Whatever input comes, while the server says what it likes, and with layouts of no more rows than
  -- there are sessions and keyboards: a screen of at least one pixel each way that starts with at least
  -- one session never panics. If it goes on, its lists are those of the start, what is selected is in them, and no two popups are open.
  pub run-Goes :
      (inputs : List (World × Layout Rect × InputEvent Pos)) (width height : ℕ) (center : Pos)
      (sessions : List Text)
      → 0 < width
      → 0 < height
      → 0 < length sessions
      → All
          (λ (i : World × Layout Rect × InputEvent Pos).
            Fits (new_state width height center sessions) i.1)
          inputs
      → Goes
          (new_state width height center sessions)
          (run inputs (new_state width height center sessions))
  unfolding new_state default_keyboard_layouts
  run-Goes inputs width height center sessions wide high one h =
      run_from-Goes inputs (new_state width height center sessions)
        (record {
          wide = wide;
          high = high;
          in_sessions = one;
          in_layouts = omega arith;
          one_open = refl;
        })
        h
