-- ===== src/LoginScreen/Reactions.antt =====
-- What each reaction of the login screen shows of a user's running session.
use redfog.Base.{
  ℕ, ◌≡◌, refl, ◌||◌, Bool, Bool-cases, Option, none, some, inl, inr, List, [], ◌∷◌, ◌++◌, arith,
}
use redfog.Base.Text.{Text}
use redfog.LoginScreen.{
  Focus, LoginUiState, Layout, Hit, hit_username, hit_password, session_toggle, session_option,
  keyboard_toggle, keyboard_option, hit_login_button, hit_logout_button, hit_nothing, hit_test,
}
use redfog.LoginScreen.Requests.{
  LoginRequest, authenticate_request, check_username_request, log_out_request, World, Screen, shows,
  exits, panics, authenticate, try_submit, try_logout, check_username, maybe_check_username,
}
use redfog.LoginScreen.Handlers.{
  InputEvent, moves_to, mouse_button, mouse_axis, key, click_popup, after_click, click_widget,
  handle_hit, handle_click, handle_key, handle_input, type_backspace, type_text, press_tab,
  is_username,
}

-- The name that the server was last asked about, or told to log out.
pub last_asked : Option Text → List LoginRequest → Option Text
last_asked asked [] = asked
last_asked asked (authenticate_request u p s ∷ sent) = last_asked asked sent
last_asked asked (check_username_request u ∷ sent) = last_asked (some u) sent
last_asked asked (log_out_request u p ∷ sent) = last_asked (some u) sent

last_asked-append :
    (asked : Option Text) (sent more : List LoginRequest)
    → last_asked asked (sent ++ more) ≡ last_asked (last_asked asked sent) more
unfolding last_asked
last_asked-append asked [] more = refl
last_asked-append asked (authenticate_request u p s ∷ sent) more = last_asked-append asked sent more
last_asked-append asked (check_username_request u ∷ sent) more =
    last_asked-append (some u) sent more
last_asked-append asked (log_out_request u p ∷ sent) more = last_asked-append (some u) sent more

-- Nothing is known of a running session, or it is known of the name that was asked about last.
abbrev pub IsFresh : Option Text → Text → Option Bool → Type 0
IsFresh asked username none = Unit {0}
IsFresh asked username (some b) = asked ≡ some username

abbrev pub ScreenFresh : {Pos : Type 0} → Option Text → Screen Pos → Type 0
ScreenFresh asked (shows s) = IsFresh asked s.username s.username_running
ScreenFresh asked exits = Unit {0}
ScreenFresh asked panics = Unit {0}

abbrev pub Reacts : {Pos : Type 0} → Option Text → Screen Pos × List LoginRequest → Type 0
Reacts asked (screen, sent) = ScreenFresh (last_asked asked sent) screen

module _ {Pos : Type 0} (asked : Option Text) where
  try_submit-Reacts :
      (w : World) (s : LoginUiState Pos)
      → IsFresh asked s.username s.username_running
      → Reacts asked (try_submit w s)
  unfolding try_submit authenticate last_asked
  try_submit-Reacts w s h = ground arith

  try_logout-Reacts :
      (w : World) (s : LoginUiState Pos)
      → IsFresh asked s.username s.username_running
      → Reacts asked (shows (try_logout w s).0, (try_logout w s).1)
  unfolding try_logout last_asked
  try_logout-Reacts w s h = ground arith

  maybe_check-Reacts :
      (w : World) (s : LoginUiState Pos)
      → Reacts asked (shows (maybe_check_username w s).0, (maybe_check_username w s).1)
  unfolding maybe_check_username check_username last_asked
  maybe_check-Reacts w s = ground arith

  click_popup-IsFresh :
      (s : LoginUiState Pos) (hit : Hit)
      → IsFresh asked s.username s.username_running
      → IsFresh asked (click_popup hit s).username (click_popup hit s).username_running
  unfolding click_popup
  click_popup-IsFresh s hit_username h = h
  click_popup-IsFresh s hit h = h

  type_backspace-IsFresh :
      (s : LoginUiState Pos) (f : Focus)
      → IsFresh asked s.username s.username_running
      → IsFresh asked (type_backspace f s).username (type_backspace f s).username_running
  unfolding type_backspace
  type_backspace-IsFresh s f h = ground arith

  type_text-IsFresh :
      (s : LoginUiState Pos) (f : Focus) (text : Text)
      → IsFresh asked s.username s.username_running
      → IsFresh asked (type_text f text s).username (type_text f text s).username_running
  unfolding type_text
  type_text-IsFresh s f text h = ground arith

  press_tab-Reacts :
      (w : World) (s : LoginUiState Pos) (f : Focus)
      → IsFresh asked s.username s.username_running
      → Reacts asked (shows (press_tab w f s).0, (press_tab w f s).1)
  unfolding press_tab maybe_check_username check_username last_asked
  press_tab-Reacts w s f h = ground arith

  handle_key-Reacts :
      (w : World) (s : LoginUiState Pos) (keycode : ℕ) (text : Text)
      → IsFresh asked s.username s.username_running
      → Reacts asked (handle_key w s keycode text)
  unfolding handle_key last_asked
  handle_key-Reacts w s keycode text h = ground (
    arith,
    type_backspace-IsFresh s s.focus h,
    press_tab-Reacts w s s.focus h,
    try_submit-Reacts w s h,
    type_text-IsFresh s s.focus text h,
  )

  click_widget-Reacts :
      (w : World) (s : LoginUiState Pos) (hit : Hit)
      → IsFresh asked s.username s.username_running
      → Reacts asked (click_widget w hit s)
  unfolding click_widget last_asked
  click_widget-Reacts w s hit_login_button h = try_submit-Reacts w s h
  click_widget-Reacts w s hit_logout_button h = try_logout-Reacts w s h
  click_widget-Reacts w s hit_username h = h
  click_widget-Reacts w s hit_password h = h
  click_widget-Reacts w s session_toggle h = h
  click_widget-Reacts w s keyboard_toggle h = h
  click_widget-Reacts w s (session_option i) h = h
  click_widget-Reacts w s (keyboard_option i) h = h
  click_widget-Reacts w s hit_nothing h = h

module _ {Pos : Type 0} where
  after_click-Reacts :
      (asked : Option Text) (w : World) (was : Bool) (r : Screen Pos × List LoginRequest)
      → Reacts asked r
      → Reacts asked (after_click w was r)
  unfolding after_click last_asked
  after_click-Reacts asked w was (exits, sent) h = tt
  after_click-Reacts asked w was (panics, sent) h = tt
  after_click-Reacts asked w was (shows s, sent) h = ground (
    arith,
    last_asked-append asked sent (maybe_check_username w s).1,
    maybe_check-Reacts (last_asked asked sent) w s,
  )

  handle_hit-Reacts :
      (asked : Option Text) (w : World) (s : LoginUiState Pos) (hit : Hit)
      → IsFresh asked s.username s.username_running
      → Reacts asked (handle_hit w hit s)
  unfolding handle_hit last_asked
  handle_hit-Reacts asked w s hit h =
      elim (Bool-cases (s.session_dropdown_open || s.keyboard_dropdown_open)) [
        | inl e ↦ rw (e, handle_hit) (click_popup-IsFresh asked s hit h)
        | inr e ↦
            rw (e, handle_hit)
              (after_click-Reacts asked w (is_username s.focus) (click_widget w hit s)
                (click_widget-Reacts asked w s hit h))
      ]

  module _ {Rect : Type 0} (c : Rect → Pos → Bool) where
    pub handle_input-Reacts :
        (asked : Option Text) (w : World) (s : LoginUiState Pos) (layout : Layout Rect)
        (event : InputEvent Pos)
        → IsFresh asked s.username s.username_running
        → Reacts asked (handle_input c w s layout event)
    unfolding handle_input handle_click last_asked
    handle_input-Reacts asked w s layout (moves_to pos) h = ground arith
    handle_input-Reacts asked w s layout (mouse_button button pressed) h =
        ground (arith, handle_hit-Reacts asked w s (hit_test c layout s.cursor_pos) h)
    handle_input-Reacts asked w s layout mouse_axis h = h
    handle_input-Reacts asked w s layout (key keycode pressed text) h =
        ground (arith, handle_key-Reacts asked w s keycode text h)
