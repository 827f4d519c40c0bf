-- ===== src/LoginScreen/Handlers.antt =====
-- crates/redfog-login/src/main.rs: the reactions of the login screen to input. The text that the keymap
-- makes of a key comes with the event.
use redfog.Base.{
  ℕ, ◌==◌, leb, ◌&&◌, ◌||◌, not, Bool, true, false, none, List, [], ◌∷◌, ◌++◌, if◌then◌else◌,
}
use redfog.Base.Text.{Text, same_bytes}
use redfog.LoginScreen.{
  Focus, on_username, on_password, on_nothing, LoginUiState, Layout, Hit, hit_username,
  hit_password, session_toggle, session_option, keyboard_toggle, keyboard_option, hit_login_button,
  hit_logout_button, hit_nothing, hit_test,
}
use redfog.LoginScreen.Requests.{
  LoginRequest, World, Screen, shows, exits, panics, try_submit, try_logout, maybe_check_username,
}

-- `moves_to` is both events of the mouse's movement, with the position that the clamps leave. They clamp
-- to a range that ends one below the width and the height, and panic where that is below zero.
pub data InputEvent (Pos : Type 0) : Type 0 where
  moves_to : Pos → InputEvent Pos
  mouse_button : ℕ → Bool → InputEvent Pos
  mouse_axis : InputEvent Pos
  key : ℕ → Bool → Text → InputEvent Pos

abbrev pub btn_left : ℕ
btn_left = 272

abbrev pub key_backspace : ℕ
key_backspace = 14

abbrev pub key_tab : ℕ
key_tab = 15

abbrev pub key_enter : ℕ
key_enter = 28

-- `String::pop`.
unfoldable pub pop_text : Text → Text
pop_text [] = []
pop_text (c ∷ []) = []
pop_text (c ∷ d ∷ cs) = c ∷ pop_text (d ∷ cs)

-- `text.chars().any(|c| c.is_control())`.
unfoldable pub any_control : Text → Bool
any_control [] = false
any_control (c ∷ cs) = (leb c 31 || (leb 127 c && leb c 159)) || any_control cs

abbrev pub is_username : Focus → Bool
is_username on_username = true
is_username on_password = false
is_username on_nothing = false

module _ {Pos : Type 0} where
  -- A click while a popup is open.
  unfoldable pub click_popup : Hit → LoginUiState Pos → LoginUiState Pos
  click_popup (session_option i) state = record state {
    selected_session = i;
    session_dropdown_open = false;
    keyboard_dropdown_open = false;
  }
  click_popup (keyboard_option i) state = record state {
    selected_layout = i;
    session_dropdown_open = false;
    keyboard_dropdown_open = false;
  }
  click_popup hit state = record state {
    session_dropdown_open = false;
    keyboard_dropdown_open = false;
  }

  -- The end of `handle_click`: the user name is checked when it loses the focus.
  unfoldable pub after_click :
      World → Bool → Screen Pos × List LoginRequest → Screen Pos × List LoginRequest
  unfolding maybe_check_username
  after_click w was_focused (exits, sent) = (exits, sent)
  after_click w was_focused (panics, sent) = (panics, sent)
  after_click w was_focused (shows state, sent) =
      if was_focused && not (is_username state.focus)
      then (let (state', checked) = maybe_check_username w state in (shows state', sent ++ checked))
      else (shows state, sent)

  unfoldable pub click_widget : World → Hit → LoginUiState Pos → Screen Pos × List LoginRequest
  unfolding try_submit try_logout
  click_widget w hit_username state = (shows (record state { focus = on_username }), [])
  click_widget w hit_password state = (shows (record state { focus = on_password }), [])
  click_widget w session_toggle state = (shows (record state { session_dropdown_open = true }), [])
  click_widget w keyboard_toggle state =
      (shows (record state { keyboard_dropdown_open = true }), [])
  click_widget w (session_option i) state = (shows state, [])
  click_widget w (keyboard_option i) state = (shows state, [])
  click_widget w hit_login_button state = try_submit w state
  click_widget w hit_logout_button state =
      let (state', sent) = try_logout w state in (shows state', sent)
  click_widget w hit_nothing state = (shows state, [])

  unfoldable pub handle_hit : World → Hit → LoginUiState Pos → Screen Pos × List LoginRequest
  unfolding click_popup after_click click_widget
  handle_hit w hit state =
      if state.session_dropdown_open || state.keyboard_dropdown_open
      then (shows (click_popup hit state), [])
      else after_click w (is_username state.focus) (click_widget w hit state)

  unfoldable pub handle_click :
      {Rect : Type 0} (rect_contains : Rect → Pos → Bool)
      → World
      → LoginUiState Pos
      → Layout Rect
      → Screen Pos × List LoginRequest
  unfolding hit_test handle_hit
  handle_click rect_contains w state layout =
      handle_hit w (hit_test rect_contains layout state.cursor_pos) state

  unfoldable pub type_backspace : Focus → LoginUiState Pos → LoginUiState Pos
  unfolding pop_text
  type_backspace on_username state = record state {
    username = pop_text state.username;
    username_running = none;
  }
  type_backspace on_password state = record state { password = pop_text state.password }
  type_backspace on_nothing state = state

  unfoldable pub type_text : Focus → Text → LoginUiState Pos → LoginUiState Pos
  type_text on_username text state = record state {
    username = state.username ++ text;
    username_running = none;
  }
  type_text on_password text state = record state { password = state.password ++ text }
  type_text on_nothing text state = state

  unfoldable pub press_tab : World → Focus → LoginUiState Pos → LoginUiState Pos × List LoginRequest
  unfolding maybe_check_username
  press_tab w on_username state = maybe_check_username w (record state { focus = on_password })
  press_tab w on_password state = (record state { focus = on_username }, [])
  press_tab w on_nothing state = (record state { focus = on_username }, [])

  unfoldable pub handle_key : World → LoginUiState Pos → ℕ → Text → Screen Pos × List LoginRequest
  unfolding type_backspace type_text press_tab try_submit any_control
  handle_key w state keycode text =
      if keycode == key_backspace
      then (shows (type_backspace state.focus state), [])
      else if keycode == key_tab
      then (let (state', sent) = press_tab w state.focus state in (shows state', sent))
      else if keycode == key_enter
      then try_submit w state
      else if same_bytes text [] || any_control text
      then (shows state, [])
      else (shows (type_text state.focus text state), [])

  unfoldable pub handle_input :
      {Rect : Type 0} (rect_contains : Rect → Pos → Bool)
      → World
      → LoginUiState Pos
      → Layout Rect
      → InputEvent Pos
      → Screen Pos × List LoginRequest
  unfolding handle_click handle_key
  handle_input rect_contains w state layout (moves_to pos) =
      if (state.width == 0) || (state.height == 0)
      then (panics, [])
      else (shows (record state { cursor_pos = pos }), [])
  handle_input rect_contains w state layout (mouse_button button pressed) =
      if (button == btn_left) && pressed
      then handle_click rect_contains w state layout
      else (shows state, [])
  handle_input rect_contains w state layout mouse_axis = (shows state, [])
  handle_input rect_contains w state layout (key keycode pressed text) =
      if pressed then handle_key w state keycode text else (shows state, [])
