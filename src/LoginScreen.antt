-- ===== src/LoginScreen.antt =====
-- crates/redfog-login: the login screen. Here, its state and `Layout::hit_test` of ui.rs; Requests and
-- Handlers are main.rs. Characters are code points. Rectangles, positions and whether one contains the other are
-- parameters; what is drawn is left out.
pub mod Requests
pub mod Handlers
pub mod Hits
pub mod Safety
pub mod Run
pub mod Reactions
pub mod Freshness
pub mod Choice
use redfog.Base.{ℕ, ◌+◌, Bool, true, false, Option, none, some, List, [], ◌∷◌, if◌then◌else◌}
use redfog.Base.Text.{Text, codes}

pub data Focus : Type 0 where
  on_username : Focus
  on_password : Focus
  on_nothing : Focus

unfoldable pub default_keyboard_layouts : List (Text × Text)
default_keyboard_layouts =
    (codes "us", codes "English (US)")
    ∷ (codes "gb", codes "English (UK)")
    ∷ (codes "de", codes "German")
    ∷ (codes "fr", codes "French")
    ∷ (codes "es", codes "Spanish")
    ∷ (codes "it", codes "Italian")
    ∷ (codes "pt", codes "Portuguese")
    ∷ (codes "ru", codes "Russian")
    ∷ (codes "se", codes "Swedish")
    ∷ (codes "jp", codes "Japanese")
    ∷ []

-- Without the canvas and the caret's blinking.
pub record LoginUiState (Pos : Type 0) : Type 0 where
  pub width : ℕ
  pub height : ℕ
  pub username : Text
  pub password : Text
  pub focus : Focus
  pub sessions : List Text
  pub selected_session : ℕ
  pub session_dropdown_open : Bool
  pub keyboard_layouts : List (Text × Text)
  pub selected_layout : ℕ
  pub keyboard_dropdown_open : Bool
  pub error_msg : Option Text
  pub cursor_pos : Pos
  pub username_running : Option Bool

unfoldable pub new_state : {Pos : Type 0} → ℕ → ℕ → Pos → List Text → LoginUiState Pos
unfolding default_keyboard_layouts
new_state width height center sessions = record {
  width = width;
  height = height;
  username = [];
  password = [];
  focus = on_username;
  sessions = sessions;
  selected_session = 0;
  session_dropdown_open = false;
  keyboard_layouts = default_keyboard_layouts;
  selected_layout = 0;
  keyboard_dropdown_open = false;
  error_msg = none;
  cursor_pos = center;
  username_running = none;
}

pub record Layout (Rect : Type 0) : Type 0 where
  pub username_field : Rect
  pub password_field : Rect
  pub session_box : Rect
  pub session_options : List Rect
  pub keyboard_box : Rect
  pub keyboard_options : List Rect
  pub login_button : Rect
  pub logout_button : Option Rect

pub data Hit : Type 0 where
  hit_username : Hit
  hit_password : Hit
  session_toggle : Hit
  session_option : ℕ → Hit
  keyboard_toggle : Hit
  keyboard_option : ℕ → Hit
  hit_login_button : Hit
  hit_logout_button : Hit
  hit_nothing : Hit

module _ {Rect Pos : Type 0} (rect_contains : Rect → Pos → Bool) where
  -- The first row, counted from `i`, that contains the position.
  unfoldable pub hit_row : List Rect → Pos → ℕ → Option ℕ
  hit_row [] pos i = none
  hit_row (row ∷ rows) pos i =
      let below = hit_row rows pos (i + 1) in if rect_contains row pos then some i else below

  unfoldable pub hit_logout : Option Rect → Pos → Hit
  hit_logout none pos = hit_nothing
  hit_logout (some rect) pos = if rect_contains rect pos then hit_logout_button else hit_nothing

  unfoldable pub hit_widget : Layout Rect → Pos → Hit
  unfolding hit_logout
  hit_widget layout pos =
      if rect_contains layout.keyboard_box pos
      then keyboard_toggle
      else if rect_contains layout.session_box pos
      then session_toggle
      else if rect_contains layout.username_field pos
      then hit_username
      else if rect_contains layout.password_field pos
      then hit_password
      else if rect_contains layout.login_button pos
      then hit_login_button
      else hit_logout layout.logout_button pos

  unfoldable pub hit_test : Layout Rect → Pos → Hit
  unfolding hit_row hit_widget
  hit_test layout pos = elim (hit_row layout.keyboard_options pos 0) [
    | some i ↦ keyboard_option i
    | none ↦ elim (hit_row layout.session_options pos 0) [
      | some i ↦ session_option i
      | none ↦ hit_widget layout pos
    ]
  ]
