-- ===== src/LoginScreen/Safety.antt =====
-- The reactions of the login screen, and what is selected and open afterwards.
use redfog.Base.{
  ℕ, ◌-◌, ◌<◌, ◌==◌, ◌≡◌, refl, ◌&&◌, ◌||◌, Bool, false, Bool-cases, some, inl, inr, List, [], ◌∷◌,
  length, arith, get_elem?, zero, suc,
}
use redfog.Base.Text.{Text}
use redfog.LoginScreen.{
  Focus, LoginUiState, Hit, hit_username, hit_password, session_toggle, session_option,
  keyboard_toggle, keyboard_option, hit_login_button, hit_logout_button, hit_nothing,
}
use redfog.LoginScreen.Requests.{
  LoginRequest, World, Screen, shows, exits, panics, session_name, authenticate, try_submit,
  try_logout, check_username, maybe_check_username, Answer, accepted, failed, user_configured_name,
}
use redfog.LoginScreen.Handlers.{
  click_popup, after_click, click_widget, handle_hit, handle_key, type_backspace, type_text,
  press_tab, is_username,
}
use redfog.LoginScreen.Hits.{HitFits}

pub record IsValid {Pos : Type 0} (s : LoginUiState Pos) : Type 0 where
  pub wide : 0 < s.width
  pub high : 0 < s.height
  pub in_sessions : s.selected_session < length s.sessions
  pub in_layouts : s.selected_layout < length s.keyboard_layouts
  pub one_open : (s.session_dropdown_open && s.keyboard_dropdown_open) ≡ false

-- The lists are as before, and the state is valid; or the process exits, which is no panic.
abbrev pub Goes : {Pos : Type 0} → LoginUiState Pos → Screen Pos → Type 0
Goes s (shows t) = IsValid t × (t.sessions ≡ s.sessions) × (t.keyboard_layouts ≡ s.keyboard_layouts)
Goes s exits = Unit {0}
Goes s panics = ⊥

in_range :
    (names : List Text) (k : ℕ) → k < length names → (n : Text) × (get_elem? names k ≡ some n)
in_range [] k h = absurd (omega (arith, h))
in_range (name ∷ names) zero h = (name, refl)
in_range (name ∷ names) (suc k) h = in_range names k (omega (arith, h))

session_name-some :
    (names : List Text) (k : ℕ) → k < length names → (n : Text) × (session_name names k ≡ some n)
unfolding session_name
session_name-some [] k h = absurd (omega (arith, h))
session_name-some (name ∷ names) k h = elim (Bool-cases (k == length (name ∷ names) - 1)) [
  | inl e ↦ (user_configured_name, rw e refl)
  | inr e ↦ let (n, at) = in_range (name ∷ names) k h in (n, rw e at)
]

module _ {Pos : Type 0} where
  after_answer-Goes :
      (s : LoginUiState Pos) (answer : Answer) (sent : List LoginRequest)
      → IsValid s
      → Goes s
          (let r : Screen Pos × List LoginRequest = elim answer [
            | accepted ↦ (exits, sent)
            | failed e ↦ (shows (record s { password = []; error_msg = some e }), sent)
          ] in
            r).0
  after_answer-Goes s accepted sent v = tt
  after_answer-Goes s (failed e) sent v = ground arith

  try_submit-Goes : (w : World) (s : LoginUiState Pos) → IsValid s → Goes s (try_submit w s).0
  unfolding try_submit
  try_submit-Goes w s v =
      let (name, e) = session_name-some s.sessions s.selected_session v.in_sessions in
      let (answer, sent) = authenticate w s.username s.password name in
      rw (e, try_submit) (after_answer-Goes s answer sent v)

  try_logout-Goes :
      (w : World) (s : LoginUiState Pos) → IsValid s → Goes s (shows (try_logout w s).0)
  unfolding try_logout
  try_logout-Goes w s v = ground arith

  maybe_check-Goes :
      (w : World) (s : LoginUiState Pos) → IsValid s → Goes s (shows (maybe_check_username w s).0)
  unfolding maybe_check_username check_username
  maybe_check-Goes w s v = ground arith

  click_popup-Goes :
      (s : LoginUiState Pos) (hit : Hit)
      → IsValid s
      → HitFits s hit
      → Goes s (shows (click_popup hit s))
  unfolding click_popup
  click_popup-Goes s hit_username v f = ground arith
  click_popup-Goes s hit v f = ground arith

  type_backspace-Goes :
      (s : LoginUiState Pos) (f : Focus) → IsValid s → Goes s (shows (type_backspace f s))
  unfolding type_backspace
  type_backspace-Goes s f v = ground arith

  type_text-Goes :
      (s : LoginUiState Pos) (f : Focus) (text : Text)
      → IsValid s
      → Goes s (shows (type_text f text s))
  unfolding type_text
  type_text-Goes s f text v = ground arith

  press_tab-Goes :
      (w : World) (s : LoginUiState Pos) (f : Focus)
      → IsValid s
      → Goes s (shows (press_tab w f s).0)
  unfolding press_tab maybe_check_username check_username
  press_tab-Goes w s f v = ground arith

  pub handle_key-Goes :
      (w : World) (s : LoginUiState Pos) (keycode : ℕ) (text : Text)
      → IsValid s
      → Goes s (handle_key w s keycode text).0
  unfolding handle_key
  handle_key-Goes w s keycode text v = ground (
    arith,
    type_backspace-Goes s s.focus v,
    press_tab-Goes w s s.focus v,
    try_submit-Goes w s v,
    type_text-Goes s s.focus text v,
  )

  click_widget-Goes :
      (w : World) (s : LoginUiState Pos) (hit : Hit)
      → IsValid s
      → (s.session_dropdown_open || s.keyboard_dropdown_open) ≡ false
      → Goes s (click_widget w hit s).0
  unfolding click_widget
  click_widget-Goes w s hit_login_button v closed = try_submit-Goes w s v
  click_widget-Goes w s hit_logout_button v closed = try_logout-Goes w s v
  click_widget-Goes w s hit_username v closed = ground arith
  click_widget-Goes w s hit_password v closed = ground arith
  click_widget-Goes w s session_toggle v closed = ground arith
  click_widget-Goes w s keyboard_toggle v closed = ground arith
  click_widget-Goes w s (session_option i) v closed = ground arith
  click_widget-Goes w s (keyboard_option i) v closed = ground arith
  click_widget-Goes w s hit_nothing v closed = ground arith

  after_click-Goes :
      (w : World) (s : LoginUiState Pos) (was : Bool) (r : Screen Pos × List LoginRequest)
      → Goes s r.0
      → Goes s (after_click w was r).0
  unfolding after_click
  after_click-Goes w s was (exits, sent) v = tt
  after_click-Goes w s was (panics, sent) v = v
  after_click-Goes w s was (shows t, sent) v = ground (arith, maybe_check-Goes w t v.0)

  pub handle_hit-Goes :
      (w : World) (s : LoginUiState Pos) (hit : Hit)
      → IsValid s
      → HitFits s hit
      → Goes s (handle_hit w hit s).0
  unfolding handle_hit
  handle_hit-Goes w s hit v fits =
      elim (Bool-cases (s.session_dropdown_open || s.keyboard_dropdown_open)) [
        | inl e ↦ rw (e, handle_hit) (click_popup-Goes s hit v fits)
        | inr e ↦
            rw (e, handle_hit)
              (after_click-Goes w s (is_username s.focus) (click_widget w hit s)
                (click_widget-Goes w s hit v e))
      ]
