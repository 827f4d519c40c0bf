-- ===== src/Sessions/Input.antt =====
-- crates/redfog-moonlight/src/session.rs: `on_input`, from a decoded event to the calls on the session's
-- `InputSink`. Pixel coordinates are f64: `scale_pointer` (coordinate, screen size, session size) and
-- `scale_touch` (bits of a normalized f32, session size) stand for the arithmetic on them.
use redfog.Base.{
  ℕ, zero, suc, ◌==◌, if◌then◌else◌, Bool, true, false, ◌&&◌, Option, none, some, List, [], ◌∷◌,
  ◌++◌, map, get, insert, remove, ℤ, pos, negsuc,
}
use redfog.Touch.{
  Call, on_touch, TouchEvent, touch_downs, touch_motions, touch_ups, touch_cancels,
  touch_cancel_all,
}
use redfog.Control.Input.{
  Gamepad, InputEvent, key_down, key_up, mouse_move_relative, mouse_move_absolute,
  mouse_button_down, mouse_button_up, scroll_vertical, scroll_horizontal, touch_down, touch_motion,
  touch_up, touch_cancel, gamepad_state,
}
use redfog.Control.Input
use redfog.Sessions.State.{
  RunningSession, ClientState, spawning, launched, streaming, ClientSlot, Manager,
}
use redfog.Sessions.Lookup.{resolve_client_key_by_rikey}

pub data SinkCall (Pixel : Type 0) : Type 0 where
  keyboard_key : ℕ → Bool → SinkCall Pixel
  pointer_motion : ℤ → ℤ → SinkCall Pixel
  pointer_motion_absolute : Pixel → Pixel → SinkCall Pixel
  button : ℕ → Bool → SinkCall Pixel
  vertical : ℤ → SinkCall Pixel
  horizontal : ℤ → SinkCall Pixel
  touches : Call Pixel → SinkCall Pixel
  set_gamepad : Gamepad → SinkCall Pixel
  flush : SinkCall Pixel

abbrev pub is_positive : ℤ → Bool
is_positive (pos zero) = false
is_positive (pos (suc n)) = true
is_positive (negsuc n) = false

module _ {Pixel : Type 0} (scale_pointer : ℤ → ℤ → ℕ → Pixel) (scale_touch : ℕ → ℕ → Pixel) where
  -- The touch arm of an event, and `none` for the others.
  unfoldable pub touch_of : (width height : ℕ) → InputEvent → Option (TouchEvent Pixel)
  touch_of width height (touch_down id x y pressure) =
      some (touch_downs id (scale_touch x width) (scale_touch y height))
  touch_of width height (touch_motion id x y pressure) =
      some (touch_motions id (scale_touch x width) (scale_touch y height))
  touch_of width height (touch_up id) = some (touch_ups id)
  touch_of width height (touch_cancel id) = some (touch_cancels id)
  touch_of width height Input.touch_cancel_all = some touch_cancel_all
  touch_of width height _ = none

  unfoldable pub other_calls : (width height : ℕ) → Bool → InputEvent → List (SinkCall Pixel)
  other_calls width height has_gamepad (key_down keycode) = keyboard_key keycode true ∷ []
  other_calls width height has_gamepad (key_up keycode) = keyboard_key keycode false ∷ []
  other_calls width height has_gamepad (mouse_move_relative dx dy) = pointer_motion dx dy ∷ []
  other_calls width height has_gamepad (mouse_move_absolute x y screen_width screen_height) =
      if is_positive screen_width && is_positive screen_height
      then pointer_motion_absolute (scale_pointer x screen_width width)
          (scale_pointer y screen_height height)
        ∷ []
      else []
  other_calls width height has_gamepad (mouse_button_down b) = button b true ∷ []
  other_calls width height has_gamepad (mouse_button_up b) = button b false ∷ []
  other_calls width height has_gamepad (scroll_vertical amount) = vertical amount ∷ []
  other_calls width height has_gamepad (scroll_horizontal amount) = horizontal amount ∷ []
  other_calls width height has_gamepad (gamepad_state g) =
      if has_gamepad && (g.controller_number == 0) then set_gamepad g ∷ [] else []
  other_calls width height has_gamepad _ = []

  module _ {Key Ip User : Type 0} where
    -- One event on a streaming session.
    unfoldable pub input_session :
        RunningSession Key Ip User → InputEvent → RunningSession Key Ip User × List (SinkCall Pixel)
    unfolding touch_of other_calls on_touch
    input_session session event = elim (touch_of session.width session.height event) [
      | none ↦ (
        session,
        other_calls session.width session.height session.has_gamepad event ++ flush ∷ [],
      )
      | some touch ↦
          let (active, calls) = on_touch session.active_touch_ids touch in
          (record session { active_touch_ids = active }, map touches calls ++ flush ∷ [])
    ]

    module _ (key_dec : Discrete Key) (dec : Discrete (List ℕ)) where
      unfoldable pub input_slot :
          Manager Key Ip User
          → Key
          → ClientSlot Key Ip User
          → ClientState Key Ip User
          → InputEvent
          → Manager Key Ip User × List (SinkCall Pixel)
      unfolding insert remove input_session
      input_slot m key slot spawning event = (m, [])
      input_slot m key slot (launched session) event = (m, [])
      input_slot m key slot (streaming session) event =
          let (session', calls) = input_session session event in
          (
            record m {
              clients = insert key_dec key (record slot { state = streaming session' }) m.clients;
            },
            calls,
          )

      unfoldable pub on_input :
          Manager Key Ip User → List ℕ → InputEvent → Manager Key Ip User × List (SinkCall Pixel)
      unfolding resolve_client_key_by_rikey get input_slot
      on_input m rikey event = elim (resolve_client_key_by_rikey dec m rikey) [
        | none ↦ (m, [])
        | some key ↦ elim (get key_dec key m.clients) [
          | none ↦ (m, [])
          | some slot ↦ input_slot m key slot slot.state event
        ]
      ]
