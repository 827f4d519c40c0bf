-- ===== src/Control/Input.antt =====
-- crates/redfog-moonlight/src/control.rs: `decode_input_event`. An f32 is its bit pattern.
use redfog.Base.{
  ℕ, ◌*◌, ◌%◌, ◌==◌, ltb, if◌then◌else◌, ◌||◌, Option, none, some, List, length, drop, ℤ, i16,
  bit_or,
}
use redfog.Base.Outcome.{Outcome, returns, ◌>>=◌}
use redfog.Base.Reads.{index, le_u16_at, be_u16_at, le_u32_at}
use redfog.Control.Keys.{vk_to_evdev, key_code_from, mouse_button_from}

pub record Gamepad : Type 0 where
  pub controller_number : ℕ
  pub buttons : ℕ
  pub left_trigger : ℕ
  pub right_trigger : ℕ
  pub left_stick : ℤ × ℤ
  pub right_stick : ℤ × ℤ

pub data InputEvent : Type 0 where
  key_down : ℕ → InputEvent
  key_up : ℕ → InputEvent
  mouse_move_relative : ℤ → ℤ → InputEvent
  mouse_move_absolute : (x y screen_width screen_height : ℤ) → InputEvent
  mouse_button_down : ℕ → InputEvent
  mouse_button_up : ℕ → InputEvent
  scroll_vertical : ℤ → InputEvent
  scroll_horizontal : ℤ → InputEvent
  touch_down : (pointer_id x y pressure : ℕ) → InputEvent
  touch_motion : (pointer_id x y pressure : ℕ) → InputEvent
  touch_up : ℕ → InputEvent
  touch_cancel : ℕ → InputEvent
  touch_cancel_all : InputEvent
  gamepad_state : Gamepad → InputEvent

abbrev pub scroll_horizontal_type : ℕ
scroll_horizontal_type = 1426063361

abbrev pub touch_type : ℕ
touch_type = 1426063362

-- An event built from a value that may be missing: `Some(Event(value?))`.
abbrev pub with_value : (ℕ → InputEvent) → Option ℕ → Option InputEvent
with_value event none = none
with_value event (some n) = some (event n)

unfoldable pub evdev_code : List ℕ → Option ℕ
unfolding key_code_from vk_to_evdev
evdev_code body = elim (key_code_from body) [ none ↦ none | some vk ↦ vk_to_evdev vk ]

unfoldable pub decode_move_absolute : List ℕ → Outcome (Option InputEvent)
unfolding be_u16_at
decode_move_absolute body = if ltb (length body) 10 then returns none else (do
  x ← be_u16_at body 0
  y ← be_u16_at body 2
  screen_width ← be_u16_at body 6
  screen_height ← be_u16_at body 8
  returns (some (mouse_move_absolute (i16 x) (i16 y) (i16 screen_width) (i16 screen_height))))

unfoldable pub decode_move_relative : List ℕ → Outcome (Option InputEvent)
unfolding be_u16_at
decode_move_relative body = if ltb (length body) 4 then returns none else (do
  dx ← be_u16_at body 0
  dy ← be_u16_at body 2
  returns (some (mouse_move_relative (i16 dx) (i16 dy))))

unfoldable pub decode_scroll : (ℤ → InputEvent) → List ℕ → Outcome (Option InputEvent)
unfolding be_u16_at
decode_scroll event body =
    if length body == 0
    then returns none
    else (do amount ← be_u16_at body 0; returns (some (event (i16 amount))))

unfoldable pub touch_event : ℕ → (pointer_id x y pressure : ℕ) → Option InputEvent
touch_event event_type pointer_id x y pressure =
    if event_type == 1
    then some (touch_down pointer_id x y pressure)
    else if event_type == 2
    then some (touch_up pointer_id)
    else if event_type == 3
    then some (touch_motion pointer_id x y pressure)
    else if event_type == 4
    then some (touch_cancel pointer_id)
    else if event_type == 7
    then some touch_cancel_all
    else none

unfoldable pub decode_touch : List ℕ → Outcome (Option InputEvent)
unfolding le_u32_at touch_event
decode_touch body = if ltb (length body) 28 then returns none else (do
  event_type ← index body 0
  pointer_id ← le_u32_at body 4
  x ← le_u32_at body 8
  y ← le_u32_at body 12
  pressure ← le_u32_at body 16
  returns (touch_event event_type pointer_id x y pressure))

-- The two halves of the button mask, each a u16 widened to a u32.
unfoldable pub button_mask : ℕ → ℕ → ℕ
button_mask button_flags button_flags_2 = bit_or button_flags (button_flags_2 * 65536)

-- `as u8` on an i16 keeps its low byte.
unfoldable pub decode_gamepad : List ℕ → Outcome (Option InputEvent)
unfolding le_u16_at button_mask
decode_gamepad body = if ltb (length body) 26 then returns none else (do
  controller_number ← le_u16_at body 2
  button_flags ← le_u16_at body 8
  left_trigger ← index body 10
  right_trigger ← index body 11
  left_stick_x ← le_u16_at body 12
  left_stick_y ← le_u16_at body 14
  right_stick_x ← le_u16_at body 16
  right_stick_y ← le_u16_at body 18
  button_flags_2 ← le_u16_at body 22
  returns (
      some (
        gamepad_state (record {
          controller_number = controller_number % 256;
          buttons = button_mask button_flags button_flags_2;
          left_trigger = left_trigger;
          right_trigger = right_trigger;
          left_stick = (i16 left_stick_x, i16 left_stick_y);
          right_stick = (i16 right_stick_x, i16 right_stick_y);
        }))))

unfoldable pub decode_body : ℕ → List ℕ → Outcome (Option InputEvent)
unfolding decode_move_absolute decode_move_relative decode_scroll decode_touch decode_gamepad
    evdev_code mouse_button_from
decode_body event_type body =
    if event_type == 3
    then returns (with_value key_down (evdev_code body))
    else if event_type == 4
    then returns (with_value key_up (evdev_code body))
    else if event_type == 5
    then decode_move_absolute body
    else if event_type == 7
    then decode_move_relative body
    else if event_type == 8
    then returns (with_value mouse_button_down (mouse_button_from body))
    else if event_type == 9
    then returns (with_value mouse_button_up (mouse_button_from body))
    else if event_type == 10
    then decode_scroll scroll_vertical body
    else if event_type == scroll_horizontal_type
    then decode_scroll scroll_horizontal body
    else if event_type == touch_type
    then decode_touch body
    else if (event_type == 13) || (event_type == 12)
    then decode_gamepad body
    else returns none

unfoldable pub decode_input_event : List ℕ → Outcome (Option InputEvent)
unfolding le_u32_at decode_body
decode_input_event payload =
    if ltb (length payload) 4
    then returns none
    else (do event_type ← le_u32_at payload 0; decode_body event_type (drop 4 payload))
