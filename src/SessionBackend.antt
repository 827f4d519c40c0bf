-- ===== src/SessionBackend.antt =====
-- crates/session-backend/src/lib.rs: `Backend` and `InputBackend`, and their names in a configuration.
use redfog.Base.{Option, none, some, if◌then◌else◌}
use redfog.Base.Text.{Text, codes, same_bytes}

pub data Backend : Type 0 where
  kwin : Backend
  gst_wayland_display : Backend

pub data InputBackend : Type 0 where
  inputtino : InputBackend
  fake_input : InputBackend

-- `Backend::as_str`.
unfoldable pub backend_name : Backend → Text
backend_name kwin = codes "kwin"
backend_name gst_wayland_display = codes "gst-wayland-display"

-- `Backend::from_str`.
unfoldable pub parse_backend : Text → Option Backend
parse_backend s =
    if same_bytes s (codes "kwin")
    then some kwin
    else if same_bytes s (codes "gst-wayland-display")
    then some gst_wayland_display
    else none

-- `InputBackend::as_str`.
unfoldable pub input_backend_name : InputBackend → Text
input_backend_name fake_input = codes "fake-input"
input_backend_name inputtino = codes "inputtino"

-- `InputBackend::from_str`.
unfoldable pub parse_input_backend : Text → Option InputBackend
parse_input_backend s =
    if same_bytes s (codes "fake-input")
    then some fake_input
    else if same_bytes s (codes "inputtino")
    then some inputtino
    else none
