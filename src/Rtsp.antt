-- ===== src/Rtsp.antt =====
-- crates/redfog-moonlight/src/rtsp.rs: the handshake that sets a stream up. The framing of messages is
-- rtsp-types'; a body or a first line is bytes, a text its characters.
pub mod Lines
pub mod Announce
pub mod Target
use redfog.Base.{
  ℕ, ◌+◌, ◌%◌, ◌==◌, ◌&&◌, if◌then◌else◌, Bool, true, false, Option, none, some, List, [], ◌∷◌,
  ◌++◌, u16_size,
}
use redfog.Base.Text.{same_bytes, Text}
use redfog.Base.Decimal.{parse_u32, split_once}
use redfog.Base.Utf8.{from_utf8, from_utf8_lossy}
use redfog.Base.Outcome.{Outcome, returns, panics}
use redfog.Rtsp.Lines.{lines, strip_prefix, trim, contains_text}

abbrev pub video_prefix : Text
video_prefix =
    97 ∷ 61 ∷ 120 ∷ 45 ∷ 110 ∷ 118 ∷ 45 ∷ 118 ∷ 105 ∷ 100 ∷ 101 ∷ 111 ∷ 91 ∷ 48 ∷ 93 ∷ 46 ∷ []

abbrev pub format_prefix : Text
format_prefix =
    97 ∷ 61 ∷ 120 ∷ 45 ∷ 110 ∷ 118 ∷ 45 ∷ 118 ∷ 113 ∷ 111 ∷ 115 ∷ 91 ∷ 48 ∷ 93 ∷ 46 ∷ 98 ∷ 105 ∷ 116
    ∷ 83 ∷ 116 ∷ 114 ∷ 101 ∷ 97 ∷ 109 ∷ 70 ∷ 111 ∷ 114 ∷ 109 ∷ 97 ∷ 116 ∷ 58 ∷ []

abbrev pub client_viewport_wd : Text
client_viewport_wd =
    99 ∷ 108 ∷ 105 ∷ 101 ∷ 110 ∷ 116 ∷ 86 ∷ 105 ∷ 101 ∷ 119 ∷ 112 ∷ 111 ∷ 114 ∷ 116 ∷ 87 ∷ 100 ∷ []

abbrev pub client_viewport_ht : Text
client_viewport_ht =
    99 ∷ 108 ∷ 105 ∷ 101 ∷ 110 ∷ 116 ∷ 86 ∷ 105 ∷ 101 ∷ 119 ∷ 112 ∷ 111 ∷ 114 ∷ 116 ∷ 72 ∷ 116 ∷ []

abbrev pub max_fps : Text
max_fps = 109 ∷ 97 ∷ 120 ∷ 70 ∷ 80 ∷ 83 ∷ []

abbrev pub initial_bitrate_kbps : Text
initial_bitrate_kbps =
    105 ∷ 110 ∷ 105 ∷ 116 ∷ 105 ∷ 97 ∷ 108 ∷ 66 ∷ 105 ∷ 116 ∷ 114 ∷ 97 ∷ 116 ∷ 101 ∷ 75 ∷ 98 ∷ 112
    ∷ 115 ∷ []

abbrev pub control_mark : Text
control_mark = 61 ∷ 99 ∷ 111 ∷ 110 ∷ 116 ∷ 114 ∷ 111 ∷ 108 ∷ []

abbrev pub audio_mark : Text
audio_mark = 61 ∷ 97 ∷ 117 ∷ 100 ∷ 105 ∷ 111 ∷ []

pub data VideoCodec : Type 0 where
  h264 : VideoCodec
  hevc : VideoCodec
  av1 : VideoCodec

pub record AnnouncedParams : Type 0 where
  pub width : ℕ
  pub height : ℕ
  pub fps : ℕ
  pub bitrate_kbps : Option ℕ
  pub codec : VideoCodec

-- `unwrap_or`.
abbrev pub or_default : Option ℕ → ℕ → ℕ
or_default none n = n
or_default (some m) n = m

-- An attribute of the video stream.
unfoldable pub video_attribute : Text → Text → AnnouncedParams → AnnouncedParams
video_attribute key value p =
    if same_bytes key client_viewport_wd
    then record p { width = or_default (parse_u32 value) (p.width) }
    else if same_bytes key client_viewport_ht
    then record p { height = or_default (parse_u32 value) (p.height) }
    else if same_bytes key max_fps
    then record p { fps = or_default (parse_u32 value) (p.fps) }
    else if same_bytes key initial_bitrate_kbps
    then record p { bitrate_kbps = parse_u32 value }
    else p

unfoldable pub codec_of : Bool → Text → VideoCodec
codec_of av1_supported value =
    if same_bytes value (49 ∷ [])
    then hevc
    else if same_bytes value (50 ∷ []) && av1_supported
    then av1
    else h264

-- One line of the body.
unfoldable pub announce_line : Bool → AnnouncedParams → Text → AnnouncedParams
unfolding video_attribute codec_of
announce_line av1_supported p line = elim (strip_prefix video_prefix line) [
  | some rest ↦ elim (split_once 58 rest) [
    | none ↦ p
    | some (key, value) ↦ video_attribute key (trim value) p
  ]
  | none ↦ elim (strip_prefix format_prefix line) [
    | none ↦ p
    | some value ↦ record p { codec = codec_of av1_supported (trim value) }
  ]
]

unfoldable pub announce_lines : Bool → AnnouncedParams → List Text → AnnouncedParams
unfolding announce_line
announce_lines av1_supported p [] = p
announce_lines av1_supported p (line ∷ rest) =
    announce_lines av1_supported (announce_line av1_supported p line) rest

pub record RtspServer : Type 0 where
  pub video_port : ℕ
  pub control_port : ℕ
  pub audio_port : ℕ
  pub default_width : ℕ
  pub default_height : ℕ
  pub default_fps : ℕ
  pub av1_supported : Bool

abbrev pub defaults : RtspServer → AnnouncedParams
defaults s = record {
  width = s.default_width;
  height = s.default_height;
  fps = s.default_fps;
  bitrate_kbps = none;
  codec = h264;
}

unfoldable pub parse_announce : RtspServer → List ℕ → AnnouncedParams
unfolding announce_lines from_utf8_lossy lines
parse_announce s body = announce_lines (s.av1_supported) (defaults s) (lines (from_utf8_lossy body))

pub data Method : Type 0 where
  options : Method
  describe : Method
  setup : Method
  announce : Method
  play : Method
  teardown : Method
  other_method : Method

-- The reply of a method, beside the headers of `CSeq` and `Session`; a set-up names its port and the next
-- one, and what the client puts into its pings.
pub data Reply : Type 0 where
  methods : Reply
  description : Reply
  transport : (port next_port : ℕ) → (ping_payload : Option Text) → Reply
  empty_ok : Reply
  method_not_allowed : Reply

-- The calls of the session's handler.
pub data Call : Type 0 where
  on_announce : AnnouncedParams → Call
  on_play : Call

unfoldable pub setup_port : RtspServer → Text → ℕ
setup_port s target =
    if contains_text audio_mark target
    then s.audio_port
    else if contains_text control_mark target
    then s.control_port
    else s.video_port

-- The token is printable ASCII; the code's `expect` would panic on one that is no UTF-8.
unfoldable pub ping_payload : Bool → Option (List ℕ) → Outcome (Option Text)
ping_payload true token = returns none
ping_payload false none = returns none
ping_payload false (some bytes) = elim (from_utf8 bytes) [
  | none ↦ panics
  | some text ↦ returns (some text)
]

-- The token is the answer of `ping_token_for` to the client's address.
unfoldable pub handle_request :
    RtspServer → Method → Text → List ℕ → Option (List ℕ) → Outcome (Reply × List Call)
unfolding setup_port ping_payload parse_announce
handle_request s options target body token = returns (methods, [])
handle_request s describe target body token = returns (description, [])
handle_request s setup target body token =
    let port = setup_port s target in
    elim (ping_payload (contains_text control_mark target) token) [
      | panics ↦ panics
      | returns payload ↦ returns (transport port ((port + 1) % u16_size) payload, [])
    ]
handle_request s announce target body token =
    returns (empty_ok, on_announce (parse_announce s body) ∷ [])
handle_request s play target body token = returns (empty_ok, on_play ∷ [])
handle_request s teardown target body token = returns (empty_ok, [])
handle_request s other_method target body token = returns (method_not_allowed, [])
