-- ===== src/Sessions/State.antt =====
-- crates/redfog-moonlight/src/session.rs: `SessionOrigin`, `RunningSession`, `ClientState`,
-- `ClientSlot` and `Shared`. Pipelines, compositor and other handles are left out of a session; a
-- client key, a user name and an address are of any type; a broker's session id is the number that it is
-- the text of.
use redfog.Base.{ℕ, Bool, true, Option, none, some, List}
use redfog.Base.Text.{Text}
use redfog.Control.Registry.{Registry}
use redfog.SessionBackend.{Backend}

pub data SessionType (User : Type 0) : Type 0 where
  user : User → SessionType User
  login : SessionType User

pub record SelectedSession : Type 0 where
  pub backend : Backend
  pub user_app : List Text
  pub desktop_name : Text
  pub glx_vendor : Option Text

module _ (Key Ip : Type 0) where
  pub record SessionOrigin : Type 0 where
    pub client_key : Key
    pub client_ip : Ip
    pub ping_token : List ℕ
    pub rikey : List ℕ
    pub rikey_key_id : ℕ
    pub next_frame_number : ℕ
    pub target_bitrate_kbps : ℕ
    pub current_bitrate_kbps : ℕ
    pub codec : ℕ
    pub connected : Bool

  -- `SessionOrigin::fresh`, with the random ping token. Codecs are numbered, the default one 0.
  unfoldable pub fresh : Key → Ip → List ℕ → List ℕ → ℕ → ℕ → SessionOrigin
  fresh client_key client_ip ping_token rikey rikey_key_id bitrate_kbps = record {
    client_key = client_key;
    client_ip = client_ip;
    ping_token = ping_token;
    rikey = rikey;
    rikey_key_id = rikey_key_id;
    next_frame_number = 1;
    target_bitrate_kbps = bitrate_kbps;
    current_bitrate_kbps = bitrate_kbps;
    codec = 0;
    connected = true;
  }

module _ (Key Ip User : Type 0) where
  pub record RunningSession : Type 0 where
    pub kind : SessionType User
    pub width : ℕ
    pub height : ℕ
    pub generation : ℕ
    pub has_gamepad : Bool
    pub origin : SessionOrigin Key Ip
    pub active_touch_ids : List ℕ
    pub broker_session_id : Option ℕ
    pub selected_session : Option SelectedSession

  pub data ClientState : Type 0 where
    spawning : ClientState
    launched : RunningSession → ClientState
    streaming : RunningSession → ClientState

  -- The wait tasks are named by numbers.
  pub record ClientSlot : Type 0 where
    pub state : ClientState
    pub video_wait_task : Option ℕ
    pub audio_wait_task : Option ℕ

  -- `Shared`, with the background sessions, the control registry and the generation counter of
  -- `SessionManager`.
  pub record Manager : Type 0 where
    pub clients : List (Key × ClientSlot)
    pub background_sessions : List (User × RunningSession)
    pub control_registry : Registry
    pub next_generation : ℕ

  -- What the manager asks other parts to do.
  pub data Effect : Type 0 where
    abort : ℕ → Effect
    drain_pending : List ℕ → Effect
    lift_touches : List ℕ → Effect
    discard : RunningSession → Effect
    terminate_session : ℕ → Effect

module _ {Key Ip User : Type 0} where
  -- `ClientState::session`, and `into_session`.
  unfoldable pub session_of : ClientState Key Ip User → Option (RunningSession Key Ip User)
  session_of spawning = none
  session_of (launched session) = some session
  session_of (streaming session) = some session

  unfoldable pub spawning_slot : ClientSlot Key Ip User
  spawning_slot = record { state = spawning; video_wait_task = none; audio_wait_task = none }
