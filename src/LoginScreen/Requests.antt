-- ===== src/LoginScreen/Requests.antt =====
-- crates/redfog-login/src/main.rs: the requests of the login screen. What the server answers comes with
-- each of them.
use redfog.Base.{
  ℕ, ◌-◌, ◌==◌, Bool, false, Option, none, some, List, [], ◌∷◌, length, get_elem?, if◌then◌else◌,
}
use redfog.Base.Text.{Text, codes, same_bytes}
use redfog.LoginScreen.{LoginUiState}
use redfog.Rtsp.Lines.{trim}

-- `redfog_login_protocol::LoginRequest`, without the generation, which is the process's own.
pub data LoginRequest : Type 0 where
  authenticate_request : (username password session : Text) → LoginRequest
  check_username_request : Text → LoginRequest
  log_out_request : (username password : Text) → LoginRequest

-- What a request comes to: the server's result, or that it failed, with the message to show.
pub data Answer : Type 0 where
  accepted : Answer
  failed : Text → Answer

-- The server at the moment of an event, if there is one.
pub record World : Type 0 where
  pub has_socket : Bool
  pub authenticates : Answer
  pub running : Option Bool
  pub logs_out : Answer

-- The screen goes on, the process exits, or it panics.
pub data Screen (Pos : Type 0) : Type 0 where
  shows : LoginUiState Pos → Screen Pos
  exits : Screen Pos
  panics : Screen Pos

abbrev pub user_configured_name : Text
user_configured_name = codes "user-configured"

abbrev pub is_blank : Text → Bool
is_blank text = same_bytes (trim text) []

unfoldable pub authenticate : World → Text → Text → Text → Answer × List LoginRequest
authenticate w username password session =
    if w.has_socket
    then (w.authenticates, authenticate_request username password session ∷ [])
    else if is_blank username
    then (failed (codes "Username cannot be empty"), [])
    else (accepted, [])

unfoldable pub check_username : World → Text → Option Bool × List LoginRequest
check_username w username =
    if w.has_socket
    then if is_blank username then (none, []) else (w.running, check_username_request username ∷ [])
    else (none, [])

-- The name that is sent for the chosen row; the last row is the user's own session. None is a panic.
unfoldable pub session_name : List Text → ℕ → Option Text
session_name [] selected = none
session_name (name ∷ names) selected =
    if selected == length (name ∷ names) - 1
    then some user_configured_name
    else get_elem? (name ∷ names) selected

module _ {Pos : Type 0} where
  unfoldable pub try_submit : World → LoginUiState Pos → Screen Pos × List LoginRequest
  unfolding session_name authenticate
  try_submit w state = elim (session_name state.sessions state.selected_session) [
    | none ↦ (panics, [])
    | some name ↦
        let (answer, sent) = authenticate w state.username state.password name in
        elim answer [
          | accepted ↦ (exits, sent)
          | failed e ↦ (shows (record state { password = []; error_msg = some e }), sent)
        ]
  ]

  unfoldable pub try_logout : World → LoginUiState Pos → LoginUiState Pos × List LoginRequest
  try_logout w state =
      if w.has_socket
      then elim w.logs_out [
        | accepted ↦ (
          record state { password = []; error_msg = none; username_running = some false },
          log_out_request state.username state.password ∷ [],
        )
        | failed e ↦ (
          record state { error_msg = some e },
          log_out_request state.username state.password ∷ [],
        )
      ]
      else (
        record state {
          error_msg =
              some (codes "Log Out requires a session server (no REDFOG_LOGIN_SOCKET configured)");
        },
        [],
      )

  unfoldable pub maybe_check_username :
      World → LoginUiState Pos → LoginUiState Pos × List LoginRequest
  unfolding check_username
  maybe_check_username w state =
      if is_blank state.username
      then (record state { username_running = none }, [])
      else let (running, sent) = check_username w state.username in
        (record state { username_running = running }, sent)
