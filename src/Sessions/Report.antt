-- ===== src/Sessions/Report.antt =====
-- crates/redfog-moonlight/src/session.rs: what the login screen asks for: `handle_login_report`
-- and `handle_check_username`. The broker's replies are arguments.
use redfog.Base.{
  ℕ, ◌||◌, Bool, true, false, Option, none, some, List, [], ◌∷◌, get, insert, remove, if◌then◌else◌,
  ℕ_discrete,
}
use redfog.Base.Text.{Text, codes, same_bytes, text_discrete}
use redfog.Presets.{SessionPreset}
use redfog.SessionBackend.{parse_backend}
use redfog.Rtsp.Lines.{trim}
use redfog.Sessions.State.{SelectedSession, Manager}
use redfog.Sessions.Attach.{is_user}
use redfog.Sessions.Lookup.{find_client}

-- The fields of `SessionConfig` that these handlers read.
pub record SessionConfig : Type 0 where
  pub has_broker : Bool
  pub session_presets : List SessionPreset
  pub allow_concurrent_sessions_per_user : Bool

pub record PendingLoginResult : Type 0 where
  pub username : Text
  pub password : Text
  pub selected : Option SelectedSession

-- `redfog_broker_protocol::UserSessionConfig`.
pub record UserSessionConfig : Type 0 where
  pub backend : Text
  pub payload : List Text
  pub desktop_name : Option Text
  pub glx_vendor : Option Text

-- A round trip to the broker: no connection or no whole answer, another answer than the request's, or
-- the request's, which may be an error.
pub data BrokerReply (A : Type 0) : Type 0 where
  unreachable : BrokerReply A
  unexpected : BrokerReply A
  refused : Text → BrokerReply A
  replied : A → BrokerReply A

pub data ReportError : Type 0 where
  broker_unreachable : ReportError
  unexpected_response : ReportError
  broker_refused : Text → ReportError
  username_empty : ReportError
  custom_needs_broker : ReportError
  no_session_toml : ReportError
  unknown_session : Text → ReportError
  unknown_backend : Text → ReportError
  no_running_session : Text → ReportError

pub data Reported (A : Type 0) : Type 0 where
  ok : A → Reported A
  err : ReportError → Reported A

-- The `?` on a round trip.
abbrev pub of_reply : {A : Type 0} → BrokerReply A → Reported A
of_reply unreachable = err broker_unreachable
of_reply unexpected = err unexpected_response
of_reply (refused e) = err (broker_refused e)
of_reply (replied a) = ok a

infixl 5 ◌>>=◌
abbrev pub ◌>>=◌ : {A B : Type 0} → Reported A → (A → Reported B) → Reported B
ok a >>= f = f a
err e >>= f = err e

-- `SessionManager`'s table together with what was reported and not yet handed off, by generation.
pub record SessionManager (Key Ip : Type 0) : Type 0 where
  pub table : Manager Key Ip Text
  pub pending_logins : List (ℕ × PendingLoginResult)
  pub next_broker_session_id : ℕ

-- The password is checked by the broker; without one any name but a blank one passes.
unfoldable pub check_password : SessionConfig → Text → BrokerReply (Unit {0}) → Reported (Unit {0})
check_password config username reply =
    if config.has_broker
    then of_reply reply
    else if same_bytes (trim username) []
    then err username_empty
    else ok tt

abbrev pub or_sway : Option Text → Text
or_sway none = codes "sway"
or_sway (some name) = name

abbrev pub with_backend : Text → List Text → Option Text → Option Text → Reported SelectedSession
with_backend backend payload desktop_name glx_vendor = elim (parse_backend backend) [
  | none ↦ err (unknown_backend backend)
  | some parsed ↦ ok (record {
    backend = parsed;
    user_app = payload;
    desktop_name = or_sway desktop_name;
    glx_vendor = glx_vendor;
  })
]

-- The user's own session file, read by the broker.
unfoldable pub user_configured :
    SessionConfig → BrokerReply (Option UserSessionConfig) → Reported SelectedSession
user_configured config reply =
    if config.has_broker
    then (do
      found ← of_reply reply
      elim found [
        | none ↦ err no_session_toml
        | some c ↦ with_backend c.backend c.payload c.desktop_name c.glx_vendor
      ])
    else err custom_needs_broker

unfoldable pub find_preset : Text → List SessionPreset → Option SessionPreset
find_preset name [] = none
find_preset name (preset ∷ more) =
    let rest = find_preset name more in if same_bytes preset.name name then some preset else rest

unfoldable pub preset_selected : List SessionPreset → Text → Reported SelectedSession
unfolding find_preset
preset_selected presets name = elim (find_preset name presets) [
  | none ↦ err (unknown_session name)
  | some p ↦ with_backend p.backend p.payload p.desktop_name p.glx_vendor
]

unfoldable pub select_session :
    SessionConfig → Text → BrokerReply (Option UserSessionConfig) → Reported SelectedSession
unfolding user_configured preset_selected
select_session config name reply =
    if same_bytes name (codes "user-configured")
    then user_configured config reply
    else preset_selected config.session_presets name

abbrev pub is_some : {A : Type 0} → Option A → Bool
is_some none = false
is_some (some a) = true

module _ {Key Ip : Type 0} where
  unfoldable pub handle_login_report :
      SessionConfig
      → SessionManager Key Ip
      → Text
      → Text
      → Text
      → ℕ
      → BrokerReply (Unit {0})
      → BrokerReply (Option UserSessionConfig)
      → SessionManager Key Ip × Reported (Unit {0})
  unfolding check_password select_session insert remove
  handle_login_report config m username password session_name generation auth custom =
      elim (check_password config username auth >>= λ _.
      select_session config session_name custom) [
        | err e ↦ (m, err e)
        | ok selected ↦ (
          record m {
            pending_logins =
                insert ℕ_discrete generation
                  (record { username = username; password = password; selected = some selected })
                  m.pending_logins;
          },
          ok tt,
        )
      ]

  unfoldable pub handle_check_username : SessionManager Key Ip → Text → Bool
  unfolding get find_client
  handle_check_username m username =
      is_some (get text_discrete username m.table.background_sessions)
      || is_some (find_client (λ s. is_user text_discrete username s.kind) m.table.clients)
