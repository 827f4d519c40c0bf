-- ===== src/Sessions/LogOut.antt =====
-- crates/redfog-moonlight/src/session.rs: `handle_log_out`. What the broker says of the password is an
-- argument.
use redfog.Base.{Bool, Option, none, some, List, [], ◌∷◌, ◌++◌, get, remove, if◌then◌else◌}
use redfog.Base.Text.{Text, text_discrete}
use redfog.Control.Registry.{forget}
use redfog.Sessions.State.{
  RunningSession, Manager, Effect, drain_pending, discard, terminate_session,
}
use redfog.Sessions.Attach.{take_active_session_by_username}
use redfog.Sessions.Report.{
  SessionConfig, SessionManager, BrokerReply, no_running_session, Reported, ok, err, check_password,
}

module _ {Key Ip : Type 0} (key_dec : Discrete Key) where
  -- The session of an attached client, taken with its connection's state.
  unfoldable pub log_out_active :
      Manager Key Ip Text
      → Text
      → Manager Key Ip Text × Option (RunningSession Key Ip Text) × List (Effect Key Ip Text)
  unfolding take_active_session_by_username forget
  log_out_active m username =
      let (m', taken, aborts) =
        take_active_session_by_username key_dec text_discrete text_discrete m username in
      elim taken [
        | none ↦ (m', none, aborts)
        | some session ↦ (
          record m' {
            control_registry = forget text_discrete m'.control_registry session.origin.rikey;
          },
          some session,
          aborts ++ drain_pending session.origin.ping_token ∷ [],
        )
      ]

  -- The two maps have a lock each; this is a run with nothing in between, and Steps has its two parts apart.
  unfoldable pub log_out_take :
      Manager Key Ip Text
      → Text
      → Manager Key Ip Text × Option (RunningSession Key Ip Text) × List (Effect Key Ip Text)
  unfolding get remove log_out_active
  log_out_take m username = elim (get text_discrete username m.background_sessions) [
    | none ↦ log_out_active m username
    | some session ↦ (
      record m { background_sessions = remove text_discrete username m.background_sessions },
      some session,
      [],
    )
  ]

  -- Whatever the broker says to the request to terminate, the session is discarded.
  abbrev pub ended : Bool → RunningSession Key Ip Text → List (Effect Key Ip Text)
  ended has_broker session =
      let rest : List (Effect Key Ip Text) = discard session ∷ [] in
      elim session.broker_session_id [
        | none ↦ rest
        | some id ↦ if has_broker then terminate_session id ∷ rest else rest
      ]

  unfoldable pub log_out_with :
      SessionConfig
      → SessionManager Key Ip
      → Text
      → Reported (Unit {0})
      → SessionManager Key Ip × Reported (Unit {0}) × List (Effect Key Ip Text)
  unfolding log_out_take
  log_out_with config m username (err e) = (m, err e, [])
  log_out_with config m username (ok _) =
      let (table, taken, effects) = log_out_take m.table username in
      let m' : SessionManager Key Ip = record m { table = table } in
      elim taken [
        | none ↦ (m', err (no_running_session username), effects)
        | some session ↦ (m', ok tt, effects ++ ended config.has_broker session)
      ]

  unfoldable pub handle_log_out :
      SessionConfig
      → SessionManager Key Ip
      → Text
      → BrokerReply (Unit {0})
      → SessionManager Key Ip × Reported (Unit {0}) × List (Effect Key Ip Text)
  unfolding check_password log_out_with
  handle_log_out config m username auth =
      log_out_with config m username (check_password config username auth)
