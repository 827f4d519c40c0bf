-- ===== src/Sessions/Handoff.antt =====
-- crates/redfog-moonlight/src/session.rs: `handoff_to_user` and `start_streaming`, in steps that end
-- where a lock is released, and what `watch_login_exit` decides. Pipelines are left out; what the spawn of
-- a user's compositor and the resize of a resumed one give are arguments.
use redfog.Base.{
  ℕ, ◌+◌, ◌%◌, ◌^◌, Bool, true, false, Option, none, some, List, [], ◌∷◌, get, insert, remove,
  if◌then◌else◌, ℕ_discrete,
}
use redfog.Base.Text.{Text, codes, text_discrete}
use redfog.Control.Registry.{forget}
use redfog.Sessions.State.{
  SessionType, user, login, SelectedSession, SessionOrigin, RunningSession, ClientState, spawning,
  launched, streaming, Manager, Effect, drain_pending,
}
use redfog.Sessions.Attach.{take_active_session_by_username}
use redfog.Sessions.Report.{SessionConfig, PendingLoginResult, SessionManager}

-- Which task watches a session that starts to stream.
pub data Watch (Key : Type 0) : Type 0 where
  no_watch : Watch Key
  watch_login_exit : Key → Watch Key
  watch_user_session_exit : Text → Watch Key

abbrev pub reported_name : Option PendingLoginResult → Text
reported_name none = codes "user"
reported_name (some r) = r.username

abbrev pub reported_session : Option PendingLoginResult → Option SelectedSession
reported_session none = none
reported_session (some r) = r.selected

module _ {Key Ip : Type 0} (key_dec : Discrete Key) where
  unfoldable pub streaming_session : ClientState Key Ip Text → Option (RunningSession Key Ip Text)
  streaming_session spawning = none
  streaming_session (launched session) = none
  streaming_session (streaming session) = some session

  -- The login session is taken out, to be discarded; any other slot is put back.
  unfoldable pub handoff_begin :
      Manager Key Ip Text → Key → Manager Key Ip Text × Option (RunningSession Key Ip Text)
  unfolding get insert remove streaming_session
  handoff_begin m key = elim (get key_dec key m.clients) [
    | none ↦ (m, none)
    | some slot ↦
        let without = remove key_dec key m.clients in
        elim (streaming_session slot.state) [
          | none ↦ (record m { clients = insert key_dec key slot without }, none)
          | some session ↦ (record m { clients = without }, some session)
        ]
  ]

  -- The user's session, if there is one: a backgrounded one, else, where a user may have only one, that of
  -- another client. The two maps have a lock each; this is a run with nothing in between, and Steps has its
  -- two parts apart.
  unfoldable pub take_existing :
      SessionConfig
      → Manager Key Ip Text
      → Text
      → Manager Key Ip Text × Option (RunningSession Key Ip Text) × List (Effect Key Ip Text)
  unfolding get remove take_active_session_by_username
  take_existing config m username = elim (get text_discrete username m.background_sessions) [
    | some session ↦ (
      record m { background_sessions = remove text_discrete username m.background_sessions },
      some session,
      [],
    )
    | none ↦
        if config.allow_concurrent_sessions_per_user
        then (m, none, [])
        else take_active_session_by_username key_dec text_discrete text_discrete m username
  ]

  unfoldable pub handoff_claim :
      SessionConfig
      → SessionManager Key Ip
      → ℕ
      → SessionManager Key Ip
        × Option PendingLoginResult
        × Option (RunningSession Key Ip Text)
        × List (Effect Key Ip Text)
  unfolding get remove take_existing
  handoff_claim config m login_generation =
      let reported = get ℕ_discrete login_generation m.pending_logins in
      let (table, existing, effects) = take_existing config m.table (reported_name reported) in
      (
        record m {
          table = table;
          pending_logins = remove ℕ_discrete login_generation m.pending_logins;
        },
        reported,
        existing,
        effects,
      )

  -- The connection that the session had is forgotten.
  unfoldable pub handoff_release :
      Manager Key Ip Text
      → RunningSession Key Ip Text
      → Manager Key Ip Text × List (Effect Key Ip Text)
  unfolding forget
  handoff_release m session = (
    record m { control_registry = forget text_discrete m.control_registry session.origin.rikey },
    drain_pending session.origin.ping_token ∷ [],
  )

  -- `reconcile_video_pipeline`: with the direct encoder the session has the size that the compositor has
  -- after it was asked to resize.
  unfoldable pub reconcile_video_pipeline :
      Bool → ℕ → ℕ → RunningSession Key Ip Text → RunningSession Key Ip Text
  reconcile_video_pipeline direct width height session =
      if direct then record session { width = width; height = height } else session

  -- A session that goes on, for the login's connection and with what the user chose.
  unfoldable pub resumed :
      Bool
      → ℕ
      → ℕ
      → SessionOrigin Key Ip
      → Option PendingLoginResult
      → RunningSession Key Ip Text
      → RunningSession Key Ip Text
  unfolding reconcile_video_pipeline
  resumed direct width height origin reported session =
      record (reconcile_video_pipeline direct width height session) {
        origin = origin;
        selected_session = reported_session reported;
      }

  -- `spawn_user_compositor` counts a session of the broker, if there is one.
  unfoldable pub handoff_spawn :
      SessionConfig → SessionManager Key Ip → SessionManager Key Ip × Option ℕ
  handoff_spawn config m =
      if config.has_broker
      then (
        record m { next_broker_session_id = (m.next_broker_session_id + 1) % 2 ^ 64 },
        some m.next_broker_session_id,
      )
      else (m, none)

  -- Once the compositor is there, the session has a generation of its own.
  unfoldable pub handoff_spawned :
      Manager Key Ip Text
      → Bool
      → ℕ
      → ℕ
      → Option ℕ
      → SessionOrigin Key Ip
      → Option PendingLoginResult
      → Manager Key Ip Text × RunningSession Key Ip Text
  handoff_spawned m has_gamepad width height broker_session_id origin reported = (
    record m { next_generation = (m.next_generation + 1) % 2 ^ 64 },
    record {
      kind = user (reported_name reported);
      width = width;
      height = height;
      generation = m.next_generation;
      has_gamepad = has_gamepad;
      origin = origin;
      active_touch_ids = [];
      broker_session_id = broker_session_id;
      selected_session = reported_session reported;
    },
  )

  unfoldable pub watch_of : RunningSession Key Ip Text → Bool → SessionType Text → Watch Key
  watch_of session true kind = no_watch
  watch_of session false login = watch_login_exit session.origin.client_key
  watch_of session false (user username) = watch_user_session_exit username

  -- The slot of the session's client, whatever it is by now, is replaced.
  unfoldable pub start_streaming :
      Manager Key Ip Text
      → RunningSession Key Ip Text
      → Bool
      → Option ℕ
      → Option ℕ
      → Manager Key Ip Text × Watch Key
  unfolding insert remove watch_of
  start_streaming m session is_resume video_wait_task audio_wait_task = (
    record m {
      clients =
          insert key_dec session.origin.client_key
            (record {
              state = streaming session;
              video_wait_task = video_wait_task;
              audio_wait_task = audio_wait_task;
            })
            m.clients;
    },
    watch_of session is_resume session.kind,
  )
