-- ===== src/Sessions/Watch.antt =====
-- crates/redfog-moonlight/src/session.rs: one round of `watch_login_exit` and of
-- `watch_user_session_exit`. What a compositor's process and the broker say are arguments.
use redfog.Base.{
  Bool, true, false, Option, none, some, List, [], ◌∷◌, ◌++◌, get, remove, if◌then◌else◌,
}
use redfog.Base.Text.{Text, text_discrete}
use redfog.Control.Registry.{forget}
use redfog.Sessions.State.{
  SessionType, user, login, RunningSession, Manager, Effect, drain_pending, discard,
}
use redfog.Sessions.Attach.{is_user, take_active_session, cancel}
use redfog.Sessions.Handoff.{streaming_session}
use redfog.Sessions.Lookup.{find_client}
use redfog.Sessions.Report.{BrokerReply, unreachable, unexpected, refused, replied}

pub data LoginWatch (Key Ip : Type 0) : Type 0 where
  login_goes_on : LoginWatch Key Ip
  login_gone : LoginWatch Key Ip
  hands_off : LoginWatch Key Ip
  resets : Manager Key Ip Text → List (Effect Key Ip Text) → LoginWatch Key Ip

-- Where a user's session was found, with what its own process says.
pub data Location (Key Ip : Type 0) : Type 0 where
  active : Key → RunningSession Key Ip Text → Location Key Ip
  backgrounded : RunningSession Key Ip Text → Location Key Ip
  nowhere : Location Key Ip

pub data UserWatch (Key Ip : Type 0) : Type 0 where
  user_goes_on : UserWatch Key Ip
  user_gone : UserWatch Key Ip
  user_died : Location Key Ip → UserWatch Key Ip

abbrev pub is_login : SessionType Text → Bool
is_login login = true
is_login (user username) = false

module _ {Key Ip : Type 0} (key_dec : Discrete Key) where
  -- The status is none while the login compositor runs, and else says whether it exited with success.
  unfoldable pub login_status : Manager Key Ip Text → Key → Option Bool → LoginWatch Key Ip
  unfolding cancel
  login_status m key none = login_goes_on
  login_status m key (some true) = hands_off
  login_status m key (some false) =
      let (m', effects) = cancel key_dec text_discrete text_discrete m key in resets m' effects

  unfoldable pub watch_login_tick : Manager Key Ip Text → Key → Option Bool → LoginWatch Key Ip
  unfolding get streaming_session login_status
  watch_login_tick m key status = elim (get key_dec key m.clients) [
    | none ↦ login_gone
    | some slot ↦ elim (streaming_session key_dec slot.state) [
      | none ↦ login_gone
      | some session ↦ if is_login session.kind then login_status m key status else login_gone
    ]
  ]

  -- The first client with the user's session, if it streams.
  unfoldable pub locate_active :
      Manager Key Ip Text → Text → Option (Key × RunningSession Key Ip Text)
  unfolding get find_client streaming_session
  locate_active m username =
      elim (find_client (λ s. is_user text_discrete username s.kind) m.clients) [
        | none ↦ none
        | some (key, found) ↦ elim (get key_dec key m.clients) [
          | none ↦ none
          | some slot ↦ elim (streaming_session key_dec slot.state) [
            | none ↦ none
            | some session ↦ some (key, session)
          ]
        ]
      ]

  unfoldable pub locate : Manager Key Ip Text → Text → Location Key Ip
  unfolding get locate_active
  locate m username = elim (locate_active m username) [
    | some (key, session) ↦ active key session
    | none ↦ elim (get text_discrete username m.background_sessions) [
      | none ↦ nowhere
      | some session ↦ backgrounded session
    ]
  ]

  -- A session whose process is gone is dead; else the broker says, if it can, whether it lives.
  unfoldable pub is_dead : RunningSession Key Ip Text → Bool → BrokerReply Bool → Bool
  is_dead session true reply = true
  is_dead session false reply = elim session.broker_session_id [
    | none ↦ false
    | some id ↦ elim reply [
      | unreachable ↦ false
      | unexpected ↦ false
      | refused e ↦ false
      | replied alive ↦ if alive then false else true
    ]
  ]

  unfoldable pub user_status : Location Key Ip → Bool → BrokerReply Bool → UserWatch Key Ip
  unfolding is_dead
  user_status (active key session) exited reply =
      if is_dead session exited reply then user_died (active key session) else user_goes_on
  user_status (backgrounded session) exited reply =
      if is_dead session exited reply then user_died (backgrounded session) else user_goes_on
  user_status nowhere exited reply = user_gone

  unfoldable pub watch_user_tick :
      Manager Key Ip Text → Text → Bool → BrokerReply Bool → UserWatch Key Ip
  unfolding locate user_status
  watch_user_tick m username exited reply = user_status (locate m username) exited reply

  -- What the watch does about a dead session, under a later lock.
  unfoldable pub reap :
      Manager Key Ip Text → Text → Location Key Ip → Manager Key Ip Text × List (Effect Key Ip Text)
  unfolding get remove take_active_session forget
  reap m username nowhere = (m, [])
  reap m username (active key session) =
      let (m', taken, aborts) = take_active_session key_dec text_discrete text_discrete m key in
      elim taken [
        | none ↦ (m', aborts)
        | some s ↦ (
          record m' { control_registry = forget text_discrete m'.control_registry s.origin.rikey },
          aborts ++ drain_pending s.origin.ping_token ∷ discard s ∷ [],
        )
      ]
  reap m username (backgrounded session) = elim (get text_discrete username m.background_sessions) [
    | none ↦ (m, [])
    | some s ↦ (
      record m { background_sessions = remove text_discrete username m.background_sessions },
      discard s ∷ [],
    )
  ]
