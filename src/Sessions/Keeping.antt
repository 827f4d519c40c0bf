-- ===== src/Sessions/Keeping.antt =====
-- What becomes of the session that a `/cancel` or a `/launch` takes.
use redfog.Base.{
  ℕ, ◌≡◌, refl, sym, ap, ◌∙◌, subst, Option, none, some, List, [], get, get-insert_self,
  get-remove_self,
}
use redfog.Sessions.State.{
  SessionType, user, RunningSession, ClientSlot, Manager, Effect, session_of, spawning_slot,
}
use redfog.Sessions.Attach.{
  take_active_session, background_or_discard, settle, cancel, launch_claim, launch_begin,
}
use redfog.Sessions.Isolation.{settle-clients}

module _ {Key Ip User : Type 0} (key_dec : Discrete Key) (user_dec : Discrete User)
    (dec : Discrete (List ℕ)) where
  abbrev pub released : RunningSession Key Ip User → RunningSession Key Ip User
  released session = record session { active_touch_ids = [] }

  background_user :
      (m : Manager Key Ip User) (session : RunningSession Key Ip User) (kind : SessionType User)
      (username : User)
      → kind ≡ user username
      → get user_dec username
          (background_or_discard key_dec user_dec dec m session kind).0.background_sessions
        ≡ some (released session)
  background_user m session kind username h =
      subst
        (λ (k : SessionType User).
          get user_dec username
            (background_or_discard key_dec user_dec dec m session k).0.background_sessions
          ≡ some (released session))
        (sym h) (stored m session username)
    where
      stored :
          (m : Manager Key Ip User) (session : RunningSession Key Ip User) (username : User)
          → get user_dec username
              (background_or_discard key_dec user_dec dec m session
                (user username)).0.background_sessions
            ≡ some (released session)
      stored m session username =
          unfold background_or_discard in
          get-insert_self user_dec username (released session) m.background_sessions

  taken_lem :
      (m : Manager Key Ip User) (key : Key) (slot : ClientSlot Key Ip User)
      → get key_dec key m.clients ≡ some slot
      → ((take_active_session key_dec user_dec dec m key).1 ≡ session_of slot.state)
        × (get key_dec key (take_active_session key_dec user_dec dec m key).0.clients ≡ none)
  unfolding take_active_session
  taken_lem m key slot e = (
    rw (e, take_active_session) refl,
    rw (e, take_active_session) (get-remove_self key_dec key m.clients),
  )

  -- The effects of `settle` on the background sessions.
  settle-background :
      (m : Manager Key Ip User) (taken : Option (RunningSession Key Ip User))
      (session : RunningSession Key Ip User) (username : User)
      → taken ≡ some session
      → session.kind ≡ user username
      → get user_dec username (settle key_dec user_dec dec m taken).0.background_sessions
        ≡ some (released session)
  unfolding settle
  settle-background m taken session username e h =
      rw e (background_user _ session session.kind username h)

  -- A user's session is never lost when its client cancels, or launches anew: it waits in the
  -- background under the user's name, the same session with its touches lifted. The client's slot is
  -- free after a cancel, and claimed after the start of a launch.
  pub user_session_kept :
      (m : Manager Key Ip User) (key : Key) (slot : ClientSlot Key Ip User)
      (session : RunningSession Key Ip User) (username : User)
      → get key_dec key m.clients ≡ some slot
      → session_of slot.state ≡ some session
      → session.kind ≡ user username
      → let cancelled = (cancel key_dec user_dec dec m key).0 in
        let begun = (launch_begin key_dec user_dec dec m key).0 in
        (get user_dec username cancelled.background_sessions ≡ some (released session))
        × (get key_dec key cancelled.clients ≡ none)
        × (get user_dec username begun.background_sessions ≡ some (released session))
        × (get key_dec key begun.clients ≡ some spawning_slot)
  unfolding cancel launch_begin launch_claim
  user_session_kept m key slot session username e attached kind =
      let (taken, gone) = taken_lem m key slot e in
      let claim : Manager Key Ip User
          × Option (RunningSession Key Ip User)
          × List (Effect Key Ip User) =
        launch_claim key_dec user_dec dec m key in
      let mid : Manager Key Ip User = (take_active_session key_dec user_dec dec m key).0 in
      (
        settle-background _ _ session username (taken ∙ attached) kind,
        ap (get key_dec key) (settle-clients key_dec user_dec dec _ _) ∙ gone,
        settle-background _ _ session username (taken ∙ attached) kind,
        ap (get key_dec key) (settle-clients key_dec user_dec dec claim.0 claim.1)
            ∙ get-insert_self key_dec key spawning_slot mid.clients,
      )
