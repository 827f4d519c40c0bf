-- ===== src/Sessions/Resuming.antt =====
-- What becomes of a user's session that a login goes back to.
use redfog.Base.{
  ℕ, ◌≡◌, ◌≢◌, refl, ◌∙◌, subst, Bool, true, false, none, some, [], get, remove, get-insert_eq,
  get-insert_ne, get-remove_self, get-remove_ne, ℕ_discrete,
}
use redfog.Base.Text.{Text, text_discrete}
use redfog.Sessions.State.{RunningSession, ClientSlot, Manager, streaming}
use redfog.Sessions.Report.{SessionConfig, PendingLoginResult, SessionManager}
use redfog.Sessions.Handoff.{
  streaming_session, handoff_begin, take_existing, handoff_claim, handoff_release, resumed,
  reconcile_video_pipeline, start_streaming,
}

module _ {Key Ip : Type 0} (key_dec : Discrete Key) where
  pub handoff_begin_lem :
      (m : Manager Key Ip Text) (key : Key) (slot : ClientSlot Key Ip Text)
      (session : RunningSession Key Ip Text)
      → get key_dec key m.clients ≡ some slot
      → slot.state ≡ streaming session
      → handoff_begin key_dec m key
        ≡ (record m { clients = remove key_dec key m.clients }, some session)
  unfolding handoff_begin streaming_session
  handoff_begin_lem m key slot session found e =
      rw (found, handoff_begin, e, streaming_session) refl

  pub take_existing_lem :
      (config : SessionConfig) (m : Manager Key Ip Text) (username : Text)
      (session : RunningSession Key Ip Text)
      → get text_discrete username m.background_sessions ≡ some session
      → take_existing key_dec config m username ≡ (
        record m { background_sessions = remove text_discrete username m.background_sessions },
        some session,
        [],
      )
  unfolding take_existing
  take_existing_lem config m username session found = rw (found, take_existing) refl

  handoff_claim_lem :
      (config : SessionConfig) (m : SessionManager Key Ip) (generation : ℕ)
      (reported : PendingLoginResult) (session : RunningSession Key Ip Text)
      → get ℕ_discrete generation m.pending_logins ≡ some reported
      → get text_discrete reported.username m.table.background_sessions ≡ some session
      → handoff_claim key_dec config m generation ≡ (
        record m {
          table = record (m.table) {
            background_sessions =
                remove text_discrete reported.username m.table.background_sessions;
          };
          pending_logins = remove ℕ_discrete generation m.pending_logins;
        },
        some reported,
        some session,
        [],
      )
  unfolding handoff_claim
  handoff_claim_lem config m generation reported session r found =
      rw (r, handoff_claim, take_existing_lem config m.table reported.username session found) refl

  reconcile-kept :
      (direct : Bool) (width height : ℕ) (session : RunningSession Key Ip Text)
      → ((reconcile_video_pipeline key_dec direct width height session).generation
          ≡ session.generation)
        × ((reconcile_video_pipeline key_dec direct width height session).kind ≡ session.kind)
        × ((reconcile_video_pipeline key_dec direct width height session).broker_session_id
            ≡ session.broker_session_id)
  unfolding reconcile_video_pipeline
  reconcile-kept true width height session = (refl, refl, refl)
  reconcile-kept false width height session = (refl, refl, refl)

  -- The session that a resume leaves streaming.
  abbrev pub streaming_slot : RunningSession Key Ip Text → ClientSlot Key Ip Text
  streaming_slot session = record {
    state = streaming session;
    video_wait_task = none;
    audio_wait_task = none;
  }

  -- A login that streams to a client ends, after a user was reported for its generation who has a
  -- session in the background. Then the login is taken out, and the client has the user's own session:
  -- of the same generation, kind and broker session, for the login's connection, and with what the user
  -- chose. The session is in the background no more, the report is used up, and the slot of another
  -- client is as before.
  pub handoff_resumes :
      (config : SessionConfig) (m : SessionManager Key Ip) (key other : Key)
      (slot : ClientSlot Key Ip Text) (old session : RunningSession Key Ip Text)
      (reported : PendingLoginResult) (direct : Bool) (width height : ℕ)
      → get key_dec key m.table.clients ≡ some slot
      → slot.state ≡ streaming old
      → old.origin.client_key ≡ key
      → key ≢ other
      → get ℕ_discrete old.generation m.pending_logins ≡ some reported
      → get text_discrete reported.username m.table.background_sessions ≡ some session
      → let (begun, taken) = handoff_begin key_dec m.table key in
        let (claimed, report, existing, aborts) =
          handoff_claim key_dec config (record m { table = begun }) old.generation in
        let (freed, drains) = handoff_release key_dec claimed.table session in
        let goes_on = resumed key_dec direct width height old.origin report session in
        let (table, watch) = start_streaming key_dec freed goes_on true none none in
        (taken ≡ some old)
        × (report ≡ some reported)
        × (existing ≡ some session)
        × (get key_dec key table.clients ≡ some (streaming_slot goes_on))
        × (goes_on.generation ≡ session.generation)
        × (goes_on.kind ≡ session.kind)
        × (goes_on.broker_session_id ≡ session.broker_session_id)
        × (goes_on.origin ≡ old.origin)
        × (goes_on.selected_session ≡ reported.selected)
        × (get text_discrete reported.username table.background_sessions ≡ none)
        × (get ℕ_discrete old.generation claimed.pending_logins ≡ none)
        × (get key_dec other table.clients ≡ get key_dec other m.table.clients)
  unfolding handoff_release resumed start_streaming
  handoff_resumes config m key other slot old session reported direct width height at e own ne r b =
      rw
        (
          handoff_begin_lem m.table key slot old at e,
          handoff_claim_lem config
              (record m {
                table = record (m.table) { clients = remove key_dec key m.table.clients };
              })
              old.generation reported session r b,
        )
        (
          refl,
          refl,
          refl,
          get-insert_eq key_dec old.origin.client_key key _ _ own,
          (reconcile-kept direct width height session).0,
          (reconcile-kept direct width height session).1,
          (reconcile-kept direct width height session).2,
          refl,
          refl,
          get-remove_self text_discrete reported.username m.table.background_sessions,
          get-remove_self ℕ_discrete old.generation m.pending_logins,
          get-insert_ne key_dec old.origin.client_key other _ _
                (λ p. ne (subst (λ (k : Key). k ≡ other) own p))
              ∙ get-remove_ne key_dec key other m.table.clients ne,
        )
