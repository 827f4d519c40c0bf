-- ===== src/Sessions/Attach.antt =====
-- crates/redfog-moonlight/src/session.rs: `/launch` and `/cancel`, one step for each stretch under the
-- lock and for what follows it.
use redfog.Base.{
  ℕ, ◌+◌, ◌%◌, ◌^◌, Bool, true, false, Option, none, some, List, [], ◌∷◌, ◌++◌, get, insert, remove,
}
use redfog.Control.Registry.{register, forget}
use redfog.Sessions.Lookup.{find_client}
use redfog.Base.{ite, Bool, true, false}
use redfog.Sessions.State.{
  SessionType, user, login, SessionOrigin, RunningSession, ClientState, spawning, launched,
  streaming, ClientSlot, Manager, Effect, abort, drain_pending, lift_touches, discard, session_of,
  spawning_slot,
}

abbrev pub aborted : {Key Ip User : Type 0} → Option ℕ → List (Effect Key Ip User)
aborted none = []
aborted (some task) = abort task ∷ []

abbrev pub is_user : {User : Type 0} → Discrete User → User → SessionType User → Bool
is_user user_dec username login = false
is_user user_dec username (user u) = ite (user_dec u username) true false

-- How a `launch` that waited for another one's spawn goes on: with an error, with the session that the
-- spawn made, or as if it had not waited.
pub data Joined (Key Ip User : Type 0) : Type 0 where
  timed_out : Joined Key Ip User
  joined : Manager Key Ip User → Joined Key Ip User
  starts_over : Joined Key Ip User

module _ {Key Ip User : Type 0} (key_dec : Discrete Key) (user_dec : Discrete User)
    (dec : Discrete (List ℕ)) where
  -- `take_active_session`: the session that was attached, if any.
  unfoldable pub take_active_session :
      Manager Key Ip User
      → Key
      → Manager Key Ip User × Option (RunningSession Key Ip User) × List (Effect Key Ip User)
  unfolding get remove session_of
  take_active_session m key = elim (get key_dec key m.clients) [
    | none ↦ (m, none, [])
    | some slot ↦ (
      record m { clients = remove key_dec key m.clients },
      session_of slot.state,
      aborted slot.video_wait_task ++ aborted slot.audio_wait_task,
    )
  ]

  -- `take_active_session_by_username`: of the first client attached as the user.
  unfoldable pub take_active_session_by_username :
      Manager Key Ip User
      → User
      → Manager Key Ip User × Option (RunningSession Key Ip User) × List (Effect Key Ip User)
  unfolding find_client take_active_session
  take_active_session_by_username m username =
      elim (find_client (λ s. is_user user_dec username s.kind) m.clients) [
        | none ↦ (m, none, [])
        | some (key, session) ↦ take_active_session m key
      ]

  unfoldable pub background_or_discard :
      Manager Key Ip User
      → RunningSession Key Ip User
      → SessionType User
      → Manager Key Ip User × List (Effect Key Ip User)
  unfolding insert remove
  background_or_discard m session (user username) = (
    record m {
      background_sessions =
          insert user_dec username (record session { active_touch_ids = [] }) m.background_sessions;
    },
    lift_touches session.active_touch_ids ∷ [],
  )
  background_or_discard m session login = (m, discard session ∷ [])

  -- What `launch` and `cancel` do with a taken session, once the lock is released.
  unfoldable pub settle :
      Manager Key Ip User
      → Option (RunningSession Key Ip User)
      → Manager Key Ip User × List (Effect Key Ip User)
  unfolding forget background_or_discard
  settle m none = (m, [])
  settle m (some session) =
      let m' : Manager Key Ip User = record m {
        control_registry = forget dec m.control_registry session.origin.rikey;
      } in
      let (m'', effects) = background_or_discard m' session session.kind in
      (m'', drain_pending session.origin.ping_token ∷ effects)

  -- All of `cancel`, with nothing in between.
  unfoldable pub cancel :
      Manager Key Ip User → Key → Manager Key Ip User × List (Effect Key Ip User)
  unfolding take_active_session settle
  cancel m key =
      let (m', taken, aborts) = take_active_session m key in
      let (m'', effects) = settle m' taken in (m'', aborts ++ effects)

  -- The first stretch of `launch` under the lock, unless a spawn is in flight: whatever was attached
  -- is taken, and the slot is claimed.
  unfoldable pub launch_claim :
      Manager Key Ip User
      → Key
      → Manager Key Ip User × Option (RunningSession Key Ip User) × List (Effect Key Ip User)
  unfolding take_active_session insert remove spawning_slot
  launch_claim m key =
      let (m', taken, aborts) = take_active_session m key in
      (record m' { clients = insert key_dec key spawning_slot m'.clients }, taken, aborts)

  -- `next_generation.fetch_add(1)`.
  unfoldable pub launch_count : Manager Key Ip User → Manager Key Ip User × ℕ
  launch_count m =
      (record m { next_generation = (m.next_generation + 1) % 2 ^ 64 }, m.next_generation)

  -- Claim, settle, and count a generation: all of `launch` before the spawn, with nothing in between.
  unfoldable pub launch_begin :
      Manager Key Ip User → Key → Manager Key Ip User × ℕ × List (Effect Key Ip User)
  unfolding launch_claim settle launch_count
  launch_begin m key =
      let (m', taken, aborts) = launch_claim m key in
      let (m'', effects) = settle m' taken in
      let (counted, generation) = launch_count m'' in (counted, generation, aborts ++ effects)

  -- The rest of `launch`, for what the spawn gave: a login session, or a failure.
  unfoldable pub launch_end :
      Manager Key Ip User → Key → Option (RunningSession Key Ip User) → Manager Key Ip User
  unfolding insert remove register
  launch_end m key none = record m { clients = remove key_dec key m.clients }
  launch_end m key (some session) = record m {
    clients =
        insert key_dec key
          (record { state = launched session; video_wait_task = none; audio_wait_task = none })
          m.clients;
    control_registry = register dec m.control_registry session.origin.rikey;
  }

  -- What the spawn makes of the generation and the request.
  unfoldable pub login_session :
      ℕ → ℕ → Bool → ℕ → SessionOrigin Key Ip → RunningSession Key Ip User
  login_session width height has_gamepad generation origin = record {
    kind = login;
    width = width;
    height = height;
    generation = generation;
    has_gamepad = has_gamepad;
    origin = origin;
    active_touch_ids = [];
    broker_session_id = none;
    selected_session = none;
  }

  abbrev pub rekeyed : List ℕ → ℕ → RunningSession Key Ip User → RunningSession Key Ip User
  rekeyed rikey key_id session = record session {
    origin = record (session.origin) { rikey = rikey; rikey_key_id = key_id };
  }

  unfoldable pub join_slot :
      Manager Key Ip User
      → Key
      → List ℕ
      → ℕ
      → ClientSlot Key Ip User
      → ClientState Key Ip User
      → Joined Key Ip User
  unfolding insert remove register
  join_slot m key rikey key_id slot spawning = timed_out
  join_slot m key rikey key_id slot (launched session) = joined (record m {
    clients =
        insert key_dec key (record slot { state = launched (rekeyed rikey key_id session) })
          m.clients;
    control_registry = register dec m.control_registry rikey;
  })
  join_slot m key rikey key_id slot (streaming session) = joined (record m {
    clients =
        insert key_dec key (record slot { state = streaming (rekeyed rikey key_id session) })
          m.clients;
    control_registry = register dec m.control_registry rikey;
  })

  -- A `launch` that has waited for the spawn of an earlier one.
  unfoldable pub launch_join : Manager Key Ip User → Key → List ℕ → ℕ → Joined Key Ip User
  unfolding get join_slot
  launch_join m key rikey key_id = elim (get key_dec key m.clients) [
    | none ↦ starts_over
    | some slot ↦ join_slot m key rikey key_id slot slot.state
  ]
