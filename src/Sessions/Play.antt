-- ===== src/Sessions/Play.antt =====
-- crates/redfog-moonlight/src/session.rs: `on_play`, in steps that end where the lock is released. The
-- streams of a first PLAY are started by `start_streaming`.
use redfog.Base.{
  ℕ, if◌then◌else◌, Bool, true, false, Option, none, some, List, ◌∷◌, ◌++◌, get, insert, remove,
}
use redfog.Sessions.State.{
  RunningSession, ClientState, spawning, launched, streaming, ClientSlot, Manager, Effect,
  drain_pending,
}
use redfog.Sessions.Attach.{aborted}
use redfog.Sessions.Lookup.{resolve_client_key_by_ip}

-- `PlayKind`.
pub data PlayKind (Key Ip User : Type 0) : Type 0 where
  first_play : RunningSession Key Ip User → PlayKind Key Ip User
  retake : RunningSession Key Ip User → PlayKind Key Ip User

-- What a stretch of `on_play` under the lock ends with: a return, with the table as it then is, the wait
-- for a spawn of a client, or a session that was taken out, with the wait tasks of its slot.
pub data PlayStart (Key Ip User : Type 0) : Type 0 where
  returns : Manager Key Ip User → PlayStart Key Ip User
  waits : Key → PlayStart Key Ip User
  plays : Manager Key Ip User → PlayKind Key Ip User → Option ℕ → Option ℕ → PlayStart Key Ip User

module _ {Key Ip User : Type 0} (key_dec : Discrete Key) where
  unfoldable pub is_spawning : Option (ClientSlot Key Ip User) → Bool
  is_spawning none = false
  is_spawning (some slot) = elim slot.state [
    | spawning ↦ true
    | launched session ↦ false
    | streaming session ↦ false
  ]

  unfoldable pub play_state :
      Manager Key Ip User → ClientSlot Key Ip User → ClientState Key Ip User → PlayStart Key Ip User
  play_state m slot spawning = returns m
  play_state m slot (launched session) =
      plays m (first_play session) slot.video_wait_task slot.audio_wait_task
  play_state m slot (streaming session) =
      plays m (retake session) slot.video_wait_task slot.audio_wait_task

  -- The slot is removed, not replaced by a spawning one.
  unfoldable pub play_take : Manager Key Ip User → Key → PlayStart Key Ip User
  unfolding get remove play_state
  play_take m key = elim (get key_dec key m.clients) [
    | none ↦ returns m
    | some slot ↦ play_state (record m { clients = remove key_dec key m.clients }) slot slot.state
  ]

  unfoldable pub play_begin : Discrete Ip → Manager Key Ip User → Ip → PlayStart Key Ip User
  unfolding resolve_client_key_by_ip get is_spawning play_take
  play_begin ip_dec m ip = elim (resolve_client_key_by_ip ip_dec m ip) [
    | none ↦ returns m
    | some key ↦ if is_spawning (get key_dec key m.clients) then waits key else play_take m key
  ]

  -- After the wait, with the table of that moment: the client still spawns after 15 seconds, or not.
  unfoldable pub play_resume : Manager Key Ip User → Key → PlayStart Key Ip User
  unfolding get is_spawning play_take
  play_resume m key = if is_spawning (get key_dec key m.clients) then returns m else play_take m key

  -- The rest, in a task of its own, for a session that was streaming, with its new wait tasks.
  unfoldable pub play_retake :
      Manager Key Ip User
      → RunningSession Key Ip User
      → Option ℕ
      → Option ℕ
      → ℕ
      → ℕ
      → Manager Key Ip User × List (Effect Key Ip User)
  unfolding insert remove
  play_retake m session old_video_wait old_audio_wait video_wait_task audio_wait_task = (
    record m {
      clients =
          insert key_dec session.origin.client_key
            (record {
              state = streaming session;
              video_wait_task = some video_wait_task;
              audio_wait_task = some audio_wait_task;
            })
            m.clients;
    },
    drain_pending session.origin.ping_token ∷ aborted old_video_wait ++ aborted old_audio_wait,
  )
