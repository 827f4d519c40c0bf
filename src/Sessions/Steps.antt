-- ===== src/Sessions/Steps.antt =====
-- crates/redfog-moonlight/src/session.rs: requests, tasks and watches of all clients as one step relation.
-- A step is what happens under one lock: of the clients, of the background sessions, of the control
-- registry, or the count of a generation. What a task has taken and not yet put down is held meanwhile.
-- Handlers that only change a session's own record are no steps.
use redfog.Base.{
  ℕ, ◌+◌, ◌^◌, ◌<◌, ◌==◌, ◌≡◌, Bool, true, false, Option, none, some, List, [], ◌∷◌, get, remove,
  if◌then◌else◌,
}
use redfog.Base.Text.{Text, text_discrete}
use redfog.Control.Registry.{new_registry, register, forget}
use redfog.Sessions.State.{RunningSession, Manager, Effect}
use redfog.Sessions.Attach.{
  take_active_session, take_active_session_by_username, background_or_discard, launch_claim,
  launch_count, launch_end, launch_join, joined,
}
use redfog.Sessions.Play.{PlayKind, first_play, retake, plays, play_take, play_retake}
use redfog.Sessions.Report.{PendingLoginResult}
use redfog.Sessions.Handoff.{handoff_begin, handoff_spawned, start_streaming}
use redfog.Sessions.State.{SessionOrigin}

-- `generation_is_backgrounded`.
unfoldable pub generation_is_backgrounded :
    {Key Ip User : Type 0} → List (User × RunningSession Key Ip User) → ℕ → Bool
generation_is_backgrounded [] generation = false
generation_is_backgrounded ((username, session) ∷ more) generation =
    if session.generation == generation then true else generation_is_backgrounded more generation

-- The second list is the first one without one occurrence of the number.
pub data Picks (g : ℕ) : List ℕ → List ℕ → Type 0 where
  here : {gs : List ℕ} → Picks g (g ∷ gs) gs
  later : {h : ℕ} {gs hs : List ℕ} → Picks g gs hs → Picks g (h ∷ gs) (h ∷ hs)

abbrev pub session_in : {Key Ip User : Type 0} → PlayKind Key Ip User → RunningSession Key Ip User
session_in (first_play session) = session
session_in (retake session) = session

module _ (Key Ip : Type 0) where
  -- The table, and the generations of the sessions that tasks hold or are making.
  pub record System : Type 0 where
    pub table : Manager Key Ip Text
    pub held : List ℕ

module _ {Key Ip : Type 0} (key_dec : Discrete Key) where
  abbrev pub holds : Option (RunningSession Key Ip Text) → List ℕ → List ℕ
  holds none gs = gs
  holds (some session) gs = session.generation ∷ gs

  abbrev pub after_take :
      System Key Ip
      → Manager Key Ip Text × Option (RunningSession Key Ip Text) × List (Effect Key Ip Text)
      → System Key Ip
  after_take s (table, existing, effects) = record { table = table; held = holds existing s.held }

  abbrev pub initial : System Key Ip
  initial = record {
    table = record {
      clients = [];
      background_sessions = [];
      control_registry = new_registry;
      next_generation = 0;
    };
    held = [];
  }

  -- `background_sessions.lock().remove(username)`.
  abbrev pub take_background :
      Manager Key Ip Text
      → Text
      → Manager Key Ip Text × Option (RunningSession Key Ip Text) × List (Effect Key Ip Text)
  take_background m username = (
    record m { background_sessions = remove text_discrete username m.background_sessions },
    get text_discrete username m.background_sessions,
    [],
  )

  -- A table with another one's control registry, which has a lock of its own.
  abbrev pub registered_as : Manager Key Ip Text → Manager Key Ip Text → Manager Key Ip Text
  registered_as m old = record m { control_registry = old.control_registry }

  pub data Step (s : System Key Ip) : System Key Ip → Type 0 where
    -- `/cancel`, and the watch of a session that died.
    takes :
        (key : Key)
        → Step s
            (after_take s (take_active_session key_dec text_discrete text_discrete s.table key))
    -- The handoff and the log out, of a session that is attached.
    takes_by_username :
        (username : Text)
        → Step s (
            after_take s (
              take_active_session_by_username key_dec text_discrete text_discrete s.table username))
    -- The handoff, the log out and the watch, of a session in the background.
    takes_background : (username : Text) → Step s (after_take s (take_background s.table username))
    registers :
        (rikey : List ℕ)
        → Step s (record s {
          table = record (s.table) {
            control_registry = register text_discrete s.table.control_registry rikey;
          };
        })
    forgets :
        (rikey : List ℕ)
        → Step s (record s {
          table = record (s.table) {
            control_registry = forget text_discrete s.table.control_registry rikey;
          };
        })
    backgrounds :
        (session : RunningSession Key Ip Text) (rest : List ℕ)
        → Picks session.generation s.held rest
        → Step s (record {
          table =
              (background_or_discard key_dec text_discrete text_discrete s.table session
                session.kind).0;
          held = rest;
        })
    -- A session that was taken is ended, or its spawn has failed.
    drops : (g : ℕ) (rest : List ℕ) → Picks g s.held rest → Step s (record s { held = rest })
    launch_claims :
        (key : Key)
        → Step s (after_take s (launch_claim key_dec text_discrete text_discrete s.table key))
    launch_counts :
        s.table.next_generation + 1 < 2 ^ 64
        → Step s (record {
          table = (launch_count key_dec text_discrete text_discrete s.table).0;
          held = (launch_count key_dec text_discrete text_discrete s.table).1 ∷ s.held;
        })
    launch_ends :
        (key : Key) (session : RunningSession Key Ip Text) (rest : List ℕ)
        → Picks session.generation s.held rest
        → Step s (record {
          table =
              registered_as
                (launch_end key_dec text_discrete text_discrete s.table key (some session))
                s.table;
          held = rest;
        })
    launch_fails :
        (key : Key)
        → Step s
            (record s { table = launch_end key_dec text_discrete text_discrete s.table key none })
    launch_joins :
        (key : Key) (rikey : List ℕ) (key_id : ℕ) (m : Manager Key Ip Text)
        → launch_join key_dec text_discrete text_discrete s.table key rikey key_id ≡ joined m
        → Step s (record s { table = registered_as m s.table })
    play_takes :
        (key : Key) (m : Manager Key Ip Text) (kind : PlayKind Key Ip Text) (video audio : Option ℕ)
        → play_take key_dec s.table key ≡ plays m kind video audio
        → Step s (record { table = m; held = (session_in kind).generation ∷ s.held })
    play_retakes :
        (session : RunningSession Key Ip Text) (rest : List ℕ) (old_video old_audio : Option ℕ)
        (video audio : ℕ)
        → Picks session.generation s.held rest
        → Step s (record {
          table = (play_retake key_dec s.table session old_video old_audio video audio).0;
          held = rest;
        })
    handoff_begins :
        (key : Key) → Step s (record s { table = (handoff_begin key_dec s.table key).0 })
    handoff_spawns :
        (has_gamepad : Bool) (width height : ℕ) (id : Option ℕ) (origin : SessionOrigin Key Ip)
        (reported : Option PendingLoginResult)
        → s.table.next_generation + 1 < 2 ^ 64
        → Step s (record {
          table = (handoff_spawned key_dec s.table has_gamepad width height id origin reported).0;
          held = s.table.next_generation ∷ s.held;
        })
    streams :
        (session : RunningSession Key Ip Text) (rest : List ℕ) (is_resume : Bool)
        (video audio : Option ℕ)
        → Picks session.generation s.held rest
        → Step s (record {
          table = (start_streaming key_dec s.table session is_resume video audio).0;
          held = rest;
        })

  pub data Reach : System Key Ip → Type 0 where
    start : Reach initial
    next : {s t : System Key Ip} → Reach s → Step s t → Reach t
