-- ===== src/Broker/Requests.antt =====
-- crates/redfog-broker/src/session.rs: the requests of all connections, interleaved at the lock of the map.
use redfog.Base.{Option, map, ◌≡◌, Bool, none, some, List, [], ◌∷◌, get, insert, if◌then◌else◌}
use redfog.Base.Text.{Text, text_discrete}
use redfog.Broker.Active.{
  ActiveSession, pam, Deed, Active, Told, terminate, Peek, alive, dead_child, needs_loginctl_check,
  unknown, peek, checked, spawned,
}

-- What one run of `terminate` that found a session was told, and did.
abbrev pub Run : Type 0
Run = Text × Told × List Deed

-- The map, with what was ever spawned, the ids of sessions that were found dead, and the runs of `terminate`.
pub record System : Type 0 where
  pub active : Active
  pub started : Active
  pub exited : List Text
  pub ended : List Run

abbrev pub initial : System
initial = record { active = []; started = []; exited = []; ended = [] }

abbrev pub exits : Peek → Text → List Text → List Text
exits dead_child id ids = id ∷ ids
exits alive id ids = ids
exits unknown id ids = ids
exits (needs_loginctl_check logind) id ids = ids

abbrev pub with_run : Text → Told → Option (List Deed) → List Run → List Run
with_run id told none runs = runs
with_run id told (some deeds) runs = (id, told, deeds) ∷ runs

-- The session leaves the map under the lock; its run is what follows.
abbrev pub terminated : System → Text → Told → System
terminated s id told = record s {
  active = (terminate s.active id told).0;
  ended = with_run id told (terminate s.active id told).1 s.ended;
}

-- No id is spawned twice. The answer of loginctl comes at any time after the look at the session, which
-- may have been ended by then.
pub data Step (s : System) : System → Type 0 where
  spawns :
      (id : Text) (session : ActiveSession)
      → get text_discrete id s.started ≡ none
      → Step s (record s {
        active = spawned s.active id session;
        started = insert text_discrete id session s.started;
      })
  terminates : (id : Text) (told : Told) → Step s (terminated s id told)
  peeks :
      (id : Text) (runs : Bool)
      → Step s (record s {
        active = (peek s.active id runs).0;
        exited = exits (peek s.active id runs).1 id s.exited;
      })
  checks :
      (id logind : Text) (known : Bool)
      → get text_discrete id s.started ≡ some (pam logind)
      → Step s (record s {
        active = (checked s.active id logind known).0;
        exited = if known then s.exited else id ∷ s.exited;
      })

pub data Reach : System → Type 0 where
  start : Reach initial
  next : {s t : System} → Reach s → Step s t → Reach t

-- The ids that are in the map.
unfoldable pub session_ids : Active → List Text
session_ids active = map (λ (entry : Text × ActiveSession). entry.0) active

-- `terminate_all` over the ids that it has read: they are ended one after the other, and whatever else
-- the broker does comes in between.
pub data Sweep : List Text → System → System → Type 0 where
  swept : {s : System} → Sweep [] s s
  ends :
      {id : Text} {ids : List Text} {s t : System} (told : Told)
      → Sweep ids (terminated s id told) t
      → Sweep (id ∷ ids) s t
  meanwhile : {ids : List Text} {s u t : System} → Step s u → Sweep ids u t → Sweep ids s t
