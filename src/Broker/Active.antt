-- ===== src/Broker/Active.antt =====
-- crates/redfog-broker/src/session.rs: `SessionManager`, the sessions that are running, and how they are
-- ended. A child's handle is its number; what commands, `/proc` and a child's state say are arguments.
use redfog.Base.{
  ℕ, Bool, true, false, Option, none, some, List, [], ◌∷◌, ◌++◌, get, insert, remove, if◌then◌else◌,
}
use redfog.Base.Text.{Text, codes, text_discrete}
use redfog.Broker.Cgroup.{parse_logind_session_id}

pub data ActiveSession : Type 0 where
  pam : Text → ActiveSession
  direct_child : ℕ → ActiveSession
  scoped : ℕ → Text → ActiveSession

-- What the broker does outside: commands with their arguments, and calls on a child or a file.
pub data Deed : Type 0 where
  systemctl : List Text → Deed
  loginctl : List Text → Deed
  kill_child : ℕ → Deed
  wait_child : ℕ → Deed
  remove_file : Text → Deed

-- The map behind the lock.
abbrev pub Active : Type 0
Active = List (Text × ActiveSession)

-- What a run of `terminate` is told: the cgroup of the child's process, if it can be read, whether
-- SIGTERM was sent, and whether each round of the wait still finds the session. The deadline of five
-- seconds passes in the last round of the list.
pub record Told : Type 0 where
  pub cgroup : Option Text
  pub sigterm_sent : Bool
  pub rounds : List Bool

abbrev pub kill_session : Text → Deed
kill_session id =
    loginctl (codes "kill-session" ∷ id ∷ codes "--signal=SIGKILL" ∷ codes "--kill-whom=all" ∷ [])

abbrev pub kill_scope : Text → Deed
kill_scope unit_name = systemctl (
    codes "kill"
    ∷ codes "--kill-who=all"
    ∷ codes "--signal=SIGKILL"
    ∷ (unit_name ++ codes ".scope")
    ∷ [])

abbrev pub show_session : Text → Deed
show_session id = loginctl (codes "show-session" ∷ id ∷ [])

abbrev pub unit_of : Text → Text
unit_of session_id = codes "redfog-session-" ++ session_id

abbrev unit_file : Text → Text
unit_file name = codes "/run/systemd/system/" ++ name

-- The units of a PAM session are stopped and their files removed.
unfoldable pub drop_units : Text → List Deed
drop_units unit_name =
    let socket = unit_name ++ codes ".socket" in
    let service = unit_name ++ codes ".service" in
    systemctl (codes "stop" ∷ socket ∷ [])
    ∷ systemctl (codes "stop" ∷ service ∷ [])
    ∷ remove_file (unit_file socket)
    ∷ remove_file (unit_file service)
    ∷ systemctl (codes "daemon-reload" ∷ [])
    ∷ []

-- The loop that waits for the session to be gone.
unfoldable pub wait_gone : Text → List Bool → List Deed
wait_gone id [] = []
wait_gone id (known ∷ rounds) =
    let rest = wait_gone id rounds in show_session id ∷ (if known then rest else [])

unfoldable pub end_scoped : Option Text → Text → Deed
unfolding parse_logind_session_id
end_scoped none unit_name = kill_scope unit_name
end_scoped (some cgroup) unit_name = elim (parse_logind_session_id cgroup) [
  | some id ↦ kill_session id
  | none ↦ kill_scope unit_name
]

-- The main process is asked to close the session, and is given time if the signal was sent.
unfoldable pub close_session : Text → Text → Told → List Deed
unfolding wait_gone
close_session unit_name id told =
    systemctl (
      codes "kill"
      ∷ codes "--kill-who=main"
      ∷ codes "--signal=SIGTERM"
      ∷ (unit_name ++ codes ".service")
      ∷ [])
    ∷ (if told.sigterm_sent then wait_gone id told.rounds else [])

unfoldable pub end_session : Text → Told → ActiveSession → List Deed
unfolding close_session end_scoped drop_units
end_session session_id told (direct_child child) = kill_child child ∷ []
end_session session_id told (scoped child unit_name) =
    end_scoped told.cgroup unit_name ∷ wait_child child ∷ []
end_session session_id told (pam id) =
    let unit_name = unit_of session_id in
    close_session unit_name id told ++ kill_session id ∷ drop_units unit_name

-- None is the error for an id that is not there.
unfoldable pub terminate : Active → Text → Told → Active × Option (List Deed)
unfolding get remove end_session
terminate active session_id told = elim (get text_discrete session_id active) [
  | none ↦ (active, none)
  | some session ↦
      (remove text_discrete session_id active, some (end_session session_id told session))
]

pub data Peek : Type 0 where
  alive : Peek
  dead_child : Peek
  needs_loginctl_check : Text → Peek
  unknown : Peek

-- A child's session is looked at, and dropped if it has exited, under one lock.
unfoldable pub seen : Active → Text → Bool → ActiveSession → Active × Peek
unfolding remove
seen active session_id runs (pam id) = (active, needs_loginctl_check id)
seen active session_id runs (direct_child child) =
    if runs then (active, alive) else (remove text_discrete session_id active, dead_child)
seen active session_id runs (scoped child unit_name) =
    if runs then (active, alive) else (remove text_discrete session_id active, dead_child)

unfoldable pub peek : Active → Text → Bool → Active × Peek
unfolding get seen
peek active session_id runs = elim (get text_discrete session_id active) [
  | none ↦ (active, unknown)
  | some session ↦ seen active session_id runs session
]

-- What follows the answer of loginctl, at a later lock.
unfoldable pub checked : Active → Text → Text → Bool → Active × Bool × List Deed
unfolding remove drop_units
checked active session_id id known = if known then (active, true, show_session id ∷ []) else (
  remove text_discrete session_id active,
  false,
  show_session id ∷ drop_units (unit_of session_id),
)

-- The three spawns end with an insert.
unfoldable pub spawned : Active → Text → ActiveSession → Active
unfolding insert
spawned active session_id session = insert text_discrete session_id session active

-- A whole run, with nothing in between: whether the child runs, and whether loginctl knows the session.
unfoldable pub is_session_alive : Active → Text → Bool → Bool → Active × Bool × List Deed
unfolding peek checked
is_session_alive active session_id runs known =
    let (left, found) = peek active session_id runs in
    elim found [
      | alive ↦ (left, true, [])
      | dead_child ↦ (left, false, [])
      | unknown ↦ (left, false, [])
      | needs_loginctl_check id ↦ checked left session_id id known
    ]
