-- ===== src/Tests/Broker.antt =====
-- The broker at concrete sessions, and the command line of its session script at a concrete payload.
use redfog.Base.{
  List, [], ◌∷◌, ◌++◌, ◌≡◌, refl, arith, true, false, none, some, get, remove, insert, ℕ_discrete,
}
use redfog.Base.Text.{Text, codes, text_discrete}
use redfog.Rtsp.Lines.{strip_cr}
use redfog.Broker.Cgroup.{parse_logind_session_id, after_marker}
use redfog.Broker.Active.{
  pam, direct_child, scoped, wait_child, kill_child, kill_session, Active, Told, is_session_alive,
  spawned, terminate, end_session,
}
use redfog.Broker.Ending.{moved_session_killed}
use redfog.Broker.Requests.{System, start, next, spawns, terminates}
use redfog.Broker.Accounts.{Accounted, spawned-Accounted}
use redfog.Broker.Quoting.{payload_cmd, shell_quote, join_spaced, replace_quotes}
use redfog.Broker.Words.{ShellWords, payload_cmd-ShellWords}

-- The arguments `a'b` and nothing.
abbrev payload : List Text
payload = (97 ∷ 39 ∷ 98 ∷ []) ∷ [] ∷ []

payload_line : payload_cmd payload ≡ 39 ∷ 97 ∷ 39 ∷ 92 ∷ 39 ∷ 39 ∷ 98 ∷ 39 ∷ 32 ∷ 39 ∷ 39 ∷ []
unfolding payload_cmd shell_quote join_spaced replace_quotes
payload_line = refl

payload_cmd-ShellWords_example : ShellWords (payload_cmd payload) payload
payload_cmd-ShellWords_example = payload_cmd-ShellWords payload

abbrev told : Told
told = record {
  cgroup = some (codes "0::/user.slice/session-c14.scope/app" ++ (10 ∷ []));
  sigterm_sent = true;
  rounds = true ∷ false ∷ [];
}

abbrev three : Active
three =
    (codes "0", pam (codes "7"))
    ∷ (codes "1", scoped 9 (codes "unit"))
    ∷ (codes "2", direct_child 5)
    ∷ []

found :
    parse_logind_session_id (codes "1:name=systemd:/a/session-5.scope\n7:memory:/user.slice\n")
    ≡ some (codes "5")
unfolding parse_logind_session_id strip_cr text_discrete ℕ_discrete
found = refl

not_found : parse_logind_session_id (codes "0::/redfog-pam-session-12345-0.scope\n") ≡ none
unfolding parse_logind_session_id strip_cr text_discrete ℕ_discrete
not_found = refl

gone :
    is_session_alive three (codes "2") false true
    ≡ ((codes "0", pam (codes "7")) ∷ (codes "1", scoped 9 (codes "unit")) ∷ [], false, [])
unfolding is_session_alive text_discrete ℕ_discrete
gone = refl

-- A second spawn under an id makes the broker forget the first session, and nothing ends it.
reused_id :
    terminate
      (spawned (spawned [] (codes "0") (direct_child 5)) (codes "0") (direct_child 6))
      (codes "0")
      told
    ≡ ([], some (kill_child 6 ∷ []))
unfolding terminate end_session spawned insert get remove text_discrete ℕ_discrete
reused_id = refl

-- A child that runs when the broker is told to end; meanwhile a connection spawns another session.
abbrev before : System
before = record {
  active = (codes "2", direct_child 5) ∷ [];
  started = (codes "2", direct_child 5) ∷ [];
  exited = [];
  ended = [];
}

abbrev after : System
after = record {
  active = (codes "3", pam (codes "7")) ∷ [];
  started = (codes "3", pam (codes "7")) ∷ (codes "2", direct_child 5) ∷ [];
  exited = [];
  ended = (codes "2", told, kill_child 5 ∷ []) ∷ [];
}

moved_session_killed_example : terminate three (codes "1") told ≡ (
  remove text_discrete (codes "1") three,
  some (kill_session (codes "c14") ∷ wait_child 9 ∷ []),
)
unfolding get text_discrete ℕ_discrete after_marker
moved_session_killed_example =
    moved_session_killed three (codes "1") (codes "unit") 9 told (codes "0::/user.slice") b'c'
      (codes "14") (codes "/app") [] refl refl refl (omega arith) refl (omega arith)

spawned-Accounted_example :
    Accounted
      (record {
        active = [];
        started = (codes "2", direct_child 5) ∷ [];
        exited = [];
        ended = (codes "2", told, kill_child 5 ∷ []) ∷ [];
      })
      (codes "2")
      (direct_child 5)
unfolding get remove insert text_discrete ℕ_discrete spawned terminate end_session
spawned-Accounted_example =
    spawned-Accounted
      (next (next start (spawns (codes "2") (direct_child 5) refl)) (terminates (codes "2") told))
      (codes "2") (direct_child 5) refl
