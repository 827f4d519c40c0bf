-- ===== src/Tests/Handoff.antt =====
-- The handoff from a login to a user's session at a concrete table: keys and addresses are numbers.
use mathlib.Core.List.{filter_map, Memᴰ}
use redfog.Base.{
  ℕ, ◌⊎◌, ◌↔◌, ◌≡◌, refl, true, false, none, some, [], ◌∷◌, arith, get, insert, remove, ℕ_discrete,
}
use redfog.Base.Text.{Text, codes, text_discrete}
use redfog.Control.Registry.{new_registry}
use redfog.Sessions.State.{
  user, login, SessionOrigin, RunningSession, ClientSlot, Manager, streaming, session_of,
}
use redfog.Sessions.Attach.{take_active_session, launch_claim, launch_count, cancel, launch_end}
use redfog.Sessions.Handoff.{
  no_watch, handoff_begin, take_existing, handoff_claim, handoff_release, resumed, start_streaming,
}
use redfog.Sessions.Lookup.{find_client}
use redfog.Sessions.Report.{
  SessionConfig, PendingLoginResult, SessionManager, replied, refused, unreachable,
  handle_login_report,
}
use redfog.Sessions.LogOut.{handle_log_out}
use redfog.Sessions.Resuming.{streaming_slot, handoff_resumes}
use redfog.Sessions.Shutdown.{Has, active_id, shutdown_all_sessions, asked_iff_stored}
use redfog.Sessions.Unwatched.{resume_ends_watch, cancel_lost}
use redfog.Sessions.Watch.{watch_user_tick, user_gone}
use redfog.Sessions.Passwords.{Refused, no_request_without_password}
use redfog.Sessions.Steps.{
  System, registered_as, initial, after_take, start, next, launch_claims, launch_counts, takes,
  launch_ends, here,
}
use redfog.Sessions.Generations.{NamesOne, generation-NamesOne}

abbrev origin : SessionOrigin ℕ ℕ
origin = record {
  client_key = 1;
  client_ip = 9;
  ping_token = 65 ∷ [];
  rikey = 7 ∷ [];
  rikey_key_id = 3;
  next_frame_number = 100;
  target_bitrate_kbps = 20000;
  current_bitrate_kbps = 20000;
  codec = 0;
  connected = true;
}

abbrev login_screen : RunningSession ℕ ℕ Text
login_screen = record {
  kind = login;
  width = 1920;
  height = 1080;
  generation = 4;
  has_gamepad = false;
  origin = origin;
  active_touch_ids = [];
  broker_session_id = none;
  selected_session = none;
}

abbrev desktop : RunningSession ℕ ℕ Text
desktop = record login_screen {
  kind = user (codes "ann");
  generation = 2;
  origin = record origin { rikey = 5 ∷ []; ping_token = 66 ∷ [] };
  broker_session_id = some 0;
}

abbrev slot : ClientSlot ℕ ℕ Text
slot = record { state = streaming login_screen; video_wait_task = some 11; audio_wait_task = none }

abbrev table : Manager ℕ ℕ Text
table = record {
  clients = (1, slot) ∷ [];
  background_sessions = (codes "ann", desktop) ∷ [];
  control_registry = new_registry;
  next_generation = 5;
}

abbrev reported : PendingLoginResult
reported = record { username = codes "ann"; password = codes "pw"; selected = none }

abbrev server : SessionManager ℕ ℕ
server = record { table = table; pending_logins = (4, reported) ∷ []; next_broker_session_id = 1 }

abbrev config : SessionConfig
config = record {
  has_broker = true;
  session_presets = [];
  allow_concurrent_sessions_per_user = false;
}

handoff_resumes_example :
    let (begun, taken) = handoff_begin ℕ_discrete table 1 in
    let (claimed, report, existing, aborts) =
      handoff_claim ℕ_discrete config (record server { table = begun }) 4 in
    let (freed, drains) = handoff_release ℕ_discrete claimed.table desktop in
    let goes_on = resumed ℕ_discrete true 800 600 origin report desktop in
    let (after, watch) = start_streaming ℕ_discrete freed goes_on true none none in
    (taken ≡ some login_screen)
    × (report ≡ some reported)
    × (existing ≡ some desktop)
    × (get ℕ_discrete 1 after.clients ≡ some (streaming_slot ℕ_discrete goes_on))
    × (goes_on.generation ≡ 2)
    × (goes_on.kind ≡ user (codes "ann"))
    × (goes_on.broker_session_id ≡ some 0)
    × (goes_on.origin ≡ origin)
    × (goes_on.selected_session ≡ none)
    × (get text_discrete (codes "ann") after.background_sessions ≡ none)
    × (get ℕ_discrete 4 claimed.pending_logins ≡ none)
    × (get ℕ_discrete 2 after.clients ≡ get ℕ_discrete 2 table.clients)
unfolding get ℕ_discrete text_discrete
handoff_resumes_example =
    handoff_resumes ℕ_discrete config server 1 2 slot login_screen desktop reported true 800 600
      refl refl refl (λ h. omega (arith, h)) refl refl

resume_ends_watch_example :
    let (held, existing, aborts) = take_existing ℕ_discrete config table (codes "ann") in
    let goes_on = resumed ℕ_discrete true 800 600 origin (some reported) desktop in
    (existing ≡ some desktop)
    × (watch_user_tick ℕ_discrete held (codes "ann") true (replied true) ≡ user_gone)
    × ((start_streaming ℕ_discrete table goes_on true none none).1 ≡ no_watch)
unfolding get text_discrete find_client session_of
resume_ends_watch_example =
    resume_ends_watch ℕ_discrete config table table (codes "ann") desktop true (replied true) true
      800 600 origin (some reported) none none refl refl

cancel_lost_example :
    let begun = (handoff_begin ℕ_discrete table 1).0 in
    let (cancelled, effects) = cancel ℕ_discrete text_discrete text_discrete begun 1 in
    let after =
      (start_streaming ℕ_discrete cancelled
        (record desktop { origin = origin })
        true
        none
        none).0 in
    (cancelled ≡ begun)
    × (effects ≡ [])
    × (get ℕ_discrete 1 after.clients
        ≡ some (streaming_slot ℕ_discrete (record desktop { origin = origin })))
unfolding get ℕ_discrete
cancel_lost_example =
    cancel_lost ℕ_discrete table 1 slot login_screen (record desktop { origin = origin }) refl refl
      refl

no_request_without_password_example :
    let (told, result) =
      handle_login_report config server
        (codes "ann")
        (codes "x")
        (codes "Sway")
        6
        (refused (codes "no"))
        unreachable in
    let (left, answer, effects) =
      handle_log_out ℕ_discrete config server (codes "ann") (refused (codes "no")) in
    Refused server told result × Refused server left answer × (effects ≡ [])
no_request_without_password_example =
    no_request_without_password ℕ_discrete config server (codes "ann") (codes "x") (codes "Sway") 6
      (refused (codes "no")) unreachable refl (λ h. cc h)

-- The first launch claims its slot, another client cancels, the launch counts and ends with a session.
abbrev claimed : System ℕ ℕ
claimed =
    after_take ℕ_discrete (initial ℕ_discrete)
      (launch_claim ℕ_discrete text_discrete text_discrete (initial ℕ_discrete).table 1)

abbrev cancelled : System ℕ ℕ
cancelled =
    after_take ℕ_discrete claimed
      (take_active_session ℕ_discrete text_discrete text_discrete claimed.table 2)

abbrev counted : Manager ℕ ℕ Text
counted = (launch_count ℕ_discrete text_discrete text_discrete cancelled.table).0

abbrev first : RunningSession ℕ ℕ Text
first = record login_screen { generation = 0 }

generation-NamesOne_example : NamesOne ℕ_discrete 0 (record {
  table =
      registered_as ℕ_discrete
        (launch_end ℕ_discrete text_discrete text_discrete counted 1 (some first))
        counted;
  held = [];
})
unfolding launch_claim launch_count take_active_session get remove insert ℕ_discrete
generation-NamesOne_example = generation-NamesOne ℕ_discrete 0 (
    next (next (next (next start (launch_claims 1)) (takes 2)) (launch_counts (omega arith)))
      (launch_ends 1 first [] here))

-- A session in the background and a client's, both of the broker.
abbrev two_tables : Manager ℕ ℕ Text
two_tables = record table {
  clients =
      (1, record slot { state = streaming (record desktop { broker_session_id = some 3 }) }) ∷ [];
}

asked : shutdown_all_sessions config two_tables ≡ 0 ∷ 3 ∷ []
unfolding shutdown_all_sessions filter_map active_id session_of
asked = refl

-- While a handoff holds the session that it took, a shutdown does not know of it.
held_not_asked :
    let (begun, taken) = handoff_begin ℕ_discrete table 1 in
    let (held, existing, aborts) = take_existing ℕ_discrete config begun (codes "ann") in
    (existing ≡ some desktop) × (shutdown_all_sessions config held ≡ [])
unfolding shutdown_all_sessions filter_map active_id session_of handoff_begin take_existing get
    text_discrete ℕ_discrete
held_not_asked = (refl, refl)

asked_iff_stored_example : Memᴰ 3 (shutdown_all_sessions config two_tables) ↔ (
    Has text_discrete
      (λ (s : RunningSession ℕ ℕ Text). s.broker_session_id)
      two_tables.background_sessions
      3
    ⊎ Has ℕ_discrete active_id two_tables.clients 3)
unfolding get
asked_iff_stored_example =
    asked_iff_stored ℕ_discrete config two_tables 3 refl (refl, tt) (refl, tt)
