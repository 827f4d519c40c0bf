-- ===== src/Tests/Sessions.antt =====
-- The session table of crates/redfog-moonlight/src/session.rs at concrete inputs: keys, addresses, users
-- and pixels are numbers.
use mathlib.Core.List.{List-discrete}
use mathlib.Core.Logic.{if_pos}
use redfog.Base.{
  ℕ, ◌≡◌, ◌≢◌, ◌⊎◌, refl, ap, if◌then◌else◌, false, Bool, true, Option, none, some, List, [], ◌∷◌,
  ◌++◌, get, ℕ_discrete, All, arith, ℤ,
}
use redfog.Control.Input.{touch_down}
use redfog.Sessions.State.{
  user, SessionOrigin, RunningSession, ClientSlot, Manager, streaming, spawning_slot, session_of,
  drain_pending,
}
use redfog.Sessions.Attach.{aborted, cancel, launch_begin}
use redfog.Sessions.Lookup.{resolve_client_key_by_rikey, find_client}
use redfog.Sessions.Handlers.{on_loss_stats, on_peer_connected, on_peer_disconnected}
use redfog.Sessions.Input.{on_input}
use redfog.Sessions.Isolation.{cancels, begins, ends, joins, handle_all, others_untouched}
use redfog.Sessions.Keeping.{released, user_session_kept}
use redfog.Sessions.Resolution.{NoSession}
use redfog.Sessions.Play.{PlayStart, plays, retake, play_begin, play_take, play_retake, returns}
use redfog.Sessions.Playing.{without, Takes, retaken, play_begin-Takes, retake_keeps_session}
use redfog.Sessions.Routing.{control_messages_isolated}

abbrev dec : Discrete (List ℕ)
dec = List-discrete ℕ_discrete

abbrev origin : SessionOrigin ℕ ℕ
origin = record {
  client_key = 1;
  client_ip = 9;
  ping_token = 65 ∷ [];
  rikey = 7 ∷ [];
  rikey_key_id = 3;
  next_frame_number = 100;
  target_bitrate_kbps = 20000;
  current_bitrate_kbps = 20000;
  codec = 0;
  connected = true;
}

abbrev session : RunningSession ℕ ℕ ℕ
session = record {
  kind = user 5;
  width = 1920;
  height = 1080;
  generation = 2;
  has_gamepad = true;
  origin = origin;
  active_touch_ids = 4 ∷ [];
  broker_session_id = none;
  selected_session = none;
}

abbrev slot : ClientSlot ℕ ℕ ℕ
slot = record { state = streaming session; video_wait_task = some 11; audio_wait_task = none }

abbrev manager : Manager ℕ ℕ ℕ
manager = record {
  clients = (1, slot) ∷ [];
  background_sessions = [];
  control_registry = record { registrations = (7 ∷ [], 0) ∷ []; next_epoch = 1 };
  next_generation = 3;
}

others_untouched_example :
    get ℕ_discrete 1
      (handle_all ℕ_discrete ℕ_discrete dec manager
        (begins 2 ∷ ends 2 (some session) ∷ joins 3 (8 ∷ []) 0 ∷ cancels 2 ∷ [])).clients
    ≡ get ℕ_discrete 1 manager.clients
others_untouched_example =
    others_untouched ℕ_discrete ℕ_discrete dec manager 1
      (begins 2 ∷ ends 2 (some session) ∷ joins 3 (8 ∷ []) 0 ∷ cancels 2 ∷ [])
      (two, (two, ((λ h. omega (arith, h)), (two, tt))))
  where
    two : ◌≢◌ {A = ℕ} 2 1
    two h = omega (arith, h)

user_session_kept_example :
    let cancelled = (cancel ℕ_discrete ℕ_discrete dec manager 1).0 in
    let begun = (launch_begin ℕ_discrete ℕ_discrete dec manager 1).0 in
    (get ℕ_discrete 5 cancelled.background_sessions
      ≡ some (released ℕ_discrete ℕ_discrete dec session))
    × (get ℕ_discrete 1 cancelled.clients ≡ none)
    × (get ℕ_discrete 5 begun.background_sessions
        ≡ some (released ℕ_discrete ℕ_discrete dec session))
    × (get ℕ_discrete 1 begun.clients ≡ some spawning_slot)
unfolding get session_of ℕ_discrete
user_session_kept_example =
    user_session_kept ℕ_discrete ℕ_discrete dec manager 1 slot session 5 refl refl refl

resolves : resolve_client_key_by_rikey dec manager (7 ∷ []) ≡ some 1
unfolding resolve_client_key_by_rikey find_client session_of
resolves =
    ap
      (λ (b : Bool).
        let found : Option (ℕ × RunningSession ℕ ℕ ℕ) = if b then some (1, session) else none in
        let key : Option ℕ = elim found [ none ↦ none | some (k, s) ↦ some k ] in key)
      (if_pos (dec (7 ∷ []) (7 ∷ [])) refl true false)

control_messages_isolated_example :
    let down = touch_down 1 0 0 0 in
    let pointer = λ (x s : ℤ) (n : ℕ). n in
    let touch = λ (x n : ℕ). n in
    (get ℕ_discrete 2 (on_input pointer touch ℕ_discrete dec manager (7 ∷ []) down).0.clients
      ≡ get ℕ_discrete 2 manager.clients)
    × (get ℕ_discrete 2 (on_loss_stats ℕ_discrete dec manager (7 ∷ []) 50).clients
        ≡ get ℕ_discrete 2 manager.clients)
    × (get ℕ_discrete 2 (on_peer_connected ℕ_discrete dec manager (7 ∷ [])).clients
        ≡ get ℕ_discrete 2 manager.clients)
    × (get ℕ_discrete 2 (on_peer_disconnected ℕ_discrete dec manager (7 ∷ [])).clients
        ≡ get ℕ_discrete 2 manager.clients)
control_messages_isolated_example =
    control_messages_isolated ℕ_discrete dec (λ x s n. n) (λ x n. n) manager (7 ∷ [])
      (touch_down 1 0 0 0) 50 2
      (λ h. let e : ◌≡◌ {A = ℕ} 1 2 = cc (h, resolves) in omega (arith, e))

-- A second client, of the same address, spawns.
abbrev spawning_too : Manager ℕ ℕ ℕ
spawning_too = record manager { clients = (2, spawning_slot) ∷ (1, slot) ∷ [] }

play_begin-Takes_example :
    let start : PlayStart ℕ ℕ ℕ = play_begin ℕ_discrete ℕ_discrete spawning_too 9 in
    ((start ≡ returns spawning_too) × All (NoSession ℕ_discrete 9) spawning_too.clients)
    ⊎ ((key : ℕ) × (s : ClientSlot ℕ ℕ ℕ) × (session : RunningSession ℕ ℕ ℕ) × (get ℕ_discrete key
            spawning_too.clients
          ≡ some s)
        × Takes ℕ_discrete ℕ_discrete spawning_too 9 key s session start)
unfolding get ℕ_discrete
play_begin-Takes_example = play_begin-Takes ℕ_discrete ℕ_discrete spawning_too 9 (refl, (refl, tt))

retake_keeps_session_example :
    let m : Manager ℕ ℕ ℕ = without ℕ_discrete ℕ_discrete spawning_too 1 in
    let m' = handle_all ℕ_discrete ℕ_discrete dec m (begins 3 ∷ cancels 1 ∷ []) in
    let (m'', effects) = play_retake ℕ_discrete m' session (some 11) none 12 13 in
    (play_take ℕ_discrete spawning_too 1 ≡ plays m (retake session) (some 11) none)
    × (get ℕ_discrete 1 m''.clients ≡ some (retaken ℕ_discrete ℕ_discrete session 12 13))
    × (get ℕ_discrete 2 m''.clients ≡ get ℕ_discrete 2 spawning_too.clients)
    × (effects ≡ drain_pending (65 ∷ []) ∷ aborted (some 11) ++ aborted none)
unfolding get ℕ_discrete
retake_keeps_session_example =
    retake_keeps_session ℕ_discrete ℕ_discrete ℕ_discrete dec spawning_too 1 2 slot session
      (begins 3 ∷ cancels 1 ∷ []) 12 13 refl refl refl (λ h. omega (arith, h))
      ((λ h. omega (arith, h)), ((λ h. omega (arith, h)), tt))
