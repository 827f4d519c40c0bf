-- ===== src/Tests/LoginScreen.antt =====
-- The login screen at concrete inputs: a rectangle is the number of the position that it contains.
use redfog.Base.{ℕ, ◌==◌, ◌≡◌, refl, Bool, true, false, none, some, List, [], ◌∷◌, arith, get_elem?}
use redfog.Base.Text.{Text, codes, text_discrete}
use redfog.LoginScreen.{Layout, new_state}
use redfog.LoginScreen.Requests.{World, accepted, failed, session_name}
use redfog.LoginScreen.Handlers.{InputEvent, moves_to, mouse_button, key}
use redfog.LoginScreen.Safety.{Goes}
use redfog.LoginScreen.Run.{run, run-Goes}
use redfog.LoginScreen.Freshness.{run_asked, shown_session-ScreenFresh}
use redfog.LoginScreen.Reactions.{ScreenFresh}
use redfog.LoginScreen.Choice.{session_names, meant, chosen_row_selected}
use redfog.Presets.{default_presets}
use redfog.Sessions.Report.{SessionConfig, select_session, find_preset, unreachable}

abbrev world : World
world = record {
  has_socket = true;
  authenticates = failed (codes "no");
  running = some true;
  logs_out = accepted;
}

abbrev layout : Layout ℕ
layout = record {
  username_field = 1;
  password_field = 2;
  session_box = 3;
  session_options = 7 ∷ 8 ∷ [];
  keyboard_box = 4;
  keyboard_options = [];
  login_button = 5;
  logout_button = some 6;
}

-- A name is typed, the focus goes on, the second session is chosen, and the login is refused.
abbrev inputs : List (World × Layout ℕ × InputEvent ℕ)
inputs =
    (world, layout, key 30 true (codes "a"))
    ∷ (world, layout, key 15 true (codes ""))
    ∷ (world, layout, moves_to 3)
    ∷ (world, layout, mouse_button 272 true)
    ∷ (world, layout, moves_to 8)
    ∷ (world, layout, mouse_button 272 true)
    ∷ (world, layout, key 28 true (codes ""))
    ∷ []

abbrev contains : ℕ → ℕ → Bool
contains rect pos = rect == pos

abbrev offered : List Text
offered = codes "Sway" ∷ codes "Custom" ∷ []

run-Goes_example :
    Goes (new_state 1920 1080 0 offered) (run contains inputs (new_state 1920 1080 0 offered))
unfolding new_state
run-Goes_example =
    run-Goes contains inputs 1920 1080 0 offered (omega arith) (omega arith) (omega arith)
      (omega arith)

shown_session-ScreenFresh_example :
    let r = run_asked contains inputs none (new_state 1920 1080 0 offered) in ScreenFresh r.0 r.1
shown_session-ScreenFresh_example = shown_session-ScreenFresh contains inputs 1920 1080 0 offered

abbrev config : SessionConfig
config = record {
  has_broker = true;
  session_presets = default_presets;
  allow_concurrent_sessions_per_user = false;
}

chosen_row_selected_example :
    (name : Text) × (session_name (session_names default_presets) 1 ≡ some name)
    × (select_session config name unreachable
        ≡ meant config unreachable (get_elem? default_presets 1))
unfolding default_presets find_preset text_discrete
chosen_row_selected_example =
    chosen_row_selected config unreachable 1 (refl, (refl, tt)) refl (omega arith)
