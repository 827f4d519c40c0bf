-- ===== src/Broker/Shutdown.antt =====
-- crates/redfog-broker/src/session.rs, `terminate_all`, among the requests of all connections.
use mathlib.Core.List.{Memᴰ}
use redfog.Base.{◌≡◌, none, some, List, get}
use redfog.Base.Text.{Text, text_discrete}
use redfog.Broker.Active.{ActiveSession, Active}
use redfog.Broker.Requests.{System}

-- The session was spawned, and is no longer in the map.
abbrev Left : Text → ActiveSession → System → Type 0
Left id x s = (get text_discrete id s.started ≡ some x) × (get text_discrete id s.active ≡ none)
