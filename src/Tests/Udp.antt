-- ===== src/Tests/Udp.antt =====
-- crates/redfog-moonlight/src/udp_sender.rs at concrete inputs. Addresses and waiters are numbers.
use mathlib.Core.List.{List-discrete}
use redfog.Base.{ℕ, ◌≡◌, List, [], ◌∷◌, ◌++◌, replicate, ℕ_discrete}
use redfog.Udp.{SharedState, learned_addr}
use redfog.Udp.Routing.{Event, datagram, forgotten, run, last_heard, learned-last_heard}

abbrev dec : Discrete (List ℕ)
dec = List-discrete ℕ_discrete

abbrev idle : SharedState ℕ ℕ
idle = record { addresses = []; waiters = [] }

abbrev token : List ℕ
token = replicate 16 7

abbrev ping : List ℕ
ping = token ++ 0 ∷ 0 ∷ 0 ∷ 1 ∷ []

abbrev history : List (Event ℕ ℕ)
history = datagram ping 50 ∷ forgotten (9 ∷ []) ∷ datagram (1 ∷ []) 80 ∷ datagram ping 51 ∷ []

learned-last_heard_example :
    learned_addr dec (run dec idle history) token
    ≡ last_heard dec token (learned_addr dec idle token) history
learned-last_heard_example = learned-last_heard dec idle token history
