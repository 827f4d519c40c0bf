-- ===== src/Sessions/Lookup.antt =====
-- crates/redfog-moonlight/src/session.rs: which client a connection, a key or a generation belongs to,
-- and the handlers that act on it.
use redfog.Base.{
  ℕ, ◌==◌, leb, if◌then◌else◌, Bool, true, false, Option, none, some, List, [], ◌∷◌, ite,
}
use redfog.Sessions.State.{
  RunningSession, ClientState, spawning, launched, streaming, ClientSlot, Manager, session_of,
}

-- The order of `max_by_key`: a launched session before a streaming one, then the generation.
unfoldable pub at_most : ℕ × Bool → ℕ × Bool → Bool
at_most (g, false) (g', true) = true
at_most (g, true) (g', false) = false
at_most (g, true) (g', true) = leb g g'
at_most (g, false) (g', false) = leb g g'

-- `max_by_key` keeps the later one of two that are equal; `rest` is the best of the later ones.
unfoldable pub better :
    {Key : Type 0} → Key → Option (ℕ × Bool) → Option (Key × (ℕ × Bool)) → Option (Key × (ℕ × Bool))
unfolding at_most
better key none rest = rest
better key (some c) none = some (key, c)
better key (some c) (some (key', c')) = if at_most c c' then some (key', c') else some (key, c)

module _ {Key Ip User : Type 0} (ip_dec : Discrete Ip) where
  -- A session of the address, with its generation and whether it is only launched.
  unfoldable pub candidate : Ip → ClientState Key Ip User → Option (ℕ × Bool)
  candidate ip spawning = none
  candidate ip (launched s) = ite (ip_dec s.origin.client_ip ip) (some (s.generation, true)) none
  candidate ip (streaming s) = ite (ip_dec s.origin.client_ip ip) (some (s.generation, false)) none

  unfoldable pub best : Ip → List (Key × ClientSlot Key Ip User) → Option (Key × (ℕ × Bool))
  unfolding candidate better
  best ip [] = none
  best ip ((key, slot) ∷ clients) = better key (candidate ip slot.state) (best ip clients)

  unfoldable pub resolve_client_key_by_ip : Manager Key Ip User → Ip → Option Key
  unfolding best
  resolve_client_key_by_ip m ip = elim (best ip m.clients) [
    | none ↦ none
    | some (key, c) ↦ some key
  ]

module _ {Key Ip User : Type 0} where
  -- The first client, in the map's order, whose session passes a test.
  unfoldable pub find_client :
      (RunningSession Key Ip User → Bool)
      → List (Key × ClientSlot Key Ip User)
      → Option (Key × RunningSession Key Ip User)
  unfolding session_of
  find_client test [] = none
  find_client test ((key, slot) ∷ clients) =
      let rest = find_client test clients in
      elim (session_of slot.state) [
        | none ↦ rest
        | some session ↦ if test session then some (key, session) else rest
      ]

  unfoldable pub resolve_client_key_by_rikey :
      Discrete (List ℕ) → Manager Key Ip User → List ℕ → Option Key
  unfolding find_client
  resolve_client_key_by_rikey dec m rikey =
      elim (find_client (λ s. ite (dec s.origin.rikey rikey) true false) m.clients) [
        | none ↦ none
        | some (key, session) ↦ some key
      ]

  unfoldable pub session_by_generation :
      Manager Key Ip User → ℕ → Option (RunningSession Key Ip User)
  unfolding find_client
  session_by_generation m generation =
      elim (find_client (λ s. s.generation == generation) m.clients) [
        | none ↦ none
        | some (key, session) ↦ some session
      ]
