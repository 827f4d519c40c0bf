-- ===== src/Control/Server.antt =====
-- crates/redfog-moonlight/src/control.rs: the loop of `ControlServer::serve_blocking`, one turn at a
-- time. A peer of the host is its number, with the data the server keeps on it.
use redfog.Base.{
  ℕ, ◌-◌, ◌==◌, ltb, if◌then◌else◌, Bool, false, Option, none, some, List, [], ◌∷◌, ◌++◌, get,
}
use redfog.Base.Outcome.{Outcome, returns, ◌>>=◌}
use redfog.Control.Wire.{
  ControlMessage, input_data, request_idr_frame, loss_stats, other, Parsed, ok, err, parse,
  is_encrypted_message,
}
use redfog.Control.Input.{InputEvent, decode_input_event}

-- A pending peer has the time it connected at, in milliseconds.
pub data PeerRikeyState : Type 0 where
  pending : ℕ → PeerRikeyState
  matched : List ℕ → ℕ → PeerRikeyState

abbrev pub Peers : Type 0
Peers = List (ℕ × Option PeerRikeyState)

abbrev pub pending_match_timeout : ℕ
pending_match_timeout = 10000

-- The calls of a `ControlEventHandler`, in order.
pub data Call : Type 0 where
  on_input : List ℕ → InputEvent → Call
  on_request_idr_frame : List ℕ → Call
  on_loss_stats : List ℕ → ℕ → Call
  on_peer_connected : List ℕ → Call
  on_peer_disconnected : List ℕ → Call

-- What `host.service` reports.
pub data Event : Type 0 where
  connect : ℕ → Event
  disconnect : ℕ → Event
  receive : ℕ → List ℕ → Event
  nothing : Event

-- `regs.get(&rikey) != Some(&epoch)`, negated.
unfoldable pub is_current : Option ℕ → ℕ → Bool
is_current none epoch = false
is_current (some e) epoch = e == epoch

unfoldable pub peer_data : ℕ → Peers → Option PeerRikeyState
peer_data id [] = none
peer_data id ((i, d) ∷ peers) = let rest = peer_data id peers in if i == id then d else rest

unfoldable pub set_data : ℕ → Option PeerRikeyState → Peers → Peers
set_data id d [] = []
set_data id d ((i, d') ∷ peers) =
    let rest = set_data id d peers in if i == id then (i, d) ∷ rest else (i, d') ∷ rest

-- `reset` is what enet leaves of a peer's data when the peer is disconnected.
module _ (reset : PeerRikeyState → Option PeerRikeyState) (dec : Discrete (List ℕ)) where
  -- The first sweep, of one peer: superseded and forgotten keys.
  unfoldable pub sweep_stale :
      List (List ℕ × ℕ) → Option PeerRikeyState → Option PeerRikeyState × List Call
  unfolding get is_current
  sweep_stale regs none = (none, [])
  sweep_stale regs (some (pending at)) = (some (pending at), [])
  sweep_stale regs (some (matched rikey epoch)) =
      if is_current (get dec rikey regs) epoch
      then (some (matched rikey epoch), [])
      else (reset (matched rikey epoch), on_peer_disconnected rikey ∷ [])

  unfoldable pub sweep_all_stale : List (List ℕ × ℕ) → Peers → Peers × List Call
  unfolding sweep_stale
  sweep_all_stale regs [] = ([], [])
  sweep_all_stale regs ((id, d) ∷ peers) =
      let (d', calls) = sweep_stale regs d in
      let (rest, more) = sweep_all_stale regs peers in ((id, d') ∷ rest, calls ++ more)

  -- The second sweep: peers that never matched.
  unfoldable pub sweep_pending : ℕ → Option PeerRikeyState → Option PeerRikeyState
  sweep_pending now none = none
  sweep_pending now (some (matched rikey epoch)) = some (matched rikey epoch)
  sweep_pending now (some (pending at)) =
      if ltb pending_match_timeout (now - at) then reset (pending at) else some (pending at)

  unfoldable pub sweep_all_pending : ℕ → Peers → Peers
  unfolding sweep_pending
  sweep_all_pending now [] = []
  sweep_all_pending now ((id, d) ∷ peers) = (id, sweep_pending now d) ∷ sweep_all_pending now peers

-- A key that was tried on a message: the one to match, or the search goes on.
abbrev pub tried :
    List ℕ × ℕ
    → Outcome (Option (List ℕ × ℕ))
    → Parsed ControlMessage
    → Outcome (Option (List ℕ × ℕ))
tried key rest (ok m) = returns (some key)
tried key rest (err e) = rest

module _ (gcm_decrypt : List ℕ → List ℕ → List ℕ → List ℕ → Option (List ℕ)) where
  unfoldable pub call_of : List ℕ → Parsed ControlMessage → Outcome (List Call)
  unfolding decode_input_event
  call_of rikey (err e) = returns []
  call_of rikey (ok other) = returns []
  call_of rikey (ok request_idr_frame) = returns (on_request_idr_frame rikey ∷ [])
  call_of rikey (ok (loss_stats last_good_frame)) =
      returns (on_loss_stats rikey last_good_frame ∷ [])
  call_of rikey (ok (input_data payload)) =
      decode_input_event payload
      >>= elim [ none ↦ returns [] | some event ↦ returns (on_input rikey event ∷ []) ]

  unfoldable pub handle_message : List ℕ → List ℕ → Outcome (List Call)
  unfolding parse call_of
  handle_message rikey buffer = parse gcm_decrypt buffer rikey >>= call_of rikey

  -- `regs.iter().find(..)`: the first key under which the message parses.
  unfoldable pub find_match : List ℕ → List (List ℕ × ℕ) → Outcome (Option (List ℕ × ℕ))
  unfolding parse
  find_match buffer [] = returns none
  find_match buffer ((rikey, epoch) ∷ regs) =
      let rest = find_match buffer regs in
      parse gcm_decrypt buffer rikey >>= tried (rikey, epoch) rest

  -- What the search for a key found, for a peer that is not matched.
  unfoldable pub match_with : ℕ → List ℕ → Peers → Option (List ℕ × ℕ) → Outcome (Peers × List Call)
  unfolding set_data handle_message
  match_with id buffer peers none = returns (peers, [])
  match_with id buffer peers (some (rikey, epoch)) = handle_message rikey buffer >>= (λ calls.
      returns (set_data id (some (matched rikey epoch)) peers, on_peer_connected rikey ∷ calls))

  -- A message from a peer that is not matched.
  unfoldable pub receive_unmatched :
      List (List ℕ × ℕ) → ℕ → List ℕ → Peers → Outcome (Peers × List Call)
  unfolding is_encrypted_message find_match match_with
  receive_unmatched regs id buffer peers = do
    encrypted ← is_encrypted_message buffer
    (if encrypted
        then find_match buffer regs >>= match_with id buffer peers
        else returns (peers, []))

  unfoldable pub on_receive :
      List (List ℕ × ℕ) → ℕ → List ℕ → Peers → Option PeerRikeyState → Outcome (Peers × List Call)
  unfolding handle_message receive_unmatched
  on_receive regs id buffer peers none = receive_unmatched regs id buffer peers
  on_receive regs id buffer peers (some (pending at)) = receive_unmatched regs id buffer peers
  on_receive regs id buffer peers (some (matched rikey epoch)) =
      handle_message rikey buffer >>= (λ calls. returns (peers, calls))

module _ (reset : PeerRikeyState → Option PeerRikeyState) (dec : Discrete (List ℕ))
    (gcm_decrypt : List ℕ → List ℕ → List ℕ → List ℕ → Option (List ℕ)) where
  unfoldable pub on_disconnect : ℕ → Peers → Option PeerRikeyState → Peers × List Call
  unfolding set_data
  on_disconnect id peers none = (peers, [])
  on_disconnect id peers (some (pending at)) = (set_data id (reset (pending at)) peers, [])
  on_disconnect id peers (some (matched rikey epoch)) =
      (set_data id (reset (matched rikey epoch)) peers, on_peer_disconnected rikey ∷ [])

  unfoldable pub on_event : List (List ℕ × ℕ) → ℕ → Peers → Event → Outcome (Peers × List Call)
  unfolding set_data peer_data on_disconnect on_receive
  on_event regs now peers (connect id) = returns (set_data id (some (pending now)) peers, [])
  on_event regs now peers (disconnect id) = returns (on_disconnect id peers (peer_data id peers))
  on_event regs now peers (receive id buffer) =
      on_receive gcm_decrypt regs id buffer peers (peer_data id peers)
  on_event regs now peers nothing = returns (peers, [])

  -- One turn: both sweeps, against a snapshot of the registry, then at most one event.
  unfoldable pub turn : List (List ℕ × ℕ) → ℕ → Peers → Event → Outcome (Peers × List Call)
  unfolding sweep_all_stale sweep_all_pending on_event
  turn regs now peers event =
      let (kept, calls) = sweep_all_stale reset dec regs peers in
      on_event regs now (sweep_all_pending reset dec now kept) event
      >>= (λ after. returns (after.0, calls ++ after.1))
