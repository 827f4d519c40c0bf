-- ===== src/Sessions/Unwatched.antt =====
-- What happens while a handoff holds a session that the table does not show.
use redfog.Base.{
  ℕ, ◌≡◌, refl, Bool, true, Option, none, some, [], get, remove, get-insert_eq, get-remove_self,
}
use redfog.Base.Text.{Text, text_discrete}
use redfog.Sessions.State.{RunningSession, ClientSlot, Manager, streaming, SessionOrigin}
use redfog.Sessions.Attach.{is_user, cancel, take_active_session, settle}
use redfog.Sessions.Lookup.{find_client}
use redfog.Sessions.Report.{SessionConfig, PendingLoginResult, BrokerReply}
use redfog.Sessions.Handoff.{
  no_watch, handoff_begin, take_existing, resumed, start_streaming, watch_of,
}
use redfog.Sessions.Resuming.{handoff_begin_lem, take_existing_lem, streaming_slot}
use redfog.Sessions.Watch.{watch_user_tick, user_gone, locate, locate_active, user_status}

module _ {Key Ip : Type 0} (key_dec : Discrete Key) where
  tick-gone :
      (m : Manager Key Ip Text) (username : Text) (exited : Bool) (reply : BrokerReply Bool)
      → find_client (λ s. is_user text_discrete username s.kind) m.clients ≡ none
      → get text_discrete username m.background_sessions ≡ none
      → watch_user_tick key_dec m username exited reply ≡ user_gone
  unfolding watch_user_tick locate locate_active user_status
  tick-gone m username exited reply detached e =
      rw (detached, locate_active, e, locate, user_status) refl

  -- A handoff takes a user's session from the background, while no client is attached to one of that user.
  -- If the session's watch comes round before the handoff is done, it finds the session nowhere and ends
  -- for good, whatever the process and the broker would say; and the handoff, in whatever table it ends,
  -- starts no other watch.
  pub resume_ends_watch :
      (config : SessionConfig) (m m' : Manager Key Ip Text) (username : Text)
      (session : RunningSession Key Ip Text) (exited : Bool) (reply : BrokerReply Bool)
      (direct : Bool) (width height : ℕ) (origin : SessionOrigin Key Ip)
      (reported : Option PendingLoginResult) (video audio : Option ℕ)
      → get text_discrete username m.background_sessions ≡ some session
      → find_client (λ s. is_user text_discrete username s.kind) m.clients ≡ none
      → let (held, existing, aborts) = take_existing key_dec config m username in
        let goes_on = resumed key_dec direct width height origin reported session in
        (existing ≡ some session)
        × (watch_user_tick key_dec held username exited reply ≡ user_gone)
        × ((start_streaming key_dec m' goes_on true video audio).1 ≡ no_watch)
  unfolding start_streaming watch_of
  resume_ends_watch config m m' username session exited reply d w h origin reported video audio b
        e =
      rw (take_existing_lem key_dec config m username session b) (
        refl,
        tick-gone
            (record m { background_sessions = remove text_discrete username m.background_sessions })
            username exited reply e (get-remove_self text_discrete username m.background_sessions),
        refl,
      )

  -- A client cancels while its login is handed off. The cancel finds no slot and changes nothing; and when
  -- the handoff is done the client streams the user's session all the same.
  pub cancel_lost :
      (m : Manager Key Ip Text) (key : Key) (slot : ClientSlot Key Ip Text)
      (old session : RunningSession Key Ip Text)
      → get key_dec key m.clients ≡ some slot
      → slot.state ≡ streaming old
      → session.origin.client_key ≡ key
      → let begun = (handoff_begin key_dec m key).0 in
        let (cancelled, effects) = cancel key_dec text_discrete text_discrete begun key in
        let table = (start_streaming key_dec cancelled session true none none).0 in
        (cancelled ≡ begun)
        × (effects ≡ [])
        × (get key_dec key table.clients ≡ some (streaming_slot key_dec session))
  unfolding cancel take_active_session settle start_streaming
  cancel_lost m key slot old session at e own = rw (handoff_begin_lem key_dec m key slot old at e) (
    rw (get-remove_self key_dec key m.clients, cancel, take_active_session) refl,
    rw (get-remove_self key_dec key m.clients, cancel, take_active_session) refl,
    get-insert_eq key_dec session.origin.client_key key _ _ own,
  )
