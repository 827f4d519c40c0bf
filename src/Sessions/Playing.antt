-- ===== src/Sessions/Playing.antt =====
-- What a PLAY does to the table, at once or while a stream is taken over.
use redfog.Base.{
  ℕ, ite, ◌≡◌, ◌≢◌, ◌⊎◌, inl, inr, refl, ◌∙◌, subst, Bool, false, Option, none, some, List, ◌∷◌,
  ◌++◌, All, arith, get, remove, get-get_elem, get-insert_eq, get-insert_ne, get-remove_ne, Unique,
}
use redfog.Sessions.State.{
  RunningSession, ClientState, spawning, launched, streaming, ClientSlot, Manager, drain_pending,
}
use redfog.Sessions.Attach.{aborted}
use redfog.Sessions.Isolation.{Request, NotOf, handle_all, others_untouched}
use redfog.Sessions.Lookup.{candidate}
use redfog.Sessions.Play.{
  PlayStart, returns, plays, first_play, retake, is_spawning, play_state, play_take, play_begin,
  play_retake,
}
use redfog.Sessions.Resolution.{NoSession, resolve_by_ip_lem}

candidate-ip :
    {Ip : Type 0} (ip_dec : Discrete Ip) (ip a : Ip) (o : Option (ℕ × Bool)) (c : ℕ × Bool)
    → ite (ip_dec a ip) o none ≡ some c
    → a ≡ ip
candidate-ip ip_dec ip a o c e = ground (arith, e)

module _ {Key Ip User : Type 0} (key_dec : Discrete Key) (ip_dec : Discrete Ip) where
  abbrev pub without : Manager Key Ip User → Key → Manager Key Ip User
  without m key = record m { clients = remove key_dec key m.clients }

  -- The slot has a session of the address, which a PLAY takes out as it is.
  abbrev pub Takes :
      Manager Key Ip User
      → Ip
      → Key
      → ClientSlot Key Ip User
      → RunningSession Key Ip User
      → PlayStart Key Ip User
      → Type 0
  Takes m ip key slot session start =
      (session.origin.client_ip ≡ ip)
      × (((slot.state ≡ launched session)
            × (start
                ≡ plays (without m key) (first_play session) slot.video_wait_task
                    slot.audio_wait_task))
          ⊎ ((slot.state ≡ streaming session)
              × (start
                  ≡ plays (without m key) (retake session) slot.video_wait_task
                      slot.audio_wait_task)))

  taking :
      (m : Manager Key Ip User) (ip : Ip) (key : Key) (slot : ClientSlot Key Ip User)
      (state : ClientState Key Ip User) (c : ℕ × Bool)
      → slot.state ≡ state
      → candidate ip_dec ip state ≡ some c
      → (session : RunningSession Key Ip User) × (is_spawning key_dec (some slot) ≡ false)
        × Takes m ip key slot session (play_state key_dec (without m key) slot slot.state)
  unfolding candidate is_spawning play_state
  taking m ip key slot spawning c e h = absurd (cc h)
  taking m ip key slot (launched session) c e h = (
    session,
    rw (e, is_spawning) refl,
    (candidate-ip ip_dec ip session.origin.client_ip _ c h, inl (e, rw (e, play_state) refl)),
  )
  taking m ip key slot (streaming session) c e h = (
    session,
    rw (e, is_spawning) refl,
    (candidate-ip ip_dec ip session.origin.client_ip _ c h, inr (e, rw (e, play_state) refl)),
  )

  -- A PLAY from an address of which no client has a session changes nothing, also when a launch from
  -- there is spawning one. Any other PLAY takes out the session, of its address, of one client, at
  -- once: no PLAY waits for a spawn. The table has one slot for a client.
  pub play_begin-Takes :
      (m : Manager Key Ip User) (ip : Ip)
      → Unique key_dec m.clients
      → ((play_begin key_dec ip_dec m ip ≡ returns m) × All (NoSession ip_dec ip) m.clients)
        ⊎ ((key : Key) × (slot : ClientSlot Key Ip User) × (session : RunningSession Key Ip User)
            × (get key_dec key m.clients ≡ some slot)
            × Takes m ip key slot session (play_begin key_dec ip_dec m ip))
  unfolding play_begin play_take
  play_begin-Takes m ip unique = elim (resolve_by_ip_lem ip_dec ip m) [
    | inl (e, all) ↦ inl (rw (e, play_begin) refl, all)
    | inr (key, c, e, chosen) ↦
        let (n, slot, at, is, all) = chosen in
        let found : get key_dec key m.clients ≡ some slot =
          get-get_elem key_dec m.clients n key slot unique at in
        let (session, here, takes) = taking m ip key slot slot.state c refl is in
        inr (
          key,
          slot,
          session,
          found,
          subst (Takes m ip key slot session) (rw (e, play_begin, found, here, play_take) refl)
              takes,
        )
  ]

  -- What a retake of a stream leaves: the client's slot, with the new wait tasks.
  abbrev pub retaken : RunningSession Key Ip User → ℕ → ℕ → ClientSlot Key Ip User
  retaken session video audio = record {
    state = streaming session;
    video_wait_task = some video;
    audio_wait_task = some audio;
  }

  -- The stream of a client is taken over by a PLAY, and launches and cancels come while the lock is
  -- released, its own among them. Then the client has the session that was streaming, with the two new
  -- wait tasks; the old ones are aborted, and old pings drained first. The slot of another client,
  -- which sent none of those requests, is as before.
  pub retake_keeps_session :
      (user_dec : Discrete User) (dec : Discrete (List ℕ)) (m : Manager Key Ip User)
      (key other : Key) (slot : ClientSlot Key Ip User) (session : RunningSession Key Ip User)
      (requests : List (Request Key Ip User)) (video audio : ℕ)
      → get key_dec key m.clients ≡ some slot
      → slot.state ≡ streaming session
      → session.origin.client_key ≡ key
      → key ≢ other
      → NotOf other requests
      → let begun = play_take key_dec m key in
        let m' = handle_all key_dec user_dec dec (without m key) requests in
        let (m'', effects) =
          play_retake key_dec m' session slot.video_wait_task slot.audio_wait_task video audio in
        (begun ≡ plays (without m key) (retake session) slot.video_wait_task slot.audio_wait_task)
        × (get key_dec key m''.clients ≡ some (retaken session video audio))
        × (get key_dec other m''.clients ≡ get key_dec other m.clients)
        × (effects
            ≡ drain_pending session.origin.ping_token ∷ aborted slot.video_wait_task
              ++ aborted slot.audio_wait_task)
  unfolding play_take play_state play_retake
  retake_keeps_session user_dec dec m key other slot session requests video audio found e own ne h =
      (
        rw (found, play_take, e, play_state) refl,
        get-insert_eq key_dec session.origin.client_key key (retaken session video audio) _ own,
        get-insert_ne key_dec session.origin.client_key other _ _
              (λ p. ne (subst (λ (k : Key). k ≡ other) own p))
            ∙ others_untouched key_dec user_dec dec (without m key) other requests h
            ∙ get-remove_ne key_dec key other m.clients ne,
        refl,
      )
