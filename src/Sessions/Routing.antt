-- ===== src/Sessions/Routing.antt =====
-- Whose session a message of the control channel reaches.
use redfog.Base.{
  ℤ, ℕ, zero, suc, ◌≡◌, ◌≢◌, refl, sym, subst, ap, ◌∙◌, inl, inr, ite, Bool, true, false,
  Bool-cases, Option, none, some, Option-cases, List, [], ◌∷◌, get, get-insert_ne, get_elem?,
  if◌then◌else◌, arith,
}
use redfog.Control.Input.{InputEvent}
use redfog.Sessions.State.{
  RunningSession, ClientState, spawning, launched, streaming, ClientSlot, Manager, session_of,
}
use redfog.Sessions.Lookup.{find_client, resolve_client_key_by_rikey}
use redfog.Sessions.Handlers.{
  update_state, with_rikey, on_peer_connected, on_peer_disconnected, on_loss_stats,
}
use redfog.Sessions.Input.{input_slot, on_input}

module _ {Key Ip User : Type 0} where
  abbrev pub has_key : Discrete (List ℕ) → List ℕ → RunningSession Key Ip User → Bool
  has_key dec rikey session = ite (dec session.origin.rikey rikey) true false

  has_key-rikey :
      (dec : Discrete (List ℕ)) (rikey : List ℕ) (session : RunningSession Key Ip User)
      → has_key dec rikey session ≡ true
      → session.origin.rikey ≡ rikey
  has_key-rikey dec rikey session h = ground (arith, h)

  -- The table has this client, with this session.
  abbrev pub Attached :
      List (Key × ClientSlot Key Ip User) → Key → RunningSession Key Ip User → Type 0
  Attached clients key session =
      (n : ℕ) × (slot : ClientSlot Key Ip User) × (get_elem? clients n ≡ some (key, slot))
      × (session_of slot.state ≡ some session)

  find_client-Attached :
      (test : RunningSession Key Ip User → Bool) (clients : List (Key × ClientSlot Key Ip User))
      (key : Key) (session : RunningSession Key Ip User)
      → find_client test clients ≡ some (key, session)
      → Attached clients key session × (test session ≡ true)
  unfolding find_client
  find_client-Attached test [] key session h = absurd (cc h)
  find_client-Attached test ((k, slot) ∷ clients) key session h =
      by_session (session_of slot.state) refl h (find_client-Attached test clients key session)
    where
      by_session :
          (o : Option (RunningSession Key Ip User))
          → session_of slot.state ≡ o
          → (elim o as (λ _. Option (Key × RunningSession Key Ip User)) [
            | none ↦ find_client test clients
            | some s ↦ if test s then some (k, s) else find_client test clients
          ])
            ≡ some (key, session)
          → (find_client test clients ≡ some (key, session)
              → Attached clients key session × (test session ≡ true))
          → Attached ((k, slot) ∷ clients) key session × (test session ≡ true)
      by_session none e h later = let ((n, s, at, is), t) = later h in ((suc n, s, at, is), t)
      by_session (some s) e h later = elim (Bool-cases (test s)) [
        | inl t ↦
            let found : some (k, s) ≡ some (key, session) = rw t at h in
            let same_key : k ≡ key = cc found in
            let same : s ≡ session = cc found in
            (
              (zero, slot, ap (λ (j : Key). some (j, slot)) same_key, e ∙ ap some same),
              ap test (sym same) ∙ t,
            )
        | inr f ↦ let ((n, s, at, is), t) = later (rw f at h) in ((suc n, s, at, is), t)
      ]

  -- A control message is routed by its key to a client that is in the table and whose session was
  -- launched with that very key.
  pub resolve_by_rikey_lem :
      (dec : Discrete (List ℕ)) (m : Manager Key Ip User) (rikey : List ℕ) (key : Key)
      → resolve_client_key_by_rikey dec m rikey ≡ some key
      → (session : RunningSession Key Ip User) × Attached m.clients key session
        × (session.origin.rikey ≡ rikey)
  unfolding resolve_client_key_by_rikey
  resolve_by_rikey_lem dec m rikey key h = found (find_client (has_key dec rikey) m.clients) refl h
    where
      found :
          (o : Option (Key × RunningSession Key Ip User))
          → find_client (has_key dec rikey) m.clients ≡ o
          → (elim o as (λ _. Option Key) [ none ↦ none | some (k, s) ↦ some k ]) ≡ some key
          → (session : RunningSession Key Ip User) × Attached m.clients key session
            × (session.origin.rikey ≡ rikey)
      found none e h = absurd (cc h)
      found (some (k, s)) e h =
          let same : k ≡ key = cc h in
          let (at, t) = find_client-Attached (has_key dec rikey) m.clients k s e in
          (s, subst (λ (j : Key). Attached m.clients j s) same at, has_key-rikey dec rikey s t)

  module _ (key_dec : Discrete Key) (dec : Discrete (List ℕ)) where
    update_state-other :
        (f : ClientState Key Ip User → ClientState Key Ip User) (m : Manager Key Ip User)
        (key other : Key)
        → key ≢ other
        → get key_dec other (update_state key_dec f m key).clients ≡ get key_dec other m.clients
    unfolding update_state
    update_state-other f m key other h = elim (Option-cases (get key_dec key m.clients)) [
      | inl e ↦ rw (e, update_state) refl
      | inr (slot, e) ↦ rw (e, update_state) (get-insert_ne key_dec key other _ m.clients h)
    ]

    with_rikey-other :
        (f : RunningSession Key Ip User → RunningSession Key Ip User) (m : Manager Key Ip User)
        (rikey : List ℕ) (other : Key)
        → resolve_client_key_by_rikey dec m rikey ≢ some other
        → get key_dec other (with_rikey key_dec f dec m rikey).clients ≡ get key_dec other m.clients
    unfolding with_rikey
    with_rikey-other f m rikey other h =
        elim (Option-cases (resolve_client_key_by_rikey dec m rikey)) [
          | inl e ↦ rw (e, with_rikey) refl
          | inr (key, e) ↦
              rw (e, with_rikey) (update_state-other _ m key other (λ same. h (e ∙ ap some same)))
        ]

    input-other :
        {Pixel : Type 0} (scale_pointer : ℤ → ℤ → ℕ → Pixel) (scale_touch : ℕ → ℕ → Pixel)
        (m : Manager Key Ip User) (rikey : List ℕ) (event : InputEvent) (other : Key)
        → resolve_client_key_by_rikey dec m rikey ≢ some other
        → get key_dec other (on_input scale_pointer scale_touch key_dec dec m rikey event).0.clients
          ≡ get key_dec other m.clients
    unfolding on_input input_slot
    input-other scale_pointer scale_touch m rikey event other h =
        elim (Option-cases (resolve_client_key_by_rikey dec m rikey)) [
          | inl e ↦ rw (e, on_input) refl
          | inr (key, e) ↦ elim (Option-cases (get key_dec key m.clients)) [
            | inl e' ↦ rw (e, on_input, e') refl
            | inr (slot, e') ↦
                rw (e, on_input, e') (by_state key slot slot.state (λ same. h (e ∙ ap some same)))
          ]
        ]
      where
        by_state :
            (key : Key) (slot : ClientSlot Key Ip User) (state : ClientState Key Ip User)
            → key ≢ other
            → get key_dec other
                (input_slot scale_pointer scale_touch key_dec dec m key slot state event).0.clients
              ≡ get key_dec other m.clients
        by_state key slot spawning n = refl
        by_state key slot (launched session) n = refl
        by_state key slot (streaming session) n = get-insert_ne key_dec key other _ m.clients n

    -- A control message, whether input, a loss report or a change of the peer, leaves the slot of every
    -- client that its key does not resolve to as it was.
    pub control_messages_isolated :
        {Pixel : Type 0} (scale_pointer : ℤ → ℤ → ℕ → Pixel) (scale_touch : ℕ → ℕ → Pixel)
        (m : Manager Key Ip User) (rikey : List ℕ) (event : InputEvent) (last_good_frame : ℕ)
        (other : Key)
        → resolve_client_key_by_rikey dec m rikey ≢ some other
        → (get key_dec other
              (on_input scale_pointer scale_touch key_dec dec m rikey event).0.clients
            ≡ get key_dec other m.clients)
          × (get key_dec other (on_loss_stats key_dec dec m rikey last_good_frame).clients
              ≡ get key_dec other m.clients)
          × (get key_dec other (on_peer_connected key_dec dec m rikey).clients
              ≡ get key_dec other m.clients)
          × (get key_dec other (on_peer_disconnected key_dec dec m rikey).clients
              ≡ get key_dec other m.clients)
    unfolding on_loss_stats on_peer_connected on_peer_disconnected
    control_messages_isolated scale_pointer scale_touch m rikey event last_good_frame other h = (
      input-other scale_pointer scale_touch m rikey event other h,
      with_rikey-other _ m rikey other h,
      with_rikey-other _ m rikey other h,
      with_rikey-other _ m rikey other h,
    )
