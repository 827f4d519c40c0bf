-- ===== src/Sessions/Isolation.antt =====
-- What `/launch` and `/cancel` of one client do to the others, and to a user's session.
use redfog.Base.{
  ℕ, ◌≡◌, ◌≢◌, refl, ap, ◌∙◌, inl, inr, Option, none, some, Option-cases, List, [], ◌∷◌, get,
  get-insert_ne, get-remove_ne,
}
use redfog.Sessions.State.{
  SessionType, user, login, RunningSession, ClientState, spawning, launched, streaming, ClientSlot,
  Manager, spawning_slot,
}
use redfog.Sessions.Attach.{
  take_active_session, background_or_discard, settle, cancel, launch_claim, launch_begin,
  launch_end, launch_join, join_slot, Joined, timed_out, joined, starts_over,
}

module _ {Key Ip User : Type 0} (key_dec : Discrete Key) (user_dec : Discrete User)
    (dec : Discrete (List ℕ)) where
  -- Settling a taken session leaves the table alone.
  background_or_discard-clients :
      (m : Manager Key Ip User) (session : RunningSession Key Ip User) (kind : SessionType User)
      → (background_or_discard key_dec user_dec dec m session kind).0.clients ≡ m.clients
  unfolding background_or_discard
  background_or_discard-clients m session (user username) = refl
  background_or_discard-clients m session login = refl

  pub settle-clients :
      (m : Manager Key Ip User) (taken : Option (RunningSession Key Ip User))
      → (settle key_dec user_dec dec m taken).0.clients ≡ m.clients
  unfolding settle
  settle-clients m none = refl
  settle-clients m (some session) = background_or_discard-clients _ session session.kind

-- The requests of a client, with what its spawn gave.
pub data Request (Key Ip User : Type 0) : Type 0 where
  cancels : Key → Request Key Ip User
  begins : Key → Request Key Ip User
  ends : Key → Option (RunningSession Key Ip User) → Request Key Ip User
  joins : Key → List ℕ → ℕ → Request Key Ip User

module _ {Key Ip User : Type 0} where
  abbrev pub client_of : Request Key Ip User → Key
  client_of (cancels key) = key
  client_of (begins key) = key
  client_of (ends key session) = key
  client_of (joins key rikey key_id) = key

  -- Every request is another client's.
  abbrev pub NotOf : Key → List (Request Key Ip User) → Type 0
  NotOf key [] = Unit
  NotOf key (r ∷ requests) = (client_of r ≢ key) × NotOf key requests

  abbrev pub after_join : Manager Key Ip User → Joined Key Ip User → Manager Key Ip User
  after_join m timed_out = m
  after_join m (joined m') = m'
  after_join m starts_over = m

  module _ (key_dec : Discrete Key) (user_dec : Discrete User) (dec : Discrete (List ℕ)) where
    unfoldable pub handle : Manager Key Ip User → Request Key Ip User → Manager Key Ip User
    unfolding cancel launch_begin launch_end launch_join
    handle m (cancels key) = (cancel key_dec user_dec dec m key).0
    handle m (begins key) = (launch_begin key_dec user_dec dec m key).0
    handle m (ends key session) = launch_end key_dec user_dec dec m key session
    handle m (joins key rikey key_id) =
        after_join m (launch_join key_dec user_dec dec m key rikey key_id)

    unfoldable pub handle_all :
        Manager Key Ip User → List (Request Key Ip User) → Manager Key Ip User
    unfolding handle
    handle_all m [] = m
    handle_all m (r ∷ requests) = handle_all (handle m r) requests

    take-other :
        (m : Manager Key Ip User) (key other : Key)
        → key ≢ other
        → get key_dec other (take_active_session key_dec user_dec dec m key).0.clients
          ≡ get key_dec other m.clients
    unfolding take_active_session
    take-other m key other h = elim (Option-cases (get key_dec key m.clients)) [
      | inl e ↦ rw (e, take_active_session) refl
      | inr (slot, e) ↦ rw (e, take_active_session) (get-remove_ne key_dec key other m.clients h)
    ]

    join-other :
        (m : Manager Key Ip User) (key other : Key) (rikey : List ℕ) (key_id : ℕ)
        → key ≢ other
        → get key_dec other
            (after_join m (launch_join key_dec user_dec dec m key rikey key_id)).clients
          ≡ get key_dec other m.clients
    unfolding launch_join join_slot
    join-other m key other rikey key_id h = elim (Option-cases (get key_dec key m.clients)) [
      | inl e ↦ rw (e, launch_join) refl
      | inr (slot, e) ↦ rw (e, launch_join) (by_state slot slot.state)
    ]
      where
        by_state :
            (slot : ClientSlot Key Ip User) (state : ClientState Key Ip User)
            → get key_dec other
                (after_join m
                  (join_slot key_dec user_dec dec m key rikey key_id slot state)).clients
              ≡ get key_dec other m.clients
        by_state slot spawning = refl
        by_state slot (launched session) = get-insert_ne key_dec key other _ m.clients h
        by_state slot (streaming session) = get-insert_ne key_dec key other _ m.clients h

    handle-other :
        (m : Manager Key Ip User) (r : Request Key Ip User) (other : Key)
        → client_of r ≢ other
        → get key_dec other (handle m r).clients ≡ get key_dec other m.clients
    unfolding handle cancel launch_begin launch_claim launch_end
    handle-other m (cancels key) other h =
        ap (get key_dec other)
          (settle-clients key_dec user_dec dec _ (take_active_session key_dec user_dec dec m key).1)
        ∙ take-other m key other h
    handle-other m (begins key) other h =
        ap (get key_dec other)
          (settle-clients key_dec user_dec dec _ (take_active_session key_dec user_dec dec m key).1)
        ∙ get-insert_ne key_dec key other spawning_slot _ h
        ∙ take-other m key other h
    handle-other m (ends key none) other h = get-remove_ne key_dec key other m.clients h
    handle-other m (ends key (some session)) other h = get-insert_ne key_dec key other _ m.clients h
    handle-other m (joins key rikey key_id) other h = join-other m key other rikey key_id h

    -- Whatever launches, retries and cancels other clients send, in any order, a client's slot stays as
    -- it is.
    pub others_untouched :
        (m : Manager Key Ip User) (key : Key) (requests : List (Request Key Ip User))
        → NotOf key requests
        → get key_dec key (handle_all m requests).clients ≡ get key_dec key m.clients
    unfolding handle_all
    others_untouched m key [] h = refl
    others_untouched m key (r ∷ requests) h =
        others_untouched (handle m r) key requests h.1 ∙ handle-other m r key h.0
