-- ===== src/Sessions/Moves.antt =====
-- How often a generation occurs in the session table, under launches, PLAYs and the start of a stream.
use redfog.Base.{
  ℕ, ◌≡◌, refl, sym, ◌∙◌, subst, Bool, Option, none, some, Option-cases, inl, inr, List, arith, get,
  insert, remove, ap,
}
use redfog.Base.Text.{Text, text_discrete}
use redfog.Control.Registry.{Registry, register}
use redfog.Sessions.State.{
  RunningSession, ClientState, spawning, launched, streaming, ClientSlot, Manager, session_of,
  spawning_slot,
}
use redfog.Sessions.Attach.{
  launch_claim, launch_end, launch_join, join_slot, joined, rekeyed, take_active_session,
}
use redfog.Sessions.Handoff.{start_streaming}
use redfog.Sessions.Play.{PlayKind, first_play, retake, plays, play_state, play_take, play_retake}
use redfog.Sessions.Steps.{session_in}
use redfog.Sessions.Weights.{
  sum_by-remove, sum_by-remove-le, sum_by-insert, sum_by-swap, slot_weight, session_weight,
  in_table, Moved, weight, take_active-Moved,
}

no_weight :
    (Key Ip User : Type 0) (g : ℕ)
    → slot_weight g (spawning_slot {Key = Key} {Ip = Ip} {User = User}) ≡ 0
unfolding session_of spawning_slot
no_weight Key Ip User g = refl

module _ {Key Ip : Type 0} (key_dec : Discrete Key) (g : ℕ) where
  -- A slot put in gives its weight at most.
  put-Moved :
      (m : Manager Key Ip Text) (key : Key) (slot : ClientSlot Key Ip Text)
      → Moved key_dec g m
          (record m { clients = insert key_dec key slot m.clients })
          0
          (slot_weight g slot)
  unfolding in_table
  put-Moved m key slot =
      (omega (arith, sum_by-insert (slot_weight g) key_dec key slot m.clients), refl)

  -- A slot that is taken out, or put in the place of the client's own.
  pub taken-Moved :
      (m : Manager Key Ip Text) (key : Key) (slot : ClientSlot Key Ip Text)
      → get key_dec key m.clients ≡ some slot
      → Moved key_dec g m
          (record m { clients = remove key_dec key m.clients })
          (slot_weight g slot)
          0
  unfolding in_table
  taken-Moved m key slot e =
      let kept = sum_by-remove (slot_weight g) key_dec key m.clients in
      (omega (arith, rw e at kept), refl)

  swapped-Moved :
      (m : Manager Key Ip Text) (key : Key) (slot slot' : ClientSlot Key Ip Text)
      (registry : Registry)
      → get key_dec key m.clients ≡ some slot
      → slot_weight g slot' ≡ slot_weight g slot
      → Moved key_dec g m
          (record m { clients = insert key_dec key slot' m.clients; control_registry = registry })
          0
          0
  unfolding in_table
  swapped-Moved m key slot slot' registry e same =
      (omega (arith, sum_by-swap (slot_weight g) key_dec key slot slot' m.clients e same), refl)

  pub launch_claim-Moved :
      (m : Manager Key Ip Text) (key : Key)
      → let (m', taken, aborts) = launch_claim key_dec text_discrete text_discrete m key in
        Moved key_dec g m m' (weight key_dec g taken) 0
  unfolding launch_claim in_table
  launch_claim-Moved m key =
      let (m', taken, aborts) = take_active_session key_dec text_discrete text_discrete m key in
      let (le, same) = take_active-Moved key_dec g m key in
      (omega (arith, le, (put-Moved m' key spawning_slot).0, no_weight Key Ip Text g), same)

  pub launch_end-Moved :
      (m : Manager Key Ip Text) (key : Key) (session : RunningSession Key Ip Text)
      → Moved key_dec g m
          (launch_end key_dec text_discrete text_discrete m key (some session))
          0
          (session_weight g session)
  unfolding launch_end in_table session_of
  launch_end-Moved m key session =
      put-Moved m key
        (record { state = launched session; video_wait_task = none; audio_wait_task = none })

  pub launch_fails-Moved :
      (m : Manager Key Ip Text) (key : Key)
      → Moved key_dec g m (launch_end key_dec text_discrete text_discrete m key none) 0 0
  unfolding launch_end in_table
  launch_fails-Moved m key =
      (omega (arith, sum_by-remove-le (slot_weight g) key_dec key m.clients), refl)

  join_slot-Moved :
      (m m' : Manager Key Ip Text) (key : Key) (rikey : List ℕ) (key_id : ℕ)
      (slot : ClientSlot Key Ip Text) (state : ClientState Key Ip Text)
      → slot.state ≡ state
      → get key_dec key m.clients ≡ some slot
      → join_slot key_dec text_discrete text_discrete m key rikey key_id slot state ≡ joined m'
      → Moved key_dec g m m' 0 0
  unfolding join_slot session_of
  join_slot-Moved m m' key rikey key_id slot spawning s e j = absurd (cc j)
  join_slot-Moved m m' key rikey key_id slot (launched session) s e j =
      subst (λ (t : Manager Key Ip Text). Moved key_dec g m t 0 0) (cc j)
        (swapped-Moved m key slot
          (record slot {
            state = launched (rekeyed key_dec text_discrete text_discrete rikey key_id session);
          })
          (register text_discrete m.control_registry rikey) e (rw (s, session_of) refl))
  join_slot-Moved m m' key rikey key_id slot (streaming session) s e j =
      subst (λ (t : Manager Key Ip Text). Moved key_dec g m t 0 0) (cc j)
        (swapped-Moved m key slot
          (record slot {
            state = streaming (rekeyed key_dec text_discrete text_discrete rikey key_id session);
          })
          (register text_discrete m.control_registry rikey) e (rw (s, session_of) refl))

  pub launch_join-Moved :
      (m m' : Manager Key Ip Text) (key : Key) (rikey : List ℕ) (key_id : ℕ)
      → launch_join key_dec text_discrete text_discrete m key rikey key_id ≡ joined m'
      → Moved key_dec g m m' 0 0
  unfolding launch_join
  launch_join-Moved m m' key rikey key_id h = elim (Option-cases (get key_dec key m.clients)) [
    | inl e ↦ absurd (cc (rw (e, launch_join) at h))
    | inr (slot, e) ↦
        join_slot-Moved m m' key rikey key_id slot slot.state refl e (rw (e, launch_join) at h)
  ]

  played :
      (m m' m'' : Manager Key Ip Text) (slot : ClientSlot Key Ip Text)
      (session : RunningSession Key Ip Text) (kind kind' : PlayKind Key Ip Text)
      → session_in kind ≡ session
      → slot_weight g slot ≡ session_weight g session
      → Moved key_dec g m m' (slot_weight g slot) 0
      → m' ≡ m''
      → kind ≡ kind'
      → Moved key_dec g m m'' (session_weight g (session_in kind')) 0
  played m m' m'' slot session kind kind' s w moved p q =
      subst
        (λ (t : Manager Key Ip Text). Moved key_dec g m t (session_weight g (session_in kind')) 0) p
        (subst
          (λ (k : PlayKind Key Ip Text). Moved key_dec g m m' (session_weight g (session_in k)) 0) q
          (subst (λ (n : ℕ). Moved key_dec g m m' n 0) (w ∙ ap (session_weight g) (sym s)) moved))

  play_state-Moved :
      (m m' m'' : Manager Key Ip Text) (slot : ClientSlot Key Ip Text)
      (state : ClientState Key Ip Text) (kind : PlayKind Key Ip Text) (video audio : Option ℕ)
      → slot.state ≡ state
      → Moved key_dec g m m' (slot_weight g slot) 0
      → play_state key_dec m' slot state ≡ plays m'' kind video audio
      → Moved key_dec g m m'' (session_weight g (session_in kind)) 0
  unfolding play_state session_of
  play_state-Moved m m' m'' slot spawning kind video audio s moved j = absurd (cc j)
  play_state-Moved m m' m'' slot (launched session) kind video audio s moved j =
      played m m' m'' slot session (first_play session) kind refl (rw (s, session_of) refl) moved
        (cc j) (cc j)
  play_state-Moved m m' m'' slot (streaming session) kind video audio s moved j =
      played m m' m'' slot session (retake session) kind refl (rw (s, session_of) refl) moved (cc j)
        (cc j)

  pub play_take-Moved :
      (m m' : Manager Key Ip Text) (key : Key) (kind : PlayKind Key Ip Text)
      (video audio : Option ℕ)
      → play_take key_dec m key ≡ plays m' kind video audio
      → Moved key_dec g m m' (session_weight g (session_in kind)) 0
  unfolding play_take
  play_take-Moved m m' key kind video audio h = elim (Option-cases (get key_dec key m.clients)) [
    | inl e ↦ absurd (cc (rw (e, play_take) at h))
    | inr (slot, e) ↦
        play_state-Moved m (record m { clients = remove key_dec key m.clients }) m' slot slot.state
          kind video audio refl (taken-Moved m key slot e) (rw (e, play_take) at h)
  ]

  pub play_retake-Moved :
      (m : Manager Key Ip Text) (session : RunningSession Key Ip Text)
      (old_video old_audio : Option ℕ) (video audio : ℕ)
      → Moved key_dec g m
          (play_retake key_dec m session old_video old_audio video audio).0
          0
          (session_weight g session)
  unfolding play_retake session_of
  play_retake-Moved m session old_video old_audio video audio =
      put-Moved m session.origin.client_key (record {
        state = streaming session;
        video_wait_task = some video;
        audio_wait_task = some audio;
      })

  pub start_streaming-Moved :
      (m : Manager Key Ip Text) (session : RunningSession Key Ip Text) (is_resume : Bool)
      (video audio : Option ℕ)
      → Moved key_dec g m
          (start_streaming key_dec m session is_resume video audio).0
          0
          (session_weight g session)
  unfolding start_streaming session_of
  start_streaming-Moved m session is_resume video audio =
      put-Moved m session.origin.client_key
        (record { state = streaming session; video_wait_task = video; audio_wait_task = audio })
