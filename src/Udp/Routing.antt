-- ===== src/Udp/Routing.antt =====
-- Where a session's datagrams go, against the history of what the socket has heard.
use mathlib.Core.Logic.{if_pos, if_neg}
use redfog.Base.{
  ℕ, ◌≡◌, ◌≢◌, refl, subst, ap, sym, ◌∙◌, ◌⊎◌, inl, inr, ite, true, Option, none, some, List, [],
  ◌∷◌, ◌++◌, ◌==◌, if◌then◌else◌, length, take, drop, get, insert, get-insert_self, get-insert_ne,
  get-remove_self, get-remove_ne, take-append-drop, append_assoc, Bool-cases, Option-cases, arith,
}
use redfog.Udp.{
  SharedState, on_datagram, forget, wait_for_client, learned_addr, send_loop, sent, Answer,
  accepted, would_block, io_error, ping_payload_packet_size,
}

-- What is put on the wire is, at any time, a first part of the batch, in order: no buffer is sent
-- twice, skipped or reordered, whatever the kernel answers.
pub send_loop-prefix :
    (bs : List (List ℕ)) (answers : List Answer)
    → (rest : List (List ℕ)) × ((send_loop bs answers).0 ++ rest ≡ bs)
unfolding send_loop
send_loop-prefix [] answers = ([], refl)
send_loop-prefix (b ∷ bs) [] = (b ∷ bs, refl)
send_loop-prefix (b ∷ bs) (accepted n ∷ answers) =
    let (rest, e) = send_loop-prefix (drop n (b ∷ bs)) answers in
    (
      rest,
      append_assoc (take n (b ∷ bs)) _ rest
          ∙ ap (◌++◌ (take n (b ∷ bs))) e
          ∙ take-append-drop n (b ∷ bs),
    )
send_loop-prefix (b ∷ bs) (would_block ∷ answers) = send_loop-prefix (b ∷ bs) answers
send_loop-prefix (b ∷ bs) (io_error ∷ answers) = (b ∷ bs, refl)

-- When the batch is reported as sent, every buffer went out.
pub send_loop_complete :
    (bs : List (List ℕ)) (answers : List Answer)
    → (send_loop bs answers).1 ≡ some sent
    → (send_loop bs answers).0 ≡ bs
unfolding send_loop
send_loop_complete [] answers h = refl
send_loop_complete (b ∷ bs) [] h = cc
send_loop_complete (b ∷ bs) (accepted n ∷ answers) h =
    ap (◌++◌ (take n (b ∷ bs))) (send_loop_complete (drop n (b ∷ bs)) answers h)
    ∙ take-append-drop n (b ∷ bs)
send_loop_complete (b ∷ bs) (would_block ∷ answers) h = send_loop_complete (b ∷ bs) answers h
send_loop_complete (b ∷ bs) (io_error ∷ answers) h = cc

module _ (Addr Waiter : Type 0) where
  -- What happens to the shared state, in the order of the lock.
  pub data Event : Type 0 where
    datagram : List ℕ → Addr → Event
    forgotten : List ℕ → Event
    waits : List ℕ → Waiter → Event

module _ {Addr Waiter : Type 0} (dec : Discrete (List ℕ)) where
  unfoldable pub step : SharedState Addr Waiter → Event Addr Waiter → SharedState Addr Waiter
  unfolding on_datagram forget wait_for_client
  step s (datagram bytes addr) = (on_datagram dec s bytes addr).0
  step s (forgotten token) = forget dec s token
  step s (waits token waiter) = (wait_for_client dec s token waiter).0

  unfoldable pub run : SharedState Addr Waiter → List (Event Addr Waiter) → SharedState Addr Waiter
  unfolding step
  run s [] = s
  run s (e ∷ es) = run (step s e) es

  -- The address of the last ping that echoed the token, unless it was forgotten since.
  unfoldable pub heard : List ℕ → Option Addr → Event Addr Waiter → Option Addr
  heard token before (datagram bytes addr) =
      if length bytes == ping_payload_packet_size
      then ite (dec (take 16 bytes) token) (some addr) before
      else before
  heard token before (forgotten other) = ite (dec other token) none before
  heard token before (waits other waiter) = before

  unfoldable pub last_heard : List ℕ → Option Addr → List (Event Addr Waiter) → Option Addr
  unfolding heard
  last_heard token before [] = before
  last_heard token before (e ∷ es) = last_heard token (heard token before e) es

  learned-step :
      (s : SharedState Addr Waiter) (token : List ℕ) (e : Event Addr Waiter)
      → learned_addr dec (step s e) token ≡ heard token (learned_addr dec s token) e
  unfolding step on_datagram forget wait_for_client learned_addr heard
  learned-step s token (datagram bytes addr) =
      elim (Bool-cases (length bytes == ping_payload_packet_size)) [
        | inl e ↦
            rw (e, step)
              (elim (dec (take 16 bytes) token) [
                | yes p ↦
                    subst (λ t. get dec t (insert dec (take 16 bytes) addr s.addresses) ≡ some addr)
                      p (get-insert_self dec (take 16 bytes) addr s.addresses)
                    ∙ sym (if_pos (dec (take 16 bytes) token) p _ _)
                | no p ↦
                    get-insert_ne dec (take 16 bytes) token addr s.addresses p
                    ∙ sym (if_neg (dec (take 16 bytes) token) p _ _)
              ])
        | inr e ↦ rw (e, step) refl
      ]
  learned-step s token (forgotten other) = elim (dec other token) [
    | yes p ↦ rw (if_pos (dec other token) p, p) (get-remove_self dec token s.addresses)
    | no p ↦ rw (if_neg (dec other token) p) (get-remove_ne dec other token s.addresses p)
  ]
  learned-step s token (waits other waiter) = elim (Option-cases (get dec other s.addresses)) [
    | inl e ↦ rw (e, step) refl
    | inr (a, e) ↦ rw (e, step) refl
  ]

  -- The address that a session's packets go to is that of the last 20-byte ping with its token since
  -- the token was last forgotten, whatever other sessions did in between.
  pub learned-last_heard :
      (s : SharedState Addr Waiter) (token : List ℕ) (es : List (Event Addr Waiter))
      → learned_addr dec (run s es) token ≡ last_heard token (learned_addr dec s token) es
  unfolding run last_heard
  learned-last_heard s token [] = refl
  learned-last_heard s token (e ∷ es) =
      learned-last_heard (step s e) token es
      ∙ ap (λ (o : Option Addr). last_heard token o es) (learned-step s token e)

  -- What an event does to a waiting call of another token.
  abbrev pub Other : List ℕ → Event Addr Waiter → Type 0
  Other token (datagram bytes addr) =
      (length bytes ≢ ping_payload_packet_size) ⊎ (take 16 bytes ≢ token)
  Other token (forgotten other) = other ≢ token
  Other token (waits other waiter) = other ≢ token

  abbrev pub Others : List ℕ → List (Event Addr Waiter) → Type 0
  Others token [] = Unit
  Others token (e ∷ es) = Other token e × Others token es

  waiter-step :
      (s : SharedState Addr Waiter) (token : List ℕ) (e : Event Addr Waiter)
      → Other token e
      → get dec token (step s e).waiters ≡ get dec token s.waiters
  unfolding step on_datagram forget wait_for_client
  waiter-step s token (datagram bytes addr) h =
      elim (Bool-cases (length bytes == ping_payload_packet_size)) [
        | inl e ↦
            rw (e, step)
              (elim h [
                | inl n ↦ absurd (n (ground (arith, e)))
                | inr n ↦ get-remove_ne dec (take 16 bytes) token s.waiters n
              ])
        | inr e ↦ rw (e, step) refl
      ]
  waiter-step s token (forgotten other) h = get-remove_ne dec other token s.waiters h
  waiter-step s token (waits other waiter) h = elim (Option-cases (get dec other s.addresses)) [
    | inl e ↦ rw (e, step) (get-insert_ne dec other token waiter s.waiters h)
    | inr (a, e) ↦ rw (e, step) refl
  ]

  waiter-run :
      (s : SharedState Addr Waiter) (token : List ℕ) (es : List (Event Addr Waiter))
      → Others token es
      → get dec token (run s es).waiters ≡ get dec token s.waiters
  unfolding run
  waiter-run s token [] h = refl
  waiter-run s token (e ∷ es) h = waiter-run (step s e) token es h.1 ∙ waiter-step s token e h.0

  waits_registers :
      (s : SharedState Addr Waiter) (token : List ℕ) (waiter : Waiter)
      → learned_addr dec s token ≡ none
      → get dec token (wait_for_client dec s token waiter).0.waiters ≡ some waiter
  unfolding wait_for_client learned_addr
  waits_registers s token waiter h =
      let e : get dec token s.addresses ≡ none = h in
      rw (e, wait_for_client) (get-insert_self dec token waiter s.waiters)

  -- A call of `wait_for_client` that had to wait is woken by the first ping with its token, with the
  -- address of that ping, whatever other sessions do in the meantime.
  pub waiter_woken :
      (s : SharedState Addr Waiter) (token bytes : List ℕ) (waiter : Waiter) (addr : Addr)
      (es : List (Event Addr Waiter))
      → learned_addr dec s token ≡ none
      → Others token es
      → length bytes ≡ ping_payload_packet_size
      → take 16 bytes ≡ token
      → (on_datagram dec (run (wait_for_client dec s token waiter).0 es) bytes addr).1
        ≡ some (waiter, addr)
  unfolding on_datagram
  waiter_woken s token bytes waiter addr es unknown others size echo =
      let s' : SharedState Addr Waiter = (wait_for_client dec s token waiter).0 in
      let registered : get dec token s'.waiters ≡ some waiter =
        waits_registers s token waiter unknown in
      let kept : get dec token (run s' es).waiters ≡ some waiter =
        waiter-run s' token es others ∙ registered in
      let test : (length bytes == ping_payload_packet_size) ≡ true = ground (arith, size) in
      let found : get dec (take 16 bytes) (run s' es).waiters ≡ some waiter = rw echo kept in
      rw (test, found) refl
