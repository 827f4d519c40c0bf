-- ===== src/Udp.antt =====
-- crates/redfog-moonlight/src/udp_sender.rs: one UDP socket for all sessions, with the address that
-- each session's token was last heard from. Every function here runs under the state's lock.
pub mod Routing
use redfog.Base.{
  ℕ, ◌+◌, ◌≡◌, Option, none, some, List, [], ◌∷◌, ◌++◌, ◌==◌, ltb, if◌then◌else◌, length, take,
  drop, get, remove, insert,
}

abbrev pub ping_payload_packet_size : ℕ
ping_payload_packet_size = 20

pub data SendResult : Type 0 where
  sent : SendResult
  unknown_address : SendResult
  failed : SendResult

-- What `try_io` around `sendmmsg` answers: how many buffers the kernel took, or an error.
pub data Answer : Type 0 where
  accepted : ℕ → Answer
  would_block : Answer
  io_error : Answer

-- The loop of `send_batch_to`, along the kernel's answers: the datagrams that go out to `addr`, and
-- the result, `none` while the batch is still waiting for an answer.
unfoldable pub send_loop : List (List ℕ) → List Answer → List (List ℕ) × Option SendResult
send_loop [] answers = ([], some sent)
send_loop (b ∷ bs) [] = ([], none)
send_loop (b ∷ bs) (accepted n ∷ answers) =
    let (out, r) = send_loop (drop n (b ∷ bs)) answers in (take n (b ∷ bs) ++ out, r)
send_loop (b ∷ bs) (would_block ∷ answers) = send_loop (b ∷ bs) answers
send_loop (b ∷ bs) (io_error ∷ answers) = ([], some failed)

-- `Token` is `[u8; 16]`, as the bytes of a datagram; `Addr` is `SocketAddr`; `Waiter` is the sending
-- half of a oneshot channel.
module _ (Addr Waiter : Type 0) where
  pub record SharedState : Type 0 where
    pub addresses : List (List ℕ × Addr)
    pub waiters : List (List ℕ × Waiter)

module _ {Addr Waiter : Type 0} (dec : Discrete (List ℕ)) where
  unfoldable pub empty : SharedState Addr Waiter
  empty = record { addresses = []; waiters = [] }

  -- One turn of the receive loop, for a datagram that arrived: the waiter to wake, if any.
  unfoldable pub on_datagram :
      SharedState Addr Waiter → List ℕ → Addr → SharedState Addr Waiter × Option (Waiter × Addr)
  unfolding get remove insert
  on_datagram s datagram addr =
      let token = take 16 datagram in
      let woken : Option (Waiter × Addr) = elim (get dec token s.waiters) [
        | none ↦ none
        | some w ↦ some (w, addr)
      ] in
      if length datagram == ping_payload_packet_size
      then (
        record {
          addresses = insert dec token addr s.addresses;
          waiters = remove dec token s.waiters;
        },
        woken,
      )
      else (s, none)

  unfoldable pub forget : SharedState Addr Waiter → List ℕ → SharedState Addr Waiter
  unfolding remove
  forget s token = record {
    addresses = remove dec token s.addresses;
    waiters = remove dec token s.waiters;
  }

  -- `wait_for_client` up to its `await`: the address if it is known, or a registered waiter.
  unfoldable pub wait_for_client :
      SharedState Addr Waiter → List ℕ → Waiter → SharedState Addr Waiter × Option Addr
  unfolding get insert
  wait_for_client s token waiter = elim (get dec token s.addresses) [
    | some addr ↦ (s, some addr)
    | none ↦ (record s { waiters = insert dec token waiter s.waiters }, none)
  ]

  unfoldable pub learned_addr : SharedState Addr Waiter → List ℕ → Option Addr
  unfolding get
  learned_addr s token = get dec token s.addresses

  unfoldable pub send_batch_to :
      SharedState Addr Waiter
      → List ℕ
      → List (List ℕ)
      → List Answer
      → Option Addr × List (List ℕ) × Option SendResult
  unfolding learned_addr send_loop
  send_batch_to s token [] answers = (none, [], some sent)
  send_batch_to s token (b ∷ bs) answers = elim (learned_addr s token) [
    | none ↦ (none, [], some unknown_address)
    | some addr ↦ let (out, r) = send_loop (b ∷ bs) answers in (some addr, out, r)
  ]
