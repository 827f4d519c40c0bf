-- ===== src/Sessions/Resolution.antt =====
-- Which client a plain connection from an address is taken for.
use redfog.Base.{
  ℕ, zero, suc, ◌≡◌, ◌⊎◌, inl, inr, refl, subst, Bool, true, false, Bool-cases, Option, none, some,
  List, [], ◌∷◌, All, get_elem?, arith,
}
use redfog.Sessions.State.{ClientSlot, Manager}
use redfog.Sessions.Lookup.{candidate, at_most, better, best, resolve_client_key_by_ip}

at_most_refl : (c : ℕ × Bool) → at_most c c ≡ true
unfolding at_most
at_most_refl (g, false) = ground arith
at_most_refl (g, true) = ground arith

at_most_total : (c d : ℕ × Bool) → at_most c d ≡ false → at_most d c ≡ true
unfolding at_most
at_most_total (g, false) (g', false) h = ground arith
at_most_total (g, false) (g', true) h = absurd (cc h)
at_most_total (g, true) (g', false) h = refl
at_most_total (g, true) (g', true) h = ground arith

at_most_trans : (c d e : ℕ × Bool) → at_most c d ≡ true → at_most d e ≡ true → at_most c e ≡ true
unfolding at_most
at_most_trans (g, false) (g', false) (g'', false) h k = ground arith
at_most_trans (g, false) (g', false) (g'', true) h k = refl
at_most_trans (g, false) (g', true) (g'', false) h k = absurd (cc k)
at_most_trans (g, false) (g', true) (g'', true) h k = refl
at_most_trans (g, true) (g', false) (g'', d) h k = absurd (cc h)
at_most_trans (g, true) (g', true) (g'', false) h k = absurd (cc k)
at_most_trans (g, true) (g', true) (g'', true) h k = ground arith

same_candidate :
    (o : Option (ℕ × Bool)) (c d e : ℕ × Bool)
    → o ≡ some c
    → o ≡ some d
    → at_most c e ≡ true
    → at_most d e ≡ true
same_candidate o c d e h k below =
    let same : c ≡ d = cc (h, k) in subst (λ (x : ℕ × Bool). at_most x e ≡ true) same below

module _ {Key Ip User : Type 0} (ip_dec : Discrete Ip) (ip : Ip) where
  -- The slot's session, if it is of the address, comes no later than `c`.
  abbrev pub NoBetter : ℕ × Bool → Key × ClientSlot Key Ip User → Type 0
  NoBetter c (key, slot) =
      (d : ℕ × Bool) → candidate ip_dec ip slot.state ≡ some d → at_most d c ≡ true

  -- A client of the address that no other one is better than.
  abbrev pub Chosen : List (Key × ClientSlot Key Ip User) → Key → ℕ × Bool → Type 0
  Chosen clients key c =
      (n : ℕ) × (slot : ClientSlot Key Ip User) × (get_elem? clients n ≡ some (key, slot))
      × (candidate ip_dec ip slot.state ≡ some c)
      × All (NoBetter c) clients

  abbrev pub NoSession : Key × ClientSlot Key Ip User → Type 0
  NoSession (key, slot) = candidate ip_dec ip slot.state ≡ none

  -- What `best` may answer.
  abbrev pub Answers : List (Key × ClientSlot Key Ip User) → Option (Key × (ℕ × Bool)) → Type 0
  Answers clients none = All NoSession clients
  Answers clients (some (key, c)) = Chosen clients key c

  none_below :
      (clients : List (Key × ClientSlot Key Ip User)) (c : ℕ × Bool)
      → All NoSession clients
      → All (NoBetter c) clients
  none_below [] c h = tt
  none_below ((key, slot) ∷ clients) c h = ((λ d e. absurd (cc (e, h.0))), none_below clients c h.1)

  raise :
      (clients : List (Key × ClientSlot Key Ip User)) (c d : ℕ × Bool)
      → at_most c d ≡ true
      → All (NoBetter c) clients
      → All (NoBetter d) clients
  raise [] c d h all = tt
  raise ((key, slot) ∷ clients) c d h all =
      ((λ e is. at_most_trans e c d (all.0 e is) h), raise clients c d h all.1)

  better-Answers :
      (key : Key) (slot : ClientSlot Key Ip User) (clients : List (Key × ClientSlot Key Ip User))
      (o : Option (ℕ × Bool)) (rest : Option (Key × (ℕ × Bool)))
      → candidate ip_dec ip slot.state ≡ o
      → Answers clients rest
      → Answers ((key, slot) ∷ clients) (better key o rest)
  unfolding better
  better-Answers key slot clients none none e a = (e, a)
  better-Answers key slot clients none (some (k, c)) e (n, s, at, is, all) =
      (suc n, s, at, is, ((λ d h. absurd (cc (e, h))), all))
  better-Answers key slot clients (some c) none e a = (
    zero,
    slot,
    refl,
    e,
    (
      (λ d h. same_candidate (candidate ip_dec ip slot.state) c d c e h (at_most_refl c)),
      none_below clients c a,
    ),
  )
  better-Answers key slot clients (some c) (some (k, d)) e (n, s, at, is, all) =
      elim (Bool-cases (at_most c d)) [
        | inl h ↦ rw h (
          suc n,
          s,
          at,
          is,
          ((λ x hx. same_candidate (candidate ip_dec ip slot.state) c x d e hx h), all),
        )
        | inr h ↦ rw h (
          zero,
          slot,
          refl,
          e,
          (
            (λ x hx. same_candidate (candidate ip_dec ip slot.state) c x c e hx (at_most_refl c)),
            raise clients d c (at_most_total c d h) all,
          ),
        )
      ]

  best-Answers :
      (clients : List (Key × ClientSlot Key Ip User)) → Answers clients (best ip_dec ip clients)
  unfolding best
  best-Answers [] = tt
  best-Answers ((key, slot) ∷ clients) =
      better-Answers key slot clients (candidate ip_dec ip slot.state) (best ip_dec ip clients) refl
        (best-Answers clients)

  -- A connection is taken for no client only if no client of its address has a session. Otherwise it
  -- is taken for one whose session is of the address, such that no other session of the address is
  -- launched where this one already streams, or newer in the same state.
  pub resolve_by_ip_lem :
      (m : Manager Key Ip User)
      → ((resolve_client_key_by_ip ip_dec m ip ≡ none) × All NoSession m.clients)
        ⊎ ((key : Key) × (c : ℕ × Bool) × (resolve_client_key_by_ip ip_dec m ip ≡ some key)
            × Chosen m.clients key c)
  unfolding resolve_client_key_by_ip
  resolve_by_ip_lem m = answered (best ip_dec ip m.clients) refl
    where
      answered :
          (o : Option (Key × (ℕ × Bool)))
          → best ip_dec ip m.clients ≡ o
          → ((resolve_client_key_by_ip ip_dec m ip ≡ none) × All NoSession m.clients)
            ⊎ ((key : Key) × (c : ℕ × Bool) × (resolve_client_key_by_ip ip_dec m ip ≡ some key)
                × Chosen m.clients key c)
      answered none e = inl (
        rw (e, resolve_client_key_by_ip) refl,
        subst (Answers m.clients) e (best-Answers m.clients),
      )
      answered (some (key, c)) e = inr (
        key,
        c,
        rw (e, resolve_client_key_by_ip) refl,
        subst (Answers m.clients) e (best-Answers m.clients),
      )
