-- ===== src/Clients/Pin.antt =====
-- Pairing under an id whose PIN is never submitted.
use redfog.Base.{
  ℕ, ◌≡◌, ◌≢◌, refl, sym, subst, ◌∙◌, Bool-cases, ltb, inl, inr, Option, Option-cases, none, some,
  List, [], ◌∷◌, length, get, get-insert_eq, get-insert_self, get-insert_ne, All,
}
use redfog.Base.Text.{Text, text_discrete}
use redfog.Crypto.{Libraries}
use redfog.Clients.State.{
  ClientError, Result, ok, err, no_pending_client, no_client_hash, secret_too_short, PendingClient,
  PairedEntry, ClientManager, persist, put_pending,
}
use redfog.Clients.Records.{
  change_pending, change_entry, change_resolved, resolve_fingerprint, scaled_client,
}
use redfog.Clients.Handshake.{
  start_pairing, on_pending, challenged, responded, proven, finish_pairing,
  check_client_pairing_secret, fresh_client,
}
use redfog.Clients.Run.{
  Request, start, pin, challenge, response, secret, pending_scale, pending_name, paired_scale,
  paired_name, seen, serve, run,
}

module _ {Scale : Type 0} where
  abbrev Blank : PendingClient Scale → Type 0
  Blank client = (client.key ≡ none) × (client.client_hash ≡ none)

  abbrev Unkeyed : Text → List (Text × PendingClient Scale) → Type 0
  Unkeyed u pending =
      (client : PendingClient Scale) → get text_discrete u pending ≡ some client → Blank client

  put-Unkeyed :
      (u unique_id : Text) (client : PendingClient Scale) (m : ClientManager Scale)
      → (u ≡ unique_id → Blank client)
      → Unkeyed u (m.pending)
      → Unkeyed u ((put_pending unique_id client m).pending)
  unfolding put_pending
  put-Unkeyed u unique_id client m h k = λ c e. elim (text_discrete unique_id u) [
    | yes p ↦
        let same : client ≡ c =
          cc (sym (get-insert_eq text_discrete unique_id u client (m.pending) p) ∙ e) in
        subst Blank same (h (sym p))
    | no p ↦ k c (sym (get-insert_ne text_discrete unique_id u client (m.pending) p) ∙ e)
  ]

  on_pending-Unkeyed :
      {A : Type 0} (step : PendingClient Scale → PendingClient Scale × Result A)
      (u unique_id : Text) (m : ClientManager Scale)
      → ((client : PendingClient Scale) → Blank client → Blank ((step client).0))
      → Unkeyed u (m.pending)
      → Unkeyed u (((on_pending step unique_id m).0).pending)
  unfolding on_pending
  on_pending-Unkeyed step u unique_id m keeps h =
      elim (Option-cases (get text_discrete unique_id (m.pending))) [
        | inl e ↦ rw (e, on_pending) h
        | inr (client, e) ↦
            rw (e, on_pending)
              (put-Unkeyed u unique_id ((step client).0) m
                (λ same. keeps client (
                  h client (
                    subst (λ (i : Text). get text_discrete i (m.pending) ≡ some client) (sym same)
                      e)))
                h)
      ]

  challenged-Blank :
      (lib : Libraries) (cert : Text) (message s c : List ℕ) (client : PendingClient Scale)
      → Blank client
      → Blank ((challenged lib cert message s c client).0)
  unfolding challenged
  challenged-Blank lib cert message s c client (k, h) = rw (k, challenged) (k, h)

  responded-Blank :
      (lib : Libraries) (key message : List ℕ) (client : PendingClient Scale)
      → Blank client
      → Blank ((responded lib key message client).0)
  unfolding responded
  responded-Blank lib key message client (k, h) = rw (k, responded) (k, h)

  change_pending-Unkeyed :
      (change : PendingClient Scale → PendingClient Scale) (u unique_id : Text)
      (m : ClientManager Scale)
      → ((client : PendingClient Scale) → u ≡ unique_id → Blank client → Blank (change client))
      → Unkeyed u (m.pending)
      → Unkeyed u (((change_pending change unique_id m).0).pending)
  unfolding change_pending
  change_pending-Unkeyed change u unique_id m keeps h =
      elim (Option-cases (get text_discrete unique_id (m.pending))) [
        | inl e ↦ rw (e, change_pending) h
        | inr (client, e) ↦
            rw (e, change_pending)
              (put-Unkeyed u unique_id (change client) m
                (λ same. keeps client same (
                  h client (
                    subst (λ (i : Text). get text_discrete i (m.pending) ≡ some client) (sym same)
                      e)))
                h)
      ]

  scaled_client-Blank :
      (scale : Scale) (resolution : Option (ℕ × ℕ)) (client : PendingClient Scale)
      → Blank client
      → Blank (scaled_client scale resolution client)
  unfolding scaled_client
  scaled_client-Blank scale none client h = h
  scaled_client-Blank scale (some (width, height)) client h = h

  change_entry-pending :
      (change : PairedEntry Scale → PairedEntry Scale) (fingerprint : Text)
      (m : ClientManager Scale)
      → (change_entry change fingerprint m).pending ≡ m.pending
  unfolding change_entry persist
  change_entry-pending change fingerprint m =
      elim (Option-cases (get text_discrete fingerprint (m.paired_by_fingerprint))) [
        | inl e ↦ rw (e, change_entry) refl
        | inr (entry, e) ↦ rw (e, change_entry) refl
      ]

  change_resolved-pending :
      (change : PairedEntry Scale → PairedEntry Scale) (resolved : Result Text)
      (m : ClientManager Scale)
      → ((change_resolved change resolved m).0).pending ≡ m.pending
  unfolding change_resolved
  change_resolved-pending change (err e) m = refl
  change_resolved-pending change (ok fingerprint) m = change_entry-pending change fingerprint m

  finish_pairing-pending :
      (peer_ip : Text) (client : PendingClient Scale) (m : ClientManager Scale) (r : Result Text)
      → ((finish_pairing peer_ip client m r).0).pending ≡ m.pending
  unfolding finish_pairing persist
  finish_pairing-pending peer_ip client m (err e) = refl
  finish_pairing-pending peer_ip client m (ok fingerprint) = refl

  check-pending :
      (lib : Libraries) (unique_id : Text) (message : List ℕ) (peer_ip : Text)
      (m : ClientManager Scale)
      → ((check_client_pairing_secret lib unique_id message peer_ip m).0).pending ≡ m.pending
  unfolding check_client_pairing_secret
  check-pending lib unique_id message peer_ip m =
      elim (Option-cases (get text_discrete unique_id (m.pending))) [
        | inl e ↦ rw (e, check_client_pairing_secret) refl
        | inr (client, e) ↦
            rw (e, check_client_pairing_secret)
              (finish_pairing-pending peer_ip client m (proven lib message client))
      ]

  -- The request is not the PIN of a client.
  abbrev pub IsNotPin : Text → Request Scale → Type 0
  IsNotPin u (pin unique_id digits) = unique_id ≢ u
  IsNotPin u _ = Unit

  start-Unkeyed :
      (u cert : Text) (salt : List ℕ) (m : ClientManager Scale)
      → Unkeyed u ((start_pairing u cert salt m).pending)
  unfolding start_pairing put_pending fresh_client
  start-Unkeyed u cert salt m = λ c e.
      let same : fresh_client u cert salt ≡ c =
        cc (sym (get-insert_self text_discrete u (fresh_client u cert salt) (m.pending)) ∙ e) in
      subst Blank same (refl, refl)

  serve-Unkeyed :
      (lib : Libraries) (u : Text) (r : Request Scale) (m : ClientManager Scale)
      → IsNotPin u r
      → Unkeyed u (m.pending)
      → Unkeyed u ((serve lib r m).pending)
  unfolding serve fresh_client
  serve-Unkeyed lib u (start unique_id cert salt) m n h =
      put-Unkeyed u unique_id (fresh_client unique_id cert salt) m (λ same. (refl, refl)) h
  serve-Unkeyed lib u (pin unique_id digits) m n h =
      change_pending-Unkeyed _ u unique_id m (λ client same blank. absurd (n (sym same))) h
  serve-Unkeyed lib u (challenge unique_id message s c) m n h =
      on_pending-Unkeyed (challenged lib (m.server_cert_pem) message s c) u unique_id m
        (challenged-Blank lib (m.server_cert_pem) message s c) h
  serve-Unkeyed lib u (response unique_id message) m n h =
      on_pending-Unkeyed (responded lib (m.server_private_key_pem) message) u unique_id m
        (responded-Blank lib (m.server_private_key_pem) message) h
  serve-Unkeyed lib u (secret unique_id message peer_ip) m n h =
      subst (Unkeyed u) (sym (check-pending lib unique_id message peer_ip m)) h
  serve-Unkeyed lib u (pending_scale unique_id scale resolution) m n h =
      change_pending-Unkeyed (scaled_client scale resolution) u unique_id m
        (λ client same. scaled_client-Blank scale resolution client) h
  serve-Unkeyed lib u (pending_name unique_id name) m n h =
      change_pending-Unkeyed _ u unique_id m (λ client same blank. blank) h
  serve-Unkeyed lib u (paired_scale fingerprint scale resolution) m n h =
      subst (Unkeyed u)
        (sym
          (change_resolved-pending _ (resolve_fingerprint fingerprint (m.paired_by_fingerprint)) m))
        h
  serve-Unkeyed lib u (paired_name fingerprint name) m n h =
      subst (Unkeyed u)
        (sym
          (change_resolved-pending _ (resolve_fingerprint fingerprint (m.paired_by_fingerprint)) m))
        h
  serve-Unkeyed lib u (seen fingerprint ip width height) m n h =
      subst (Unkeyed u) (sym (change_entry-pending _ fingerprint m)) h

  run-Unkeyed :
      (lib : Libraries) (u : Text) (rs : List (Request Scale)) (m : ClientManager Scale)
      → All (IsNotPin u) rs
      → Unkeyed u (m.pending)
      → Unkeyed u ((run lib rs m).pending)
  unfolding run
  run-Unkeyed lib u [] m n h = h
  run-Unkeyed lib u (r ∷ rs) m n h =
      run-Unkeyed lib u rs (serve lib r m) (n.1) (serve-Unkeyed lib u r m (n.0) h)

  proven-Blank :
      (lib : Libraries) (message : List ℕ) (client : PendingClient Scale)
      → Blank client
      → (e : ClientError) × (proven lib message client ≡ err e)
  unfolding proven
  proven-Blank lib message client (k, h) = elim (Bool-cases (ltb (length message) 16)) [
    | inl short ↦ (secret_too_short, rw (short, proven) refl)
    | inr long ↦ (no_client_hash, rw (long, h, proven) refl)
  ]

  -- After a client starts pairing under an id, whatever requests follow, the last step of pairing fails
  -- for the id and changes nothing, unless the PIN of that id is among the requests.
  pub pairing_needs_pin :
      (lib : Libraries) (u cert : Text) (salt : List ℕ) (rs : List (Request Scale))
      (message : List ℕ) (peer_ip : Text) (m : ClientManager Scale)
      → All (IsNotPin u) rs
      → (e : ClientError) × (check_client_pairing_secret lib u message peer_ip
            (run lib rs (start_pairing u cert salt m))
          ≡ (run lib rs (start_pairing u cert salt m), err e))
  unfolding check_client_pairing_secret finish_pairing
  pairing_needs_pin lib u cert salt rs message peer_ip m n =
      elim (Option-cases
        (get text_discrete u ((run lib rs (start_pairing u cert salt m)).pending))) [
          | inl e ↦ (no_pending_client, rw (e, check_client_pairing_secret) refl)
          | inr (client, e) ↦
              let blank =
                run-Unkeyed lib u rs (start_pairing u cert salt m) n (start-Unkeyed u cert salt m)
                  client e in
              let (error, failed) = proven-Blank lib message client blank in
              (error, rw (e, failed, check_client_pairing_secret) refl)
        ]
