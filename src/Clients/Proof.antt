-- ===== src/Clients/Proof.antt =====
-- What the last step of pairing accepts, and what it does to the records.
use redfog.Base.{
  ℕ, ◌≡◌, ◌≢◌, ◌⊎◌, ◌≤◌, refl, sym, subst, if◌then◌else◌, Bool, true, false, ltb, inl, inr, Option,
  Option-cases, none, some, List, ◌++◌, length, take, drop, get, get-insert_self, get-insert_ne,
  arith,
}
use redfog.Base.Text.{same_bytes, same_bytes-true, Text, text_discrete}
use redfog.Crypto.{Libraries, cert_signature_bytes, cert_fingerprint, rsa_verify}
use redfog.Clients.State.{
  ClientError, Result, ok, err, ◌>>=◌, ok_or, no_pending_client, PendingClient, ClientManager,
  persist, invalid_crypto, no_client_hash, no_server_challenge, client_hash_mismatch,
}
use redfog.Clients.Handshake.{proven, finish_pairing, check_client_pairing_secret, paired_entry}

-- What a chain that ends well had at a step that may fail.
>>=-ok_or :
    {A B : Type 0} (e : ClientError) (o : Option A) (next : A → Result B) {end : B}
    → (ok_or e o >>= next) ≡ ok end
    → (a : A) × (o ≡ some a) × (next a ≡ ok end)
>>=-ok_or e (some a) next h = (a, refl, h)
>>=-ok_or e none next h = absurd (cc h)

>>=-if :
    {A : Type 0} (c : Bool) (e : ClientError) (next : Unit {0} → Result A) {end : A}
    → ((if c then ok tt else err e) >>= next) ≡ ok end
    → (c ≡ true) × (next tt ≡ ok end)
>>=-if true e next h = (refl, h)
>>=-if false e next h = absurd (cc h)

ok_or-eq-ok : {A : Type 0} (e : ClientError) (o : Option A) {a : A} → ok_or e o ≡ ok a → o ≡ some a
ok_or-eq-ok e none h = absurd (cc h)
ok_or-eq-ok e (some a) h = cc h

guard-eq-ok :
    {A : Type 0} (c : Bool) (e : ClientError) (r : Result A) {b : A}
    → (if c then err e else r) ≡ ok b
    → (c ≡ false) × (r ≡ ok b)
guard-eq-ok true e r h = absurd (cc h)
guard-eq-ok false e r h = (refl, h)

module _ {Scale : Type 0} (lib : Libraries) where
  -- The client's secret opens the hash that the client committed to before, and is signed with the key of
  -- the client's certificate, whose fingerprint it is.
  abbrev pub IsProof : List ℕ → PendingClient Scale → Text → Type 0
  IsProof message client fingerprint =
      (hash challenge signature : List ℕ) × (client.client_hash ≡ some hash)
      × (client.server_challenge ≡ some challenge)
      × (16 ≤ length message)
      × (cert_signature_bytes lib (client.client_cert_pem) ≡ some signature)
      × (lib.sha256 ((challenge ++ signature) ++ take 16 message) ≡ hash)
      × (rsa_verify lib (take 16 message) (drop 16 message) (client.client_cert_pem) ≡ some tt)
      × (cert_fingerprint lib (client.client_cert_pem) ≡ some fingerprint)

  proven-IsProof :
      (message : List ℕ) (client : PendingClient Scale) (fingerprint : Text)
      → proven lib message client ≡ ok fingerprint
      → IsProof message client fingerprint
  unfolding proven
  proven-IsProof message client fingerprint h =
      let (long, chain) = guard-eq-ok (ltb (length message) 16) _ _ h in
      let (hash, h_hash, after_hash) = >>=-ok_or no_client_hash (client.client_hash) _ chain in
      let (c, h_c, after_c) =
        >>=-ok_or no_server_challenge (client.server_challenge) _ after_hash in
      let (sig, h_sig, after_sig) =
        >>=-ok_or invalid_crypto (cert_signature_bytes lib (client.client_cert_pem)) _ after_c in
      let expected = lib.sha256 ((c ++ sig) ++ take 16 message) in
      let (h_same, after_same) =
        >>=-if (same_bytes expected hash) client_hash_mismatch _ after_sig in
      let (v, h_verified, after_verified) =
        >>=-ok_or invalid_crypto
          (rsa_verify lib (take 16 message) (drop 16 message) (client.client_cert_pem)) _
          after_same in
      (
        hash,
        c,
        sig,
        h_hash,
        h_c,
        ground (arith, long),
        h_sig,
        same_bytes-true expected hash h_same,
        h_verified,
        ok_or-eq-ok _ _ after_verified,
      )

  -- A refusal that changes nothing, or a client that gave its proof: its certificate's fingerprint is paired
  -- from then on, with the scales and the name it was given, and no other record changes.
  abbrev pub Judged :
      Text → List ℕ → Text → ClientManager Scale → ClientManager Scale × Result (Unit {0}) → Type 0
  Judged unique_id message peer_ip m result =
      ((e : ClientError) × (result ≡ (m, err e)))
      ⊎ ((client : PendingClient Scale) × (fingerprint : Text) × (get text_discrete unique_id
              (m.pending)
            ≡ some client)
          × IsProof message client fingerprint
          × (result.1 ≡ ok tt)
          × (get text_discrete fingerprint ((result.0).paired_by_fingerprint)
              ≡ some (paired_entry peer_ip client))
          × ((other : Text)
              → fingerprint ≢ other
              → get text_discrete other ((result.0).paired_by_fingerprint)
                ≡ get text_discrete other (m.paired_by_fingerprint)))

  finish_pairing-Judged :
      (unique_id : Text) (message : List ℕ) (peer_ip : Text) (m : ClientManager Scale)
      (client : PendingClient Scale) (r : Result Text)
      → get text_discrete unique_id (m.pending) ≡ some client
      → proven lib message client ≡ r
      → Judged unique_id message peer_ip m (finish_pairing peer_ip client m r)
  unfolding finish_pairing persist
  finish_pairing-Judged unique_id message peer_ip m client (err e) h k = inl (e, refl)
  finish_pairing-Judged unique_id message peer_ip m client (ok fingerprint) h k = inr (
    client,
    fingerprint,
    h,
    proven-IsProof message client fingerprint k,
    refl,
    get-insert_self text_discrete fingerprint (paired_entry peer_ip client)
        (m.paired_by_fingerprint),
    λ other ne.
        get-insert_ne text_discrete fingerprint other (paired_entry peer_ip client)
          (m.paired_by_fingerprint) ne,
  )

  -- The last step of pairing either refuses and changes nothing, or the pending client gave its proof: its
  -- secret has 16 bytes or more, it hashes, with the server's challenge and the signature of the client's
  -- certificate, to what the client committed to, and it is signed with the certificate's key. Then the
  -- certificate's fingerprint is paired, with the scales and the name that the pending client had, and
  -- the records of other fingerprints stay as they were, also that of a device with the same `uniqueid`.
  pub pairing_is_proven :
      (unique_id : Text) (message : List ℕ) (peer_ip : Text) (m : ClientManager Scale)
      → Judged unique_id message peer_ip m
          (check_client_pairing_secret lib unique_id message peer_ip m)
  unfolding check_client_pairing_secret
  pairing_is_proven unique_id message peer_ip m =
      elim (Option-cases (get text_discrete unique_id (m.pending))) [
        | inl h ↦
            let e : check_client_pairing_secret lib unique_id message peer_ip m
                ≡ (m, err no_pending_client) =
              rw (h, check_client_pairing_secret) refl in
            inl (no_pending_client, e)
        | inr (client, h) ↦
            let e : check_client_pairing_secret lib unique_id message peer_ip m
                ≡ finish_pairing peer_ip client m (proven lib message client) =
              rw (h, check_client_pairing_secret) refl in
            subst (Judged unique_id message peer_ip m) (sym e) (
              finish_pairing-Judged unique_id message peer_ip m client (proven lib message client) h
                refl)
      ]
