-- ===== src/Clients/Exchange.antt =====
-- crates/redfog-moonlight/src/clients.rs: what each step of the handshake does to the pending client of
-- a client that keeps to the protocol.
use redfog.Base.{
  ℕ, ◌≡◌, refl, subst, ◌∙◌, ap, true, false, ltb, le→ltb, Option, none, some, List, [], ◌++◌,
  length, take, drop, get, get-insert_self, length-append, take-append, drop-append, arith,
}
use redfog.Base.Text.{same_bytes_self, Text, text_discrete}
use redfog.Crypto.{
  Libraries, derive_key, cert_signature_bytes, cert_fingerprint, rsa_sign, rsa_verify, ecb_encrypt,
  ecb_decrypt,
}
use redfog.Clients.State.{Result, ok, PendingClient, ClientManager, persist, put_pending}
use redfog.Clients.Records.{change_pending, is_paired_by_cert}
use redfog.Clients.Handshake.{
  proven, finish_pairing, check_client_pairing_secret, paired_entry, fresh_client, start_pairing,
  submit_pin, client_challenge, server_challenge_response, on_pending, challenged, responded,
  challenge_answer,
}

-- What SHA-256 and RSA promise.
abbrev pub IsDigest : (List ℕ → List ℕ) → Type 0
IsDigest hash = (message : List ℕ) → length (hash message) ≡ 32

-- A private key and a certificate of its public key.
abbrev pub IsKeyPair : Libraries → Text → Text → Type 0
IsKeyPair lib private_key_pem cert_pem =
    (message : List ℕ)
    → (signature : List ℕ) × (rsa_sign lib message private_key_pem ≡ some signature)
      × (rsa_verify lib message signature cert_pem ≡ some tt)

challenge_answer-ok :
    (lib : Libraries) (server_cert : Text) (key plain sig s c cipher : List ℕ)
    → cert_signature_bytes lib server_cert ≡ some sig
    → ecb_encrypt lib (lib.sha256 ((plain ++ sig) ++ s) ++ c) key ≡ some cipher
    → challenge_answer lib server_cert key plain s c ≡ ok cipher
unfolding challenge_answer
challenge_answer-ok lib server_cert key plain sig s c cipher h k = rw (h, k) refl

module _ (Scale : Type 0) (lib : Libraries) where
  pub get-put :
      (id : Text) (client : PendingClient Scale) (m : ClientManager Scale)
      → get text_discrete id ((put_pending id client m).pending) ≡ some client
  unfolding put_pending
  get-put id client m = get-insert_self text_discrete id client (m.pending)

  on_pending-some :
      {A : Type 0} (step : PendingClient Scale → PendingClient Scale × Result A) (id : Text)
      (client : PendingClient Scale) (m : ClientManager Scale)
      → get text_discrete id (m.pending) ≡ some client
      → on_pending step id m ≡ (put_pending id ((step client).0) m, (step client).1)
  unfolding on_pending
  on_pending-some step id client m h = rw (h, on_pending) refl

  change_pending-some :
      (change : PendingClient Scale → PendingClient Scale) (id : Text)
      (client : PendingClient Scale) (m : ClientManager Scale)
      → get text_discrete id (m.pending) ≡ some client
      → change_pending change id m ≡ (put_pending id (change client) m, ok tt)
  unfolding change_pending
  change_pending-some change id client m h = rw (h, change_pending) refl

  -- The pending client of an id, with what the handshake has filled in so far.
  abbrev pub at :
      Text
      → Text
      → List ℕ
      → Option (List ℕ)
      → Option (List ℕ)
      → Option (List ℕ)
      → Option (List ℕ)
      → PendingClient Scale
  at id cert salt key secret challenge hash = record {
    unique_id = id;
    client_cert_pem = cert;
    salt = salt;
    key = key;
    server_secret = secret;
    server_challenge = challenge;
    client_hash = hash;
    scale = none;
    scale_by_resolution = [];
    name = none;
  }

  pub submit_pin-start :
      (id cert pin : Text) (salt : List ℕ) (m : ClientManager Scale)
      → submit_pin lib id pin (start_pairing id cert salt m) ≡ (
        put_pending id
            (at id cert salt (some (derive_key lib salt pin)) none none none)
            (start_pairing id cert salt m),
        ok tt,
      )
  unfolding submit_pin start_pairing fresh_client
  submit_pin-start id cert pin salt m =
      change_pending-some _ id (fresh_client id cert salt) (start_pairing id cert salt m)
        (get-put id (fresh_client id cert salt) m)

  challenged-some :
      (server_cert id cert : Text) (salt key message plain s c : List ℕ)
      → ecb_decrypt lib message key ≡ some plain
      → challenged lib server_cert message s c (at id cert salt (some key) none none none) ≡ (
        at id cert salt (some key) (some s) (some c) none,
        challenge_answer lib server_cert key plain s c,
      )
  unfolding challenged
  challenged-some server_cert id cert salt key message plain s c k = rw (k, challenged) refl

  responded-some :
      (private_key id cert : Text) (salt key message plain s c signature : List ℕ)
      → ecb_decrypt lib message key ≡ some plain
      → rsa_sign lib s private_key ≡ some signature
      → responded lib private_key message (at id cert salt (some key) (some s) (some c) none)
        ≡ (at id cert salt (some key) (some s) (some c) (some plain), ok (s ++ signature))
  unfolding responded
  responded-some private_key id cert salt key message plain s c signature k r =
      rw (k, r, responded) refl

  pub proven-ok :
      (id cert : Text) (salt key s secret c sig signature : List ℕ) (fingerprint : Text)
      → length secret ≡ 16
      → cert_signature_bytes lib cert ≡ some sig
      → rsa_verify lib secret signature cert ≡ some tt
      → cert_fingerprint lib cert ≡ some fingerprint
      → proven lib
          (secret ++ signature)
          (at id cert salt (some key) (some s) (some c) (some (lib.sha256 ((c ++ sig) ++ secret))))
        ≡ ok fingerprint
  unfolding proven
  proven-ok id cert salt key s secret c sig signature fingerprint long hs v f =
      let front : take 16 (secret ++ signature) ≡ secret =
        subst (λ (n : ℕ). take n (secret ++ signature) ≡ secret) long
          (take-append secret signature) in
      let back : drop 16 (secret ++ signature) ≡ signature =
        subst (λ (n : ℕ). drop n (secret ++ signature) ≡ signature) long
          (drop-append secret signature) in
      let enough : ltb (length (secret ++ signature)) 16 ≡ false =
        le→ltb (length (secret ++ signature)) 16 (omega (arith, length-append secret signature)) in
      rw
        (enough, hs, front, same_bytes_self (lib.sha256 ((c ++ sig) ++ secret)), back, v, f, proven)
        refl

  pub finish_pairing-is_paired :
      (peer_ip fingerprint : Text) (client : PendingClient Scale) (m : ClientManager Scale)
      → is_paired_by_cert fingerprint ((finish_pairing peer_ip client m (ok fingerprint)).0) ≡ true
  unfolding finish_pairing persist is_paired_by_cert
  finish_pairing-is_paired peer_ip fingerprint client m =
      rw
        (
          get-insert_self text_discrete fingerprint (paired_entry peer_ip client)
              (m.paired_by_fingerprint),
          is_paired_by_cert,
        )
        refl

  pub check-some :
      (id peer_ip fingerprint : Text) (message : List ℕ) (client : PendingClient Scale)
      (m : ClientManager Scale)
      → get text_discrete id (m.pending) ≡ some client
      → proven lib message client ≡ ok fingerprint
      → check_client_pairing_secret lib id message peer_ip m
        ≡ finish_pairing peer_ip client m (ok fingerprint)
  unfolding check_client_pairing_secret
  check-some id peer_ip fingerprint message client m h k =
      rw (h, k, check_client_pairing_secret) refl

  pub challenge_step :
      (id cert : Text) (salt key first answer challenge sig s c : List ℕ) (m : ClientManager Scale)
      → get text_discrete id (m.pending) ≡ some (at id cert salt (some key) none none none)
      → ecb_decrypt lib first key ≡ some challenge
      → cert_signature_bytes lib (m.server_cert_pem) ≡ some sig
      → ecb_encrypt lib (lib.sha256 ((challenge ++ sig) ++ s) ++ c) key ≡ some answer
      → client_challenge lib id first s c m
        ≡ (put_pending id (at id cert salt (some key) (some s) (some c) none) m, ok answer)
  unfolding client_challenge
  challenge_step id cert salt key first answer challenge sig s c m h opened h_sig sealed =
      on_pending-some (challenged lib (m.server_cert_pem) first s c) id _ m h
      ∙ ap (λ (r : PendingClient Scale × Result (List ℕ)). (put_pending id (r.0) m, r.1))
          (challenged-some (m.server_cert_pem) id cert salt key first challenge s c opened)
      ∙ ap
          (λ (r : Result (List ℕ)).
            (put_pending id (at id cert salt (some key) (some s) (some c) none) m, r))
          (challenge_answer-ok lib (m.server_cert_pem) key challenge sig s c answer h_sig sealed)

  pub response_step :
      (id cert : Text) (salt key second commitment s c proof : List ℕ) (m : ClientManager Scale)
      → get text_discrete id (m.pending) ≡ some (at id cert salt (some key) (some s) (some c) none)
      → ecb_decrypt lib second key ≡ some commitment
      → rsa_sign lib s (m.server_private_key_pem) ≡ some proof
      → server_challenge_response lib id second m ≡ (
        put_pending id (at id cert salt (some key) (some s) (some c) (some commitment)) m,
        ok (s ++ proof),
      )
  unfolding server_challenge_response
  response_step id cert salt key second commitment s c proof m h opened signed =
      on_pending-some (responded lib (m.server_private_key_pem) second) id _ m h
      ∙ ap (λ (r : PendingClient Scale × Result (List ℕ)). (put_pending id (r.0) m, r.1))
          (responded-some (m.server_private_key_pem) id cert salt key second commitment s c proof
            opened signed)
