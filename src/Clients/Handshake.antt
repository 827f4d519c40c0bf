-- ===== src/Clients/Handshake.antt =====
-- The steps of the pairing handshake. The random secrets are arguments; a step works on the pending client
-- of an id, whose fields keep what was written before a later error.
use redfog.Base.{ℕ, if◌then◌else◌, ltb, none, some, List, [], ◌++◌, length, take, drop, get, insert}
use redfog.Base.Text.{same_bytes, Text, text_discrete}
use redfog.Crypto.{
  Libraries, derive_key, ecb_encrypt, ecb_decrypt, cert_signature_bytes, cert_fingerprint, rsa_sign,
  rsa_verify,
}
use redfog.Clients.State.{
  no_pending_client, no_key_yet, invalid_crypto, no_server_secret, secret_too_short, no_client_hash,
  no_server_challenge, client_hash_mismatch, Result, ok, err, ◌>>=◌, ok_or, PendingClient,
  PairedEntry, ClientManager, persist, put_pending,
}
use redfog.Clients.Records.{change_pending}

module _ (lib : Libraries) where
  -- The answer to a challenge, when the client's secrets are drawn.
  unfoldable pub challenge_answer : Text → List ℕ → List ℕ → List ℕ → List ℕ → Result (List ℕ)
  unfolding cert_signature_bytes ecb_encrypt
  challenge_answer server_cert_pem key client_challenge server_secret server_challenge = do
    signature ← ok_or invalid_crypto (cert_signature_bytes lib server_cert_pem)
    let hash = lib.sha256 ((client_challenge ++ signature) ++ server_secret)
    ok_or invalid_crypto (ecb_encrypt lib (hash ++ server_challenge) key)

module _ {Scale : Type 0} where
  unfoldable pub fresh_client : Text → Text → List ℕ → PendingClient Scale
  fresh_client unique_id client_cert_pem salt = record {
    unique_id = unique_id;
    client_cert_pem = client_cert_pem;
    salt = salt;
    key = none;
    server_secret = none;
    server_challenge = none;
    client_hash = none;
    scale = none;
    scale_by_resolution = [];
    name = none;
  }

  -- Step 1. A client that was pending under the id is replaced.
  unfoldable pub start_pairing : Text → Text → List ℕ → ClientManager Scale → ClientManager Scale
  unfolding put_pending fresh_client
  start_pairing unique_id client_cert_pem salt m =
      put_pending unique_id (fresh_client unique_id client_cert_pem salt) m

  -- A step on the pending client of an id.
  unfoldable pub on_pending :
      {A : Type 0}
      → (PendingClient Scale → PendingClient Scale × Result A)
      → Text
      → ClientManager Scale
      → ClientManager Scale × Result A
  unfolding get put_pending
  on_pending step unique_id m = elim (get text_discrete unique_id (m.pending)) [
    | none ↦ (m, err no_pending_client)
    | some client ↦ (put_pending unique_id ((step client).0) m, (step client).1)
  ]

  unfoldable pub paired_entry : Text → PendingClient Scale → PairedEntry Scale
  paired_entry peer_ip client = record {
    scale = client.scale;
    scale_by_resolution = client.scale_by_resolution;
    name = client.name;
    last_seen_ip = some peer_ip;
    last_seen_resolution = none;
    seen_resolutions = [];
  }

  unfoldable pub finish_pairing :
      Text
      → PendingClient Scale
      → ClientManager Scale
      → Result Text
      → ClientManager Scale × Result (Unit {0})
  unfolding persist insert paired_entry
  finish_pairing peer_ip client m (err e) = (m, err e)
  finish_pairing peer_ip client m (ok fingerprint) = (
    persist
        (insert text_discrete fingerprint (paired_entry peer_ip client) (m.paired_by_fingerprint))
        m,
    ok tt,
  )

  module _ (lib : Libraries) where
    unfoldable pub submit_pin :
        Text → Text → ClientManager Scale → ClientManager Scale × Result (Unit {0})
    unfolding change_pending derive_key
    submit_pin unique_id pin m =
        change_pending (λ client. record client { key = some (derive_key lib (client.salt) pin) })
          unique_id m

    -- Step 2, on the pending client.
    unfoldable pub challenged :
        Text
        → List ℕ
        → List ℕ
        → List ℕ
        → PendingClient Scale
        → PendingClient Scale × Result (List ℕ)
    unfolding challenge_answer ecb_decrypt
    challenged server_cert_pem challenge server_secret server_challenge client = elim client.key [
      | none ↦ (client, err no_key_yet)
      | some key ↦ elim (ecb_decrypt lib challenge key) [
        | none ↦ (client, err invalid_crypto)
        | some client_challenge ↦ (
          record client {
            server_secret = some server_secret;
            server_challenge = some server_challenge;
          },
          challenge_answer lib server_cert_pem key client_challenge server_secret server_challenge,
        )
      ]
    ]

    -- Step 3, on the pending client.
    unfoldable pub responded :
        Text → List ℕ → PendingClient Scale → PendingClient Scale × Result (List ℕ)
    unfolding ecb_decrypt rsa_sign
    responded server_private_key_pem response client = elim client.key [
      | none ↦ (client, err no_key_yet)
      | some key ↦ elim (ecb_decrypt lib response key) [
        | none ↦ (client, err invalid_crypto)
        | some hash ↦ (
          record client { client_hash = some hash },
          do
            server_secret ← ok_or no_server_secret (client.server_secret)
            signature ← ok_or invalid_crypto (rsa_sign lib server_secret server_private_key_pem)
            ok (server_secret ++ signature),
        )
      ]
    ]

    unfoldable pub client_challenge :
        Text
        → List ℕ
        → List ℕ
        → List ℕ
        → ClientManager Scale
        → ClientManager Scale × Result (List ℕ)
    unfolding on_pending challenged
    client_challenge unique_id challenge server_secret server_challenge m =
        on_pending (challenged (m.server_cert_pem) challenge server_secret server_challenge)
          unique_id m

    unfoldable pub server_challenge_response :
        Text → List ℕ → ClientManager Scale → ClientManager Scale × Result (List ℕ)
    unfolding on_pending responded
    server_challenge_response unique_id response m =
        on_pending (responded (m.server_private_key_pem) response) unique_id m

    -- What step 5 checks of the client's secret; the answer is the fingerprint of its certificate.
    unfoldable pub proven : List ℕ → PendingClient Scale → Result Text
    unfolding cert_signature_bytes rsa_verify cert_fingerprint text_discrete
    proven client_secret client = if ltb (length client_secret) 16 then err secret_too_short else do
      client_hash ← ok_or no_client_hash (client.client_hash)
      server_challenge ← ok_or no_server_challenge (client.server_challenge)
      signature ← ok_or invalid_crypto (cert_signature_bytes lib (client.client_cert_pem))
      let expected = lib.sha256 ((server_challenge ++ signature) ++ take 16 client_secret)
      checked ← if same_bytes expected client_hash then ok tt else err client_hash_mismatch
      verified ←
          ok_or invalid_crypto (
            rsa_verify lib (take 16 client_secret) (drop 16 client_secret) (client.client_cert_pem))
      ok_or invalid_crypto (cert_fingerprint lib (client.client_cert_pem))

    -- Step 5. The client stays pending.
    unfoldable pub check_client_pairing_secret :
        Text → List ℕ → Text → ClientManager Scale → ClientManager Scale × Result (Unit {0})
    unfolding get proven finish_pairing
    check_client_pairing_secret unique_id client_secret peer_ip m =
        elim (get text_discrete unique_id (m.pending)) [
          | none ↦ (m, err no_pending_client)
          | some client ↦ finish_pairing peer_ip client m (proven client_secret client)
        ]
