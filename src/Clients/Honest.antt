-- ===== src/Clients/Honest.antt =====
-- The whole handshake of a client that knows the PIN and holds the key of its certificate.
use redfog.Base.{ℕ, ◌≡◌, refl, true, none, some, List, ◌++◌, length, length-append, arith}
use redfog.Base.Text.{Text}
use redfog.Crypto.{
  Libraries, derive_key, cert_signature_bytes, cert_fingerprint, rsa_sign, rsa_verify, ecb_encrypt,
  ecb_decrypt,
}
use redfog.Crypto.Blocks.{IsBlockCipher, ecb_decrypt-ecb_encrypt}
use redfog.Clients.State.{ok, ClientManager, put_pending}
use redfog.Clients.Records.{is_paired_by_cert}
use redfog.Clients.Handshake.{
  finish_pairing, check_client_pairing_secret, start_pairing, submit_pin, client_challenge,
  server_challenge_response,
}
use redfog.Clients.Exchange.{
  IsDigest, IsKeyPair, get-put, at, submit_pin-start, proven-ok, finish_pairing-is_paired,
  check-some, challenge_step, response_step,
}

module _ (Scale : Type 0) (lib : Libraries) where
  -- What the five steps answer: the client reads the server's challenge out of the answer to its own, the
  -- server signs its secret, and at the end the client's fingerprint is paired.
  abbrev pub Pairs :
      (id cert pin private_key peer_ip fingerprint : Text)
      (salt challenge secret s c server_sig client_sig : List ℕ)
      → ClientManager Scale
      → Type 0
  Pairs id cert pin private_key peer_ip fingerprint salt challenge secret s c server_sig client_sig
        m =
      let key = derive_key lib salt pin in
      (keyed challenged_m responded_m paired_m : ClientManager Scale) × (first answer second proof
        signature : List ℕ)
      × (submit_pin lib id pin (start_pairing id cert salt m) ≡ (keyed, ok tt))
      × (ecb_encrypt lib challenge key ≡ some first)
      × (client_challenge lib id first s c keyed ≡ (challenged_m, ok answer))
      × (ecb_decrypt lib answer key ≡ some (lib.sha256 ((challenge ++ server_sig) ++ s) ++ c))
      × (ecb_encrypt lib (lib.sha256 ((c ++ client_sig) ++ secret)) key ≡ some second)
      × (server_challenge_response lib id second challenged_m ≡ (responded_m, ok (s ++ proof)))
      × (rsa_verify lib s proof (m.server_cert_pem) ≡ some tt)
      × (rsa_sign lib secret private_key ≡ some signature)
      × (check_client_pairing_secret lib id (secret ++ signature) peer_ip responded_m
          ≡ (paired_m, ok tt))
      × (is_paired_by_cert fingerprint paired_m ≡ true)

  -- A client that knows the PIN, holds the key of its certificate and does as the protocol says becomes
  -- paired by the fingerprint of its certificate, and can check the server's hash and signature on the way.
  -- The block cipher undoes itself, a digest has 32 bytes, both key pairs sign and verify, the certificates
  -- can be read, and challenges and secrets have 16 bytes.
  pub honest_client-Pairs :
      (id cert pin private_key peer_ip fingerprint : Text)
      (salt challenge secret s c server_sig client_sig : List ℕ) (m : ClientManager Scale)
      → IsDigest (lib.sha256)
      → IsBlockCipher
          (lib.encrypt_block (derive_key lib salt pin))
          (lib.decrypt_block (derive_key lib salt pin))
      → IsKeyPair lib (m.server_private_key_pem) (m.server_cert_pem)
      → IsKeyPair lib private_key cert
      → cert_signature_bytes lib (m.server_cert_pem) ≡ some server_sig
      → cert_signature_bytes lib cert ≡ some client_sig
      → cert_fingerprint lib cert ≡ some fingerprint
      → length challenge ≡ 16
      → length secret ≡ 16
      → length c ≡ 16
      → Pairs id cert pin private_key peer_ip fingerprint salt challenge secret s c server_sig
          client_sig m
  unfolding start_pairing put_pending finish_pairing
  honest_client-Pairs id cert pin private_key peer_ip fingerprint salt challenge secret s c
        server_sig client_sig m digest cipher server_keys client_keys h_server h_client h_fp
        l_challenge l_secret l_c =
      let key = derive_key lib salt pin in
      let m0 = start_pairing id cert salt m in
      let c1 = at Scale lib id cert salt (some key) none none none in
      let m1 = put_pending id c1 m0 in
      let c2 = at Scale lib id cert salt (some key) (some s) (some c) none in
      let m2 = put_pending id c2 m1 in
      let commitment = lib.sha256 ((c ++ client_sig) ++ secret) in
      let c3 = at Scale lib id cert salt (some key) (some s) (some c) (some commitment) in
      let m3 = put_pending id c3 m2 in
      let hash = lib.sha256 ((challenge ++ server_sig) ++ s) in
      let (first, sealed1, _, opened1) =
        ecb_decrypt-ecb_encrypt lib key challenge cipher (rw l_challenge refl) in
      let (answer, sealed2, _, opened2) =
        ecb_decrypt-ecb_encrypt lib key (hash ++ c) cipher
          (omega (arith, length-append hash c, digest ((challenge ++ server_sig) ++ s), l_c)) in
      let (second, sealed3, _, opened3) =
        ecb_decrypt-ecb_encrypt lib key commitment cipher
          (omega (arith, digest ((c ++ client_sig) ++ secret))) in
      let (proof, signed, verified) = server_keys s in
      let (signature, client_signed, client_verified) = client_keys secret in
      (
        m1,
        m2,
        m3,
        (finish_pairing peer_ip c3 m3 (ok fingerprint)).0,
        first,
        answer,
        second,
        proof,
        signature,
        submit_pin-start Scale lib id cert pin salt m,
        sealed1,
        challenge_step Scale lib id cert salt key first answer challenge server_sig s c m1
            (get-put Scale lib id c1 m0) opened1 h_server sealed2,
        opened2,
        sealed3,
        response_step Scale lib id cert salt key second commitment s c proof m2
            (get-put Scale lib id c2 m1) opened3 signed,
        verified,
        client_signed,
        check-some Scale lib id peer_ip fingerprint (secret ++ signature) c3 m3
            (get-put Scale lib id c3 m2)
            (proven-ok Scale lib id cert salt key s secret c client_sig signature fingerprint
              l_secret h_client client_verified h_fp),
        finish_pairing-is_paired Scale lib peer_ip fingerprint c3 m3,
      )
