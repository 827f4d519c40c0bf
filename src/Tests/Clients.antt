-- ===== src/Tests/Clients.antt =====
-- Pairing at concrete inputs, with a block cipher that adds one to every byte, a digest of the sum of the
-- bytes, and signatures that show the key.
use redfog.Base.{
  ℕ, ◌+◌, ◌-◌, ◌%◌, ◌≡◌, ◌≢◌, refl, false, none, some, List, [], ◌∷◌, ◌++◌, map, length-map, zeros,
  replicate, ◌∙◌, arith, get,
}
use redfog.Base.Text.{same_bytes, Text, text_discrete}
use redfog.Crypto.{
  Libraries, derive_key, cert_fingerprint, cert_fingerprint_der, cert_signature_bytes, rsa_sign,
  rsa_verify,
}
use redfog.Crypto.Blocks.{IsBlockCipher}
use redfog.Clients.State.{PairedEntry, ClientManager, ok, err, ClientError}
use redfog.Clients.Records.{resolve_fingerprint}
use redfog.Clients.Handshake.{start_pairing, check_client_pairing_secret}
use redfog.Clients.Loading.{LegacyPairedEntry, bare_fingerprint, with_scale, new}
use redfog.Base.Text.{same_bytes_self}
use redfog.Clients.Exchange.{IsDigest, IsKeyPair}
use redfog.Clients.Honest.{Pairs, honest_client-Pairs}
use redfog.Clients.Pin.{pairing_needs_pin}
use redfog.Clients.Proof.{Judged, pairing_is_proven}
use redfog.Clients.Saved.{IsSaved, served-IsSaved}
use redfog.Clients.Run.{start, pin, challenge, run}

abbrev pub sum : List ℕ → ℕ
sum [] = 0
sum (x ∷ xs) = x + sum xs

abbrev pub lib : Libraries
lib = record {
  sha256 = λ message. sum message % 256 ∷ zeros 31;
  encrypt_block = λ key. map (λ b. b + 1);
  decrypt_block = λ key. map (λ b. b - 1);
  parse_x509_pem = λ pem. some pem;
  signature_value = λ der. some der;
  subject_public_key = λ der. some der;
  from_pkcs8_pem = λ pem. some pem;
  sign = λ key digest. some (key ++ digest);
  verify = λ key digest signature. same_bytes (key ++ digest) signature;
  hex_encode = λ bytes. bytes;
}

back : (xs : List ℕ) → map (λ b. b - 1) (map (λ b. b + 1) xs) ≡ xs
back [] = refl
back (x ∷ xs) = let e : x + 1 - 1 ≡ x = omega arith in rw (e, back xs) refl

cipher_laws : (key : List ℕ) → IsBlockCipher (lib.encrypt_block key) (lib.decrypt_block key)
cipher_laws key block h = (length-map block (λ b. b + 1) ∙ h, back block)

lib-IsDigest : IsDigest (lib.sha256)
unfolding replicate
lib-IsDigest message = refl

key_pair : (pem : Text) → IsKeyPair lib pem pem
unfolding rsa_sign rsa_verify
key_pair pem message =
    let digest = lib.sha256 message in
    (pem ++ digest, refl, rw (same_bytes_self (pem ++ digest)) refl)

abbrev sixteen : ℕ → List ℕ
sixteen n = n ∷ zeros 15

abbrev pub entry : PairedEntry ℕ
entry = record {
  scale = some 150;
  scale_by_resolution = [];
  name = none;
  last_seen_ip = none;
  last_seen_resolution = none;
  seen_resolutions = [];
}

abbrev pub manager : ClientManager ℕ
manager = record {
  pending = [];
  paired_by_fingerprint = (97 ∷ 98 ∷ [], entry) ∷ (97 ∷ 99 ∷ [], entry) ∷ [];
  persisted = [];
  server_cert_pem = 1 ∷ [];
  server_private_key_pem = 1 ∷ [];
}

honest_client-Pairs_example :
    Pairs ℕ lib
      (7 ∷ [])
      (2 ∷ [])
      (49 ∷ 50 ∷ [])
      (2 ∷ [])
      (9 ∷ [])
      (2 ∷ zeros 31)
      (sixteen 3)
      (sixteen 4)
      (sixteen 5)
      (sixteen 6)
      (sixteen 8)
      (1 ∷ [])
      (2 ∷ [])
      manager
unfolding cert_signature_bytes cert_fingerprint cert_fingerprint_der replicate
honest_client-Pairs_example =
    honest_client-Pairs ℕ lib (7 ∷ []) (2 ∷ []) (49 ∷ 50 ∷ []) (2 ∷ []) (9 ∷ []) (2 ∷ zeros 31)
      (sixteen 3) (sixteen 4) (sixteen 5) (sixteen 6) (sixteen 8) (1 ∷ []) (2 ∷ []) manager
      lib-IsDigest (cipher_laws (derive_key lib (sixteen 3) (49 ∷ 50 ∷ []))) (key_pair (1 ∷ []))
      (key_pair (2 ∷ [])) refl refl refl refl refl refl

pairing_needs_pin_example :
    (e : ClientError) × (check_client_pairing_secret lib (7 ∷ []) (sixteen 5) (9 ∷ []) (
        run lib
          (challenge (7 ∷ []) (sixteen 4) (sixteen 6) (sixteen 8) ∷ pin (8 ∷ []) (49 ∷ []) ∷ [])
          (start_pairing (7 ∷ []) (2 ∷ []) (sixteen 3) manager))
      ≡ (
        run lib
            (challenge (7 ∷ []) (sixteen 4) (sixteen 6) (sixteen 8) ∷ pin (8 ∷ []) (49 ∷ []) ∷ [])
            (start_pairing (7 ∷ []) (2 ∷ []) (sixteen 3) manager),
        err e,
      ))
pairing_needs_pin_example =
    pairing_needs_pin lib (7 ∷ []) (2 ∷ []) (sixteen 3)
      (challenge (7 ∷ []) (sixteen 4) (sixteen 6) (sixteen 8) ∷ pin (8 ∷ []) (49 ∷ []) ∷ [])
      (sixteen 5) (9 ∷ []) manager (tt, (other, tt))
  where
    other : ◌≢◌ {A = Text} (8 ∷ []) (7 ∷ [])
    other h = cc h

pairing_is_proven_example :
    Judged lib
      (7 ∷ [])
      (sixteen 5)
      (9 ∷ [])
      manager
      (check_client_pairing_secret lib (7 ∷ []) (sixteen 5) (9 ∷ []) manager)
pairing_is_proven_example = pairing_is_proven lib (7 ∷ []) (sixteen 5) (9 ∷ []) manager

abbrev resolved :
    resolve_fingerprint (97 ∷ 99 ∷ []) (manager.paired_by_fingerprint) ≡ ok (97 ∷ 99 ∷ [])
unfolding resolve_fingerprint get text_discrete
resolved = refl

abbrev old_file : List (LegacyPairedEntry ℕ)
old_file = bare_fingerprint (97 ∷ 98 ∷ []) ∷ with_scale (99 ∷ []) (some 175) [] ∷ []

served-IsSaved_example : IsSaved (
    run lib
      (start (7 ∷ []) (2 ∷ []) (sixteen 3) ∷ pin (7 ∷ []) (49 ∷ []) ∷ [])
      (new (λ (raw : ℕ). false) (λ raw. none) (λ raw. some old_file) (some 0) (1 ∷ []) (1 ∷ [])))
served-IsSaved_example =
    served-IsSaved lib (λ (raw : ℕ). false) (λ raw. none) (λ raw. some old_file) (some 0) (1 ∷ [])
      (1 ∷ []) (start (7 ∷ []) (2 ∷ []) (sixteen 3) ∷ pin (7 ∷ []) (49 ∷ []) ∷ [])

-- Two devices of the older shapes, one of them with a scale.
abbrev legacy_file : List (LegacyPairedEntry ℕ)
legacy_file = bare_fingerprint (222 ∷ 173 ∷ []) ∷ with_scale (190 ∷ 239 ∷ []) (some 2) [] ∷ []
