-- ===== src/Crypto.antt =====
-- crates/redfog-moonlight/src/crypto.rs: the key of a PIN, AES-128 block by block, and what pairing takes
-- from a certificate. The ciphers, SHA-256, RSA, X.509 and hexadecimal are those of other crates: a
-- record of functions, where `none` is an error.
pub mod Blocks
use redfog.Base.{
  ℕ, zero, suc, ◌/◌, ◌%◌, ◌==◌, if◌then◌else◌, Bool, Option, none, some, ◌>>=◌, List, [], ◌++◌,
  length, take, drop,
}
use redfog.Base.Text.{Text}

-- The parts of other crates that the wrappers call. Keys and certificates are texts.
pub record Libraries : Type 0 where
  pub sha256 : List ℕ → List ℕ
  pub encrypt_block : List ℕ → List ℕ → List ℕ
  pub decrypt_block : List ℕ → List ℕ → List ℕ
  pub parse_x509_pem : Text → Option (List ℕ)
  pub signature_value : List ℕ → Option (List ℕ)
  pub subject_public_key : List ℕ → Option (List ℕ)
  pub from_pkcs8_pem : Text → Option (List ℕ)
  pub sign : List ℕ → List ℕ → Option (List ℕ)
  pub verify : List ℕ → List ℕ → List ℕ → Bool
  pub hex_encode : List ℕ → Text

-- `chunks_mut(16)` of a buffer of that many blocks, each one encrypted or decrypted.
unfoldable pub each_block : (List ℕ → List ℕ) → ℕ → List ℕ → List ℕ
each_block f zero buf = []
each_block f (suc blocks) buf = f (take 16 buf) ++ each_block f blocks (drop 16 buf)

module _ (lib : Libraries) where
  unfoldable pub derive_key : List ℕ → Text → List ℕ
  derive_key salt pin = take 16 (lib.sha256 (salt ++ pin))

  unfoldable pub ecb_encrypt : List ℕ → List ℕ → Option (List ℕ)
  unfolding each_block
  ecb_encrypt plain key =
      if length plain % 16 == 0
      then some (each_block (lib.encrypt_block key) (length plain / 16) plain)
      else none

  unfoldable pub ecb_decrypt : List ℕ → List ℕ → Option (List ℕ)
  unfolding each_block
  ecb_decrypt cipher key =
      if length cipher % 16 == 0
      then some (each_block (lib.decrypt_block key) (length cipher / 16) cipher)
      else none

  unfoldable pub cert_signature_bytes : Text → Option (List ℕ)
  cert_signature_bytes pem = lib.parse_x509_pem pem >>= (λ der. lib.signature_value der)

  unfoldable pub cert_fingerprint_der : List ℕ → Text
  cert_fingerprint_der der = lib.hex_encode (lib.sha256 der)

  unfoldable pub cert_fingerprint : Text → Option Text
  unfolding cert_fingerprint_der
  cert_fingerprint pem = lib.parse_x509_pem pem >>= (λ der. some (cert_fingerprint_der der))

  unfoldable pub rsa_sign : List ℕ → Text → Option (List ℕ)
  rsa_sign message private_key_pem =
      lib.from_pkcs8_pem private_key_pem >>= (λ key. lib.sign key (lib.sha256 message))

  -- `some` is the answer `Ok(())`.
  unfoldable pub rsa_verify : List ℕ → List ℕ → Text → Option (Unit {0})
  rsa_verify message signature cert_pem =
      lib.parse_x509_pem cert_pem
      >>= (λ der. lib.subject_public_key der)
      >>= (λ key. if lib.verify key (lib.sha256 message) signature then some tt else none)
