-- ===== src/Crypto/Blocks.antt =====
-- What block by block encryption keeps: the length, and with the right key the message.
use redfog.Base.{
  ℕ, zero, suc, ◌*◌, ◌/◌, ◌%◌, ◌≡◌, refl, ap, ◌==◌, eq→==, true, some, List, ◌++◌, length, subst,
  take, drop, length-append, length-take, length-drop, take-append, drop-append, take-append-drop,
  arith, nil_of_length, sym,
}
use redfog.Crypto.{Libraries, each_block, ecb_encrypt, ecb_decrypt}

-- What AES-128 promises of one key: blocks stay blocks, and decryption undoes encryption.
abbrev pub IsBlockCipher : (List ℕ → List ℕ) → (List ℕ → List ℕ) → Type 0
IsBlockCipher encrypt decrypt =
    (block : List ℕ)
    → length block ≡ 16
    → (length (encrypt block) ≡ 16) × (decrypt (encrypt block) ≡ block)

module _ (encrypt decrypt : List ℕ → List ℕ) (laws : IsBlockCipher encrypt decrypt) where
  length-each_block :
      (n : ℕ) (buf : List ℕ) → length buf ≡ n * 16 → length (each_block encrypt n buf) ≡ n * 16
  unfolding each_block
  length-each_block zero buf h = refl
  length-each_block (suc n) buf h =
      let first : length (take 16 buf) ≡ 16 = omega (arith, length-take 16 buf) in
      let rest : length (drop 16 buf) ≡ n * 16 = omega (arith, length-drop 16 buf) in
      omega (
        arith,
        length-append (encrypt (take 16 buf)) (each_block encrypt n (drop 16 buf)),
        laws (take 16 buf) first,
        length-each_block n (drop 16 buf) rest,
      )

  each_block-each_block :
      (n : ℕ) (buf : List ℕ)
      → length buf ≡ n * 16
      → each_block decrypt n (each_block encrypt n buf) ≡ buf
  unfolding each_block
  each_block-each_block zero buf h = sym (nil_of_length buf (omega arith))
  each_block-each_block (suc n) buf h =
      let first : length (take 16 buf) ≡ 16 = omega (arith, length-take 16 buf) in
      let rest : length (drop 16 buf) ≡ n * 16 = omega (arith, length-drop 16 buf) in
      let one = laws (take 16 buf) first in
      let e : take 16 (encrypt (take 16 buf) ++ each_block encrypt n (drop 16 buf))
          ≡ encrypt (take 16 buf) =
        split_take (encrypt (take 16 buf)) (each_block encrypt n (drop 16 buf)) one.0 in
      let e' : drop 16 (encrypt (take 16 buf) ++ each_block encrypt n (drop 16 buf))
          ≡ each_block encrypt n (drop 16 buf) =
        split_drop (encrypt (take 16 buf)) (each_block encrypt n (drop 16 buf)) one.0 in
      rw (e, e', one.1, each_block-each_block n (drop 16 buf) rest) (take-append-drop 16 buf)
    where
      split_take : (xs ys : List ℕ) → length xs ≡ 16 → take 16 (xs ++ ys) ≡ xs
      split_take xs ys k = subst (λ (i : ℕ). take i (xs ++ ys) ≡ xs) k (take-append xs ys)

      split_drop : (xs ys : List ℕ) → length xs ≡ 16 → drop 16 (xs ++ ys) ≡ ys
      split_drop xs ys k = subst (λ (i : ℕ). drop i (xs ++ ys) ≡ ys) k (drop-append xs ys)

-- With a key whose cipher restores every block, what `ecb_encrypt` makes of whole blocks decrypts to
-- the message, and has its length.
pub ecb_decrypt-ecb_encrypt :
    (lib : Libraries) (key plain : List ℕ)
    → IsBlockCipher (lib.encrypt_block key) (lib.decrypt_block key)
    → length plain % 16 ≡ 0
    → (cipher : List ℕ) × (ecb_encrypt lib plain key ≡ some cipher)
      × (length cipher ≡ length plain)
      × (ecb_decrypt lib cipher key ≡ some plain)
unfolding ecb_encrypt ecb_decrypt
ecb_decrypt-ecb_encrypt lib key plain laws h =
    let n : ℕ = length plain / 16 in
    let whole : length plain ≡ n * 16 = omega arith in
    let cipher : List ℕ = each_block (lib.encrypt_block key) n plain in
    let long : length cipher ≡ n * 16 =
      length-each_block (lib.encrypt_block key) (lib.decrypt_block key) laws n plain whole in
    let test : (length plain % 16 == 0) ≡ true = eq→== (length plain % 16) 0 h in
    let test' : (length cipher % 16 == 0) ≡ true = eq→== (length cipher % 16) 0 (omega arith) in
    let count : length cipher / 16 ≡ n = omega arith in
    let back =
      each_block-each_block (lib.encrypt_block key) (lib.decrypt_block key) laws n plain whole in
    (cipher, rw test refl, omega arith, rw (test', count) (ap some back))
