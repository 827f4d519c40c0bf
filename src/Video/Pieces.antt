-- ===== src/Video/Pieces.antt =====
-- The pieces of a byte sequence, put together again, are the sequence and a filling of zeros.
use redfog.Base.{
  ℕ, zero, suc, ◌+◌, ◌-◌, ◌*◌, ◌≤◌, ◌≡◌, ap, sym, ◌∙◌, List, [], ◌∷◌, ◌++◌, concat, length, take,
  drop, zeros, drop-drop, take-append-drop, length-take, length-drop, length-append, length-zeros,
  replicate-add, take-all, drop-all, append-nil, append_assoc, arith, dec_le, nil_of_length,
  replicate-eq-nil,
}
use redfog.Video.Shards.{piece}

unfoldable pub pieces : ℕ → List ℕ → ℕ → ℕ → List (List ℕ)
pieces size bytes zero i = []
pieces size bytes (suc rounds) i = piece size bytes i ∷ pieces size bytes rounds (i + 1)

module _ (size : ℕ) (bytes : List ℕ) where
  pub length-piece : (i : ℕ) → length (piece size bytes i) ≡ size
  unfolding piece
  length-piece i =
      let part : List ℕ = take size (drop (i * size) bytes) in
      omega (
        arith,
        length-append part (zeros (size - length part)),
        length-zeros (size - length part),
        length-take size (drop (i * size) bytes),
      )

  abbrev from : ℕ → List ℕ
  from i = drop (i * size) bytes

  from_next : (i : ℕ) → from (i + 1) ≡ drop size (from i)
  from_next i =
      let e : (i + 1) * size ≡ i * size + size = omega arith in
      ap (λ (n : ℕ). drop n bytes) e ∙ sym (drop-drop size (i * size) bytes)

  whole :
      (xs : List ℕ) (rounds : ℕ)
      → size ≤ length xs
      → (take size xs ++ zeros (size - length (take size xs)))
          ++ (drop size xs ++ zeros (rounds * size - (length xs - size)))
        ≡ xs ++ zeros (suc rounds * size - length xs)
  whole xs rounds h =
      let full : zeros (size - length (take size xs)) ≡ [] =
        replicate-eq-nil (size - length (take size xs)) 0 (omega (arith, length-take size xs)) in
      let n : rounds * size - (length xs - size) ≡ suc rounds * size - length xs = omega arith in
      rw (full, n, append-nil (take size xs), ← append_assoc, take-append-drop size xs)

  last :
      (xs : List ℕ) (rounds : ℕ)
      → length xs ≤ size
      → (take size xs ++ zeros (size - length (take size xs)))
          ++ (drop size xs ++ zeros (rounds * size - (length xs - size)))
        ≡ xs ++ zeros (suc rounds * size - length xs)
  last xs rounds h =
      let none_left : drop size xs ≡ [] = drop-all size xs h in
      let all : take size xs ≡ xs = take-all size xs h in
      let n : suc rounds * size - length xs
          ≡ size - length xs + (rounds * size - (length xs - size)) =
        omega arith in
      rw (
        none_left,
        all,
        append_assoc,
        n,
        replicate-add {A = ℕ} (size - length xs) (rounds * size - (length xs - size)) 0,
      )

  pub concat-pieces :
      (rounds i : ℕ)
      → length (from i) ≤ rounds * size
      → concat (pieces size bytes rounds i) ≡ from i ++ zeros (rounds * size - length (from i))
  unfolding pieces piece
  concat-pieces zero i h =
      let empty : from i ≡ [] = nil_of_length (from i) (omega arith) in
      rw empty (sym (replicate-eq-nil (0 * size - 0) 0 (omega arith)))
  concat-pieces (suc rounds) i h =
      let xs : List ℕ = from i in
      let rest : ℕ → List ℕ = λ n. zeros n in
      let after : concat (pieces size bytes rounds (i + 1))
          ≡ drop size xs ++ rest (rounds * size - (length xs - size)) =
        concat-pieces rounds (i + 1)
          (omega (arith, ap (λ (l : List ℕ). length l) (from_next i), length-drop size xs))
        ∙ ap (λ (l : List ℕ). l ++ rest (rounds * size - length l)) (from_next i)
        ∙ ap (λ (n : ℕ). drop size xs ++ rest (rounds * size - n)) (length-drop size xs) in
      rw after (elim (dec_le size (length xs)) [
        | yes k ↦ whole xs rounds k
        | no k ↦ last xs rounds (omega arith)
      ])
