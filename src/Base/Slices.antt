-- ===== src/Base/Slices.antt =====
-- Slices of a buffer: reading one, and `copy_from_slice` into one. Both panic out of range.
use Prim.Native.Nat.{ℕ, zero, suc, ◌+◌, ◌-◌, ◌≤◌, min}
use mathlib.Core.Path.{◌≡◌, refl, ap, ◌∙◌}
use mathlib.Core.Bool.{◌&&◌}
use mathlib.Core.List.{List, [], ◌∷◌, ◌++◌, append-nil}
use native.Mathlib.Omega.{arith}
use redfog.Base.Tests.{leb, ◌==◌, if◌then◌else◌, le→leb, eq→==}
use redfog.Base.Lists.{length, take, drop, copy_at, copy_at-after, length-drop, drop-all}
use redfog.Base.Outcome.{Outcome, returns, panics}

module _ {ℓ} {A : Type ℓ} where
  pub drop-append_le :
      (n : ℕ) (xs ys : List A) → n ≤ length xs → drop n (xs ++ ys) ≡ drop n xs ++ ys
  drop-append_le zero xs ys h = refl
  drop-append_le (suc n) [] ys h = absurd (omega arith)
  drop-append_le (suc n) (x ∷ xs) ys h = drop-append_le n xs ys (omega arith)

  pub drop-append_ge :
      (n : ℕ) (xs ys : List A) → length xs ≤ n → drop n (xs ++ ys) ≡ drop (n - length xs) ys
  drop-append_ge n [] ys h = let e : n - 0 ≡ n = omega arith in rw e
  drop-append_ge zero (x ∷ xs) ys h = absurd (omega arith)
  drop-append_ge (suc n) (x ∷ xs) ys h =
      let e : suc n - suc (length xs) ≡ n - length xs = omega arith in
      rw e (drop-append_ge n xs ys (omega arith))

  pub take-append_le : (n : ℕ) (xs ys : List A) → n ≤ length xs → take n (xs ++ ys) ≡ take n xs
  take-append_le zero xs ys h = refl
  take-append_le (suc n) [] ys h = absurd (omega arith)
  take-append_le (suc n) (x ∷ xs) ys h = ap (◌∷◌ x) (take-append_le n xs ys (omega arith))

  pub take-append_ge :
      (n : ℕ) (xs ys : List A) → length xs ≤ n → take n (xs ++ ys) ≡ xs ++ take (n - length xs) ys
  take-append_ge n [] ys h = let e : n - 0 ≡ n = omega arith in rw e
  take-append_ge zero (x ∷ xs) ys h = absurd (omega arith)
  take-append_ge (suc n) (x ∷ xs) ys h =
      let e : suc n - suc (length xs) ≡ n - length xs = omega arith in
      rw e (ap (◌∷◌ x) (take-append_ge n xs ys (omega arith)))

  pub take-min : (n : ℕ) (xs : List A) → take (min n (length xs)) xs ≡ take n xs
  take-min zero xs = let e : min 0 (length xs) ≡ 0 = omega arith in rw e
  take-min (suc n) [] = let e : min (suc n) 0 ≡ 0 = omega arith in rw e
  take-min (suc n) (x ∷ xs) =
      let e : min (suc n) (suc (length xs)) ≡ suc (min n (length xs)) = omega arith in
      rw e (ap (◌∷◌ x) (take-min n xs))

  pub copy_at-zero :
      (src buf : List A)
      → length src ≤ length buf
      → copy_at 0 src buf ≡ src ++ drop (length src) buf
  copy_at-zero [] buf h = refl
  copy_at-zero (x ∷ xs) [] h = absurd (omega arith)
  copy_at-zero (x ∷ xs) (b ∷ bs) h = ap (◌∷◌ x) (copy_at-zero xs bs (omega arith))

  -- `&xs[from..to]`.
  unfoldable pub slice : List A → ℕ → ℕ → Outcome (List A)
  slice xs from to =
      if leb from to && leb to (length xs)
      then returns (take (to - from) (drop from xs))
      else panics

  -- `dst[from..to].copy_from_slice(src)`: the ranges and the two lengths must agree.
  unfoldable pub copy_into : List A → ℕ → ℕ → List A → Outcome (List A)
  copy_into dst from to src =
      if leb from to && leb to (length dst) && (length src == to - from)
      then returns (copy_at from src dst)
      else panics

  pub slice_lem :
      (xs : List A) (from to : ℕ)
      → from ≤ to
      → to ≤ length xs
      → slice xs from to ≡ returns (take (to - from) (drop from xs))
  unfolding slice
  slice_lem xs from to h k = rw (le→leb from to h, le→leb to (length xs) k)

  pub copy_into_lem :
      (dst : List A) (from to : ℕ) (src : List A)
      → from + length src ≡ to
      → to ≤ length dst
      → copy_into dst from to src ≡ returns (copy_at from src dst)
  unfolding copy_into
  copy_into_lem dst from to src h k = rw (
    le→leb from to (omega arith),
    le→leb to (length dst) k,
    eq→== (length src) (to - from) (omega arith),
  )

  -- A write over a whole buffer leaves what was written.
  pub copy_at-all : (src buf : List A) → length src ≡ length buf → copy_at 0 src buf ≡ src
  copy_at-all src buf h =
      copy_at-zero src buf (omega arith)
      ∙ ap (◌++◌ src) (drop-all (length src) buf (omega arith))
      ∙ append-nil src

  -- Two writes, one behind the other, that fill a buffer.
  pub copy_at_twice :
      (a b buf : List A)
      → length a + length b ≡ length buf
      → copy_at (length a) b (copy_at 0 a buf) ≡ a ++ b
  copy_at_twice a b buf h =
      let rest : List A = drop (length a) buf in
      let e : length a ≡ length a + 0 = omega arith in
      ap (copy_at (length a) b) (copy_at-zero a buf (omega arith))
      ∙ ap (λ (n : ℕ). copy_at n b (a ++ rest)) e
      ∙ copy_at-after 0 b a rest
      ∙ ap (◌++◌ a) (copy_at-all b rest (omega (arith, length-drop (length a) buf)))
