-- ===== src/Base/Reads.antt =====
-- Reads of a byte buffer at a fixed place, which panic out of range, and the code that never does.
use Prim.Native.Nat.{ℕ, ◌+◌, ◌*◌, ◌≤◌, ◌<◌, zero, suc}
use mathlib.Core.Path.{◌≡◌, refl}
use mathlib.Core.Bool.{Bool, true, false}
use mathlib.Core.List.{List, [], ◌∷◌}
use native.Mathlib.Omega.{arith}
use redfog.Base.Tests.{if◌then◌else◌}
use redfog.Base.Lists.{length, get_elem?}
use redfog.Base.Bytes.{of_le_u16, of_be_u16, of_le_u32, of_be_u32}
use redfog.Base.Slices.{slice, slice_lem}
use redfog.Base.Outcome.{Outcome, returns, panics, ◌>>=◌, expect}

-- `buf[i]`.
abbrev pub index {ℓ} : {A : Type ℓ} → List A → ℕ → Outcome A
index xs i = expect (get_elem? xs i)

-- `u16::from_le_bytes(buf[i..i + 2])` and the like.
unfoldable pub le_u16_at : List ℕ → ℕ → Outcome ℕ
le_u16_at buf i = do a ← index buf i; b ← index buf (i + 1); returns (of_le_u16 a b)

unfoldable pub be_u16_at : List ℕ → ℕ → Outcome ℕ
be_u16_at buf i = do a ← index buf i; b ← index buf (i + 1); returns (of_be_u16 a b)

unfoldable pub le_u32_at : List ℕ → ℕ → Outcome ℕ
le_u32_at buf i = do
  a ← index buf i
  b ← index buf (i + 1)
  c ← index buf (i + 2)
  d ← index buf (i + 3)
  returns (of_le_u32 a b c d)

unfoldable pub be_u32_at : List ℕ → ℕ → Outcome ℕ
be_u32_at buf i = do
  a ← index buf i
  b ← index buf (i + 1)
  c ← index buf (i + 2)
  d ← index buf (i + 3)
  returns (of_be_u32 a b c d)

unfoldable pub le_u64_at : List ℕ → ℕ → Outcome ℕ
unfolding le_u32_at
le_u64_at buf i = do
  low ← le_u32_at buf i
  high ← le_u32_at buf (i + 4)
  returns (low + high * 4294967296)

-- The code returns, whatever it returns.
abbrev pub Returns {ℓ} : {A : Type ℓ} → Outcome A → Type ℓ
Returns {A = A} m = (a : A) × (m ≡ returns a)

pub bind-Returns {ℓ κ} :
    {A : Type ℓ} {B : Type κ} (m : Outcome A) (f : A → Outcome B)
    → Returns m
    → ((a : A) → Returns (f a))
    → Returns (m >>= f)
bind-Returns (returns a) f h k = k a
bind-Returns panics f h k = absurd (cc (h.1))

-- Code under a test, whose branches may rely on its answer.
pub if-Returns {ℓ} :
    {A : Type ℓ} (c : Bool) (x y : Outcome A)
    → ((c ≡ true) → Returns x)
    → ((c ≡ false) → Returns y)
    → Returns (if c then x else y)
if-Returns true x y h k = h refl
if-Returns false x y h k = k refl

pub index-Returns {ℓ} : {A : Type ℓ} (xs : List A) (i : ℕ) → i < length xs → Returns (index xs i)
index-Returns [] i h = absurd (omega arith)
index-Returns (x ∷ xs) zero h = (x, refl)
index-Returns (x ∷ xs) (suc i) h = index-Returns xs i (omega arith)

pub slice-Returns {ℓ} :
    {A : Type ℓ} (xs : List A) (from to : ℕ)
    → from ≤ to
    → to ≤ length xs
    → Returns (slice xs from to)
slice-Returns xs from to h k = (_, slice_lem xs from to h k)

pub le_u16_at-Returns : (buf : List ℕ) (i : ℕ) → i + 2 ≤ length buf → Returns (le_u16_at buf i)
unfolding le_u16_at
le_u16_at-Returns buf i h = bind-Returns (index buf i) _ (index-Returns buf i (omega arith)) (λ a.
    bind-Returns (index buf (i + 1)) _ (index-Returns buf (i + 1) (omega arith)) (λ b. (_, refl)))

pub be_u16_at-Returns : (buf : List ℕ) (i : ℕ) → i + 2 ≤ length buf → Returns (be_u16_at buf i)
unfolding be_u16_at
be_u16_at-Returns buf i h = bind-Returns (index buf i) _ (index-Returns buf i (omega arith)) (λ a.
    bind-Returns (index buf (i + 1)) _ (index-Returns buf (i + 1) (omega arith)) (λ b. (_, refl)))

module _ {A : Type 0} (f : ℕ → ℕ → ℕ → ℕ → Outcome A) where
  pub four-Returns :
      (buf : List ℕ) (i : ℕ)
      → i + 4 ≤ length buf
      → ((a b c d : ℕ) → Returns (f a b c d))
      → Returns (
          index buf i >>= (λ a.
            index buf (i + 1)
            >>= (λ b. index buf (i + 2) >>= (λ c. index buf (i + 3) >>= (λ d. f a b c d)))))
  four-Returns buf i h k = bind-Returns (index buf i) _ (index-Returns buf i (omega arith)) (λ a.
      bind-Returns (index buf (i + 1)) _ (index-Returns buf (i + 1) (omega arith)) (λ b.
        bind-Returns (index buf (i + 2)) _ (index-Returns buf (i + 2) (omega arith)) (λ c.
          bind-Returns (index buf (i + 3)) _ (index-Returns buf (i + 3) (omega arith))
            (λ d. k a b c d))))

pub le_u32_at-Returns : (buf : List ℕ) (i : ℕ) → i + 4 ≤ length buf → Returns (le_u32_at buf i)
unfolding le_u32_at
le_u32_at-Returns buf i h =
    four-Returns (λ a b c d. returns (of_le_u32 a b c d)) buf i h (λ a b c d. (_, refl))

pub be_u32_at-Returns : (buf : List ℕ) (i : ℕ) → i + 4 ≤ length buf → Returns (be_u32_at buf i)
unfolding be_u32_at
be_u32_at-Returns buf i h =
    four-Returns (λ a b c d. returns (of_be_u32 a b c d)) buf i h (λ a b c d. (_, refl))

pub le_u64_at-Returns : (buf : List ℕ) (i : ℕ) → i + 8 ≤ length buf → Returns (le_u64_at buf i)
unfolding le_u64_at
le_u64_at-Returns buf i h =
    bind-Returns (le_u32_at buf i) _ (le_u32_at-Returns buf i (omega arith)) (λ low.
      bind-Returns (le_u32_at buf (i + 4)) _ (le_u32_at-Returns buf (i + 4) (omega arith))
        (λ high. (_, refl)))
