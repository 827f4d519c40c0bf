-- ===== src/Base/Text.antt =====
-- Texts: the bytes of a string, the decision whether two are equal, and the test that one starts with
-- another.
use Prim.Native.Char.{code}
use Prim.Native.Nat.{ℕ}
use Prim.Native.String.{String}
use mathlib.Core.Path.{◌≡◌, refl}
use mathlib.Core.Bool.{Bool, true, false, ◌&&◌}
use mathlib.Core.List.{List, [], ◌∷◌}
use native.Mathlib.Decide.{ℕ_discrete}
use redfog.Base.Tests.{◌==◌}

abbrev pub Text : Type 0
Text = List ℕ

-- The bytes of an ASCII literal.
abbrev pub codes : String → Text
codes String.[] = []
codes (String.◌∷◌ c s) = code c ∷ codes s

cons_dec :
    (x y : ℕ) (xs ys : Text) → Dec (x ≡ y) → Dec (xs ≡ ys) → Dec (◌≡◌ {A = Text} (x ∷ xs) (y ∷ ys))
cons_dec x y xs ys (yes p) (yes q) = yes (cc (p, q))
cons_dec x y xs ys (yes p) (no q) = no (λ h. q (cc h))
cons_dec x y xs ys (no p) d = no (λ h. p (cc h))

unfoldable pub text_discrete : Discrete Text
unfolding cons_dec ℕ_discrete
text_discrete [] [] = yes refl
text_discrete [] (y ∷ ys) = no (λ h. cc h)
text_discrete (x ∷ xs) [] = no (λ h. cc h)
text_discrete (x ∷ xs) (y ∷ ys) = cons_dec x y xs ys (ℕ_discrete x y) (text_discrete xs ys)

-- `str::starts_with`.
abbrev pub starts_with : Text → Text → Bool
starts_with text [] = true
starts_with [] (p ∷ ps) = false
starts_with (c ∷ cs) (p ∷ ps) = (c == p) && starts_with cs ps

-- Equality of two strings of bytes.
abbrev pub same_bytes : List ℕ → List ℕ → Bool
same_bytes xs ys = elim (text_discrete xs ys) [ yes p ↦ true | no p ↦ false ]

pub same_bytes_self : (xs : List ℕ) → same_bytes xs xs ≡ true
same_bytes_self xs =
    elim (text_discrete xs xs)
      as (λ (d : Dec (xs ≡ xs)). elim d [ yes p ↦ true | no p ↦ false ] ≡ true) [
        | yes p ↦ refl
        | no p ↦ absurd (p refl)
      ]

pub same_bytes-true : (xs ys : List ℕ) → same_bytes xs ys ≡ true → xs ≡ ys
same_bytes-true xs ys h =
    elim (text_discrete xs ys)
        as (λ (d : Dec (xs ≡ ys)). elim d [ yes p ↦ true | no p ↦ false ] ≡ true → xs ≡ ys) [
          | yes p ↦ λ e. p
          | no p ↦ λ e. absurd (cc e)
        ]
      h
