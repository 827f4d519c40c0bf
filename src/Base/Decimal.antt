-- ===== src/Base/Decimal.antt =====
-- Numbers as text: the `Display` of an unsigned integer, `str::parse` of a u32, and `split_once`. A text
-- is its bytes.
use Prim.Native.Nat.{ℕ, zero, suc, ◌+◌, ◌-◌, ◌*◌, ◌/◌, ◌%◌, ◌≤◌, ◌<◌}
use mathlib.Core.Path.{◌≡◌, refl, ap, ◌∙◌, sym, fun_ext, subst}
use mathlib.Core.Logic.{◌≢◌, ◌⊎◌, inl, inr}
use mathlib.Core.Bool.{Bool, true, false, ◌&&◌}
use mathlib.Core.Option.{Option, none, some}
use mathlib.Core.List.{List, [], ◌∷◌, ◌++◌}
use native.Mathlib.Omega.{arith}
use redfog.Base.Tests.{
  ltb→lt, ltb, leb, ◌==◌, if◌then◌else◌, Bool-cases, le→leb, lt→ltb, ◌>>=◌, >>=-eq-some,
}
use redfog.Base.Lists.{length, All, All-append, length-append}
use redfog.Base.Bytes.{u32_size}

abbrev pub is_digit : ℕ → Bool
is_digit c = leb 48 c && leb c 57

-- The digits of a number below `10 ^ fuel`; a number has fewer digits than its value and one more.
unfoldable pub digits : ℕ → ℕ → List ℕ
digits zero n = []
digits (suc fuel) n =
    let front = digits fuel (n / 10) in
    if ltb n 10 then (48 + n) ∷ [] else front ++ (48 + n % 10) ∷ []

unfoldable pub decimal : ℕ → List ℕ
unfolding digits
decimal n = digits (suc n) n

-- One digit after the value so far; `none` is an error of `ParseIntError`.
unfoldable pub parse_digit : ℕ → ℕ → Option ℕ
parse_digit value c =
    if is_digit c && ltb (value * 10 + (c - 48)) u32_size
    then some (value * 10 + (c - 48))
    else none

unfoldable pub parse_digits : ℕ → List ℕ → Option ℕ
unfolding parse_digit
parse_digits value [] = some value
parse_digits value (c ∷ cs) = parse_digit value c >>= (λ v. parse_digits v cs)

-- `str::parse::<u32>`: an optional plus sign, and at least one digit.
unfoldable pub parse_u32 : List ℕ → Option ℕ
unfolding parse_digits
parse_u32 [] = none
parse_u32 (c ∷ []) = parse_digits 0 (c ∷ [])
parse_u32 (c ∷ d ∷ cs) = if c == 43 then parse_digits 0 (d ∷ cs) else parse_digits 0 (c ∷ d ∷ cs)

-- `str::split_once` at a single byte.
unfoldable pub split_once : ℕ → List ℕ → Option (List ℕ × List ℕ)
split_once sep [] = none
split_once sep (c ∷ cs) =
    let rest = split_once sep cs in
    if c == sep
    then some ([], cs)
    else elim rest [ none ↦ none | some (front, back) ↦ some (c ∷ front, back) ]

pub split_once-append :
    (sep : ℕ) (front back : List ℕ)
    → All (λ c. c ≢ sep) front
    → split_once sep (front ++ sep ∷ back) ≡ some (front, back)
unfolding split_once
split_once-append sep [] back h = ground arith
split_once-append sep (c ∷ front) back h = elim (Bool-cases (c == sep)) [
  | inl e ↦ absurd (h.0 (ground (arith, e)))
  | inr e ↦ rw (e, split_once-append sep front back h.1) refl
]

>>=-assoc {ℓ κ μ} :
    {A : Type ℓ} {B : Type κ} {C : Type μ} (m : Option A) (f : A → Option B) (g : B → Option C)
    → ((m >>= f) >>= g) ≡ (m >>= (λ a. f a >>= g))
>>=-assoc none f g = refl
>>=-assoc (some a) f g = refl

parse_digits-append :
    (value : ℕ) (xs ys : List ℕ)
    → parse_digits value (xs ++ ys) ≡ (parse_digits value xs >>= (λ v. parse_digits v ys))
unfolding parse_digits
parse_digits-append value [] ys = refl
parse_digits-append value (c ∷ xs) ys =
    ap (λ f. parse_digit value c >>= f) (fun_ext (λ v. parse_digits-append v xs ys))
    ∙ sym (>>=-assoc (parse_digit value c) (λ v. parse_digits v xs) (λ v. parse_digits v ys))

pub digits-All : (fuel n : ℕ) → All (λ c. is_digit c ≡ true) (digits fuel n)
unfolding digits
digits-All zero n = tt
digits-All (suc fuel) n = elim (Bool-cases (ltb n 10)) [
  | inl e ↦ rw e (ground (arith, e), tt)
  | inr e ↦ rw e (All-append _ _ _ (digits-All fuel (n / 10)) (ground arith, tt))
]

parse_digit_last : (n : ℕ) → n < u32_size → parse_digit (n / 10) (48 + n % 10) ≡ some n
unfolding parse_digit
parse_digit_last n h =
    let back : n / 10 * 10 + (48 + n % 10 - 48) ≡ n = omega arith in
    rw
      (
        back,
        le→leb 48 (48 + n % 10) (omega arith),
        le→leb (48 + n % 10) 57 (omega arith),
        lt→ltb n u32_size h,
      )
      refl

parse_digits-digits :
    (fuel n : ℕ) → n < fuel → n < u32_size → parse_digits 0 (digits fuel n) ≡ some n
unfolding digits parse_digits
parse_digits-digits zero n h k = absurd (omega arith)
parse_digits-digits (suc fuel) n h k = elim (Bool-cases (ltb n 10)) [
  | inl e ↦ rw e (let small = ltb→lt n 10 e in parse_one n small)
  | inr e ↦
      let large : 10 ≤ n = ground (arith, e) in
      rw
        (
          e,
          parse_digits-append 0 (digits fuel (n / 10)) ((48 + n % 10) ∷ []),
          parse_digits-digits fuel (n / 10) (omega arith) (omega arith),
          parse_digit_last n k,
        )
        refl
]
  where
    parse_one : (d : ℕ) → d < 10 → parse_digits 0 ((48 + d) ∷ []) ≡ some d
    parse_one d s =
        let zero_front : d / 10 ≡ 0 = omega arith in
        let same : d % 10 ≡ d = omega arith in
        let e : parse_digit 0 (48 + d) ≡ some d =
          subst (λ (f : ℕ). parse_digit f (48 + d) ≡ some d) zero_front
            (subst (λ (r : ℕ). parse_digit (d / 10) (48 + r) ≡ some d) same
              (parse_digit_last d (omega arith))) in
        rw e refl

-- A text of digits alone, and at least one of them, is parsed digit by digit.
parse_u32_digits :
    (text : List ℕ)
    → All (λ c. is_digit c ≡ true) text
    → 0 < length text
    → parse_u32 text ≡ parse_digits 0 text
unfolding parse_u32
parse_u32_digits [] h k = absurd (omega arith)
parse_u32_digits (c ∷ []) h k = refl
parse_u32_digits (c ∷ d ∷ cs) h k =
    let not_plus : (c == 43) ≡ false = ground (arith, h.0) in rw not_plus refl

digits_pos : (fuel n : ℕ) → 0 < length (digits (suc fuel) n)
unfolding digits
digits_pos fuel n = elim (Bool-cases (ltb n 10)) [
  | inl e ↦ rw e (omega arith)
  | inr e ↦ rw e (omega (arith, length-append (digits fuel (n / 10)) ((48 + n % 10) ∷ [])))
]

-- `str::parse::<u32>` of the `Display` of a u32 gives it back.
pub parse_u32-decimal : (n : ℕ) → n < u32_size → parse_u32 (decimal n) ≡ some n
unfolding decimal
parse_u32-decimal n h =
    parse_u32_digits (digits (suc n) n) (digits-All (suc n) n) (digits_pos n n)
    ∙ parse_digits-digits (suc n) n (omega arith) h

pub decimal-All : (n : ℕ) → All (λ c. is_digit c ≡ true) (decimal n)
unfolding decimal
decimal-All n = digits-All (suc n) n

if-eq-some : (c : Bool) (x n : ℕ) → (if c then some x else none) ≡ some n → (c ≡ true) × (x ≡ n)
if-eq-some true x n h = (refl, cc h)
if-eq-some false x n h = absurd (cc h)

if-either :
    (c : Bool) (x y : Option ℕ) {z : Option ℕ} → (if c then x else y) ≡ z → (x ≡ z) ⊎ (y ≡ z)
if-either true x y h = inl h
if-either false x y h = inr h

parse_digit-lt : (value c n : ℕ) → parse_digit value c ≡ some n → n < u32_size
unfolding parse_digit
parse_digit-lt value c n h =
    let (e, is) =
      if-eq-some (is_digit c && ltb (value * 10 + (c - 48)) u32_size) (value * 10 + (c - 48)) n h in
    ground (arith, e, is)

parse_digits-lt :
    (value : ℕ) (cs : List ℕ) (n : ℕ)
    → value < u32_size
    → parse_digits value cs ≡ some n
    → n < u32_size
unfolding parse_digits
parse_digits-lt value [] n h e = let is : value ≡ n = cc e in subst (λ (k : ℕ). k < u32_size) is h
parse_digits-lt value (c ∷ cs) n h e =
    let (next, parsed, rest) = >>=-eq-some (parse_digit value c) _ e in
    parse_digits-lt next cs n (parse_digit-lt value c next parsed) rest

-- What is parsed is of 32 bits.
pub parse_u32-lt : (text : List ℕ) (n : ℕ) → parse_u32 text ≡ some n → n < u32_size
unfolding parse_u32
parse_u32-lt [] n e = absurd (cc e)
parse_u32-lt (c ∷ []) n e = parse_digits-lt 0 (c ∷ []) n (omega arith) e
parse_u32-lt (c ∷ d ∷ cs) n e =
    elim (if-either (c == 43) (parse_digits 0 (d ∷ cs)) (parse_digits 0 (c ∷ d ∷ cs)) e) [
      | inl p ↦ parse_digits-lt 0 (d ∷ cs) n (omega arith) p
      | inr p ↦ parse_digits-lt 0 (c ∷ d ∷ cs) n (omega arith) p
    ]
