-- ===== src/Rtsp/Target.antt =====
-- The request target of a first line, which the parser of rtsp-types would refuse, and what replaces it.
use redfog.Base.{
  ℕ, ◌<◌, ◌≡◌, ◌≢◌, refl, ap, ◌∙◌, ◌==◌, ◌||◌, if◌then◌else◌, Bool, false, Option, none, some, List,
  [], ◌∷◌, ◌++◌, All, All-append, arith,
}
use redfog.Base.Text.{Text, starts_with, same_bytes, text_discrete}
use redfog.Base.Decimal.{split_once, split_once-append}
use redfog.Base.Utf8.{from_utf8_lossy, from_utf8_lossy-ascii, into_bytes, into_bytes-ascii}

abbrev add_front : ℕ → Option (List ℕ × List ℕ) → Option (List ℕ × List ℕ)
add_front c none = none
add_front c (some (front, back)) = some (c ∷ front, back)

-- A buffer before its first carriage return and line feed, and from there on.
unfoldable pub split_line : List ℕ → Option (List ℕ × List ℕ)
split_line [] = none
split_line (c ∷ cs) =
    let later = add_front c (split_line cs) in
    if starts_with (c ∷ cs) (13 ∷ 10 ∷ []) then some ([], c ∷ cs) else later

-- `splitn(3, ' ')`, if there are three parts.
unfoldable pub three_parts : Text → Option (Text × Text × Text)
unfolding split_once
three_parts line = elim (split_once 32 line) [
  | none ↦ none
  | some (method, rest) ↦ elim (split_once 32 rest) [
    | none ↦ none
    | some (target, version) ↦ some (method, target, version)
  ]
]

abbrev pub rtsp_scheme : Text
rtsp_scheme = 114 ∷ 116 ∷ 115 ∷ 112 ∷ 58 ∷ 47 ∷ 47 ∷ []

abbrev pub valid_target : Text → Bool
valid_target target = same_bytes target (42 ∷ []) || starts_with target rtsp_scheme

-- The buffer afterwards, and the original target.
unfoldable pub rewrite_line : List ℕ → List ℕ → Option (Text × Text × Text) → List ℕ × Option Text
unfolding into_bytes
rewrite_line buf back none = (buf, none)
rewrite_line buf back (some (method, target, version)) =
    if valid_target target
    then (buf, some target)
    else (into_bytes (method ++ (32 ∷ 42 ∷ 32 ∷ version)) ++ back, some target)

unfoldable pub rewrite_request_target : List ℕ → List ℕ × Option Text
unfolding split_line from_utf8_lossy three_parts rewrite_line
rewrite_request_target buf = elim (split_line buf) [
  | none ↦ (buf, none)
  | some (front, back) ↦ rewrite_line buf back (three_parts (from_utf8_lossy front))
]

-- A character of ASCII that ends no line, and one that is no space either.
abbrev pub IsPlain : ℕ → Type 0
IsPlain c = (13 < c) × (c < 128)

abbrev pub IsToken : ℕ → Type 0
IsToken c = (32 < c) × (c < 128)

split_line-append :
    (front rest : List ℕ)
    → All IsPlain front
    → split_line (front ++ (13 ∷ 10 ∷ rest)) ≡ some (front, 13 ∷ 10 ∷ rest)
unfolding split_line
split_line-append [] rest h = refl
split_line-append (c ∷ cs) rest h =
    let e : (c == 13) ≡ false = ground (arith, h.0) in rw (e, split_line-append cs rest (h.1)) refl

plain : (text : Text) → All IsToken text → All IsPlain text
plain [] h = tt
plain (c ∷ cs) h = ((omega (arith, h.0), (h.0).1), plain cs (h.1))

ascii : (text : Text) → All IsPlain text → All (λ c. c < 128) text
ascii [] h = tt
ascii (c ∷ cs) h = ((h.0).1, ascii cs (h.1))

no_space : (text : Text) → All IsToken text → All (λ c. c ≢ 32) text
no_space [] h = tt
no_space (c ∷ cs) h = ((λ e. omega (arith, e, h.0)), no_space cs (h.1))

three_parts-append :
    (method target version : Text)
    → All IsToken method
    → All IsToken target
    → three_parts (method ++ (32 ∷ (target ++ (32 ∷ version)))) ≡ some (method, target, version)
unfolding three_parts
three_parts-append method target version hm ht =
    rw
      (
        split_once-append 32 method (target ++ (32 ∷ version)) (no_space method hm),
        split_once-append 32 target version (no_space target ht),
        three_parts,
      )
      refl

-- A first line with these parts, and what follows it.
abbrev pub request : Text → Text → Text → List ℕ → List ℕ
request method target version rest =
    (method ++ (32 ∷ (target ++ (32 ∷ version)))) ++ (13 ∷ 10 ∷ rest)

rewrite-request :
    (method target version : Text) (rest : List ℕ)
    → All IsToken method
    → All IsToken target
    → All IsPlain version
    → rewrite_request_target (request method target version rest)
      ≡ rewrite_line
          (request method target version rest)
          (13 ∷ 10 ∷ rest)
          (some (method, target, version))
unfolding rewrite_request_target
rewrite-request method target version rest hm ht hv =
    let front = method ++ (32 ∷ (target ++ (32 ∷ version))) in
    let plain_front : All IsPlain front =
      All-append IsPlain method (32 ∷ (target ++ (32 ∷ version))) (plain method hm) (
        (omega arith, omega arith),
        All-append IsPlain target (32 ∷ version) (plain target ht) ((omega arith, omega arith), hv),
      ) in
    rw (split_line-append front rest plain_front, rewrite_request_target)
      (ap
          (λ (t : Text).
            rewrite_line (request method target version rest) (13 ∷ 10 ∷ rest) (three_parts t))
          (from_utf8_lossy-ascii front (ascii front plain_front))
        ∙ ap (rewrite_line (request method target version rest) (13 ∷ 10 ∷ rest))
            (three_parts-append method target version hm ht))

-- A first line with a target that is neither a star nor an rtsp address gets a star in its place; the
-- method, the version and all that follows stay, the original target is given back, and a second
-- rewriting finds the star and changes nothing. The parts are ASCII without line ends, and the method and the
-- target have no space.
pub rewrite_request_target-request :
    (method target version : Text) (rest : List ℕ)
    → All IsToken method
    → All IsToken target
    → All IsPlain version
    → valid_target target ≡ false
    → (rewrite_request_target (request method target version rest)
        ≡ (request method (42 ∷ []) version rest, some target))
      × (rewrite_request_target (request method (42 ∷ []) version rest)
          ≡ (request method (42 ∷ []) version rest, some (42 ∷ [])))
unfolding rewrite_line text_discrete
rewrite_request_target-request method target version rest hm ht hv hn =
    let starred = method ++ (32 ∷ 42 ∷ 32 ∷ version) in
    let plain_starred : All IsPlain starred =
      All-append IsPlain method (32 ∷ 42 ∷ 32 ∷ version) (plain method hm) (
        (omega arith, omega arith),
        ((omega arith, omega arith), ((omega arith, omega arith), hv)),
      ) in
    (
      rewrite-request method target version rest hm ht hv
          ∙ rw (hn, into_bytes-ascii starred (ascii starred plain_starred)) refl,
      rewrite-request method (42 ∷ []) version rest hm ((omega arith, omega arith), tt) hv,
    )
