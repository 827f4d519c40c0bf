-- ===== src/Rtsp/Lines.antt =====
-- `str::lines`, `str::strip_prefix`, `str::trim` and `str::contains` on the characters of a text.
use redfog.Base.{
  ℕ, ◌==◌, ◌||◌, if◌then◌else◌, Bool, true, false, Option, none, some, List, [], ◌∷◌, ◌++◌, All,
  ◌≡◌, ◌≢◌, refl, ap, ◌∙◌, Bool-cases, inl, inr, arith, sym, append_assoc, All-append,
}
use redfog.Base.Text.{Text, starts_with}
use redfog.Base.Decimal.{is_digit}
use redfog.Pairing.Params.{trim_start, trim_end, is_whitespace}

abbrev pub trim : Text → Text
trim text = trim_end (trim_start text)

unfoldable pub strip_prefix : Text → Text → Option Text
strip_prefix [] text = some text
strip_prefix (p ∷ ps) [] = none
strip_prefix (p ∷ ps) (c ∷ cs) = let rest = strip_prefix ps cs in if p == c then rest else none

unfoldable pub contains_text : Text → Text → Bool
contains_text needle [] = starts_with [] needle
contains_text needle (c ∷ cs) =
    let later = contains_text needle cs in starts_with (c ∷ cs) needle || later

-- A character before the lines of the rest; a line knows whether a line feed ended it.
unfoldable pub add_character : ℕ → List (Text × Bool) → List (Text × Bool)
add_character c [] = (c ∷ [], false) ∷ []
add_character c ((line, ended) ∷ more) = (c ∷ line, ended) ∷ more

unfoldable pub raw_lines : Text → List (Text × Bool)
unfolding add_character
raw_lines [] = []
raw_lines (c ∷ cs) =
    let rest = raw_lines cs in if c == 10 then ([], true) ∷ rest else add_character c rest

-- A line without the carriage return before its line feed.
unfoldable pub strip_cr : Text → Text
strip_cr [] = []
strip_cr (c ∷ []) = if c == 13 then [] else c ∷ []
strip_cr (c ∷ d ∷ cs) = c ∷ strip_cr (d ∷ cs)

abbrev pub line_text : Text × Bool → Text
line_text (line, true) = strip_cr line
line_text (line, false) = line

abbrev pub line_texts : List (Text × Bool) → List Text
line_texts [] = []
line_texts (l ∷ ls) = line_text l ∷ line_texts ls

unfoldable pub lines : Text → List Text
unfolding raw_lines
lines text = line_texts (raw_lines text)

raw_lines-line :
    (line rest : Text)
    → All (λ c. c ≢ 10) line
    → raw_lines (line ++ (10 ∷ rest)) ≡ (line, true) ∷ raw_lines rest
unfolding raw_lines add_character
raw_lines-line [] rest h = refl
raw_lines-line (c ∷ cs) rest h = elim (Bool-cases (c == 10)) [
  | inl e ↦ absurd (h.0 (ground (arith, e)))
  | inr e ↦ rw (e, raw_lines-line cs rest (h.1)) refl
]

strip_cr-append : (line : Text) → strip_cr (line ++ (13 ∷ [])) ≡ line
unfolding strip_cr
strip_cr-append [] = refl
strip_cr-append (c ∷ []) = refl
strip_cr-append (c ∷ d ∷ cs) = ap (◌∷◌ c) (strip_cr-append (d ∷ cs))

-- The first line of a text is what stands before its carriage return and line feed.
pub lines-append :
    (line rest : Text)
    → All (λ c. c ≢ 10) line
    → lines (line ++ (13 ∷ 10 ∷ rest)) ≡ line ∷ lines rest
unfolding lines
lines-append line rest h =
    let e : line ++ (13 ∷ 10 ∷ rest) ≡ (line ++ (13 ∷ [])) ++ (10 ∷ rest) =
      sym (append_assoc line (13 ∷ []) (10 ∷ rest)) in
    ap (λ t. line_texts (raw_lines t)) e
    ∙ ap line_texts
        (raw_lines-line (line ++ (13 ∷ [])) rest (All-append _ line (13 ∷ []) h ((λ p. cc p), tt)))
    ∙ ap (λ (l : Text). l ∷ lines rest) (strip_cr-append line)

-- So too with a line feed alone.
pub lines-feed :
    (line rest : Text)
    → All (λ c. c ≢ 10) line
    → lines (line ++ (10 ∷ rest)) ≡ strip_cr line ∷ lines rest
unfolding lines
lines-feed line rest h = ap line_texts (raw_lines-line line rest h)

digit_is_no_space : (c : ℕ) → is_digit c ≡ true → is_whitespace c ≡ false
digit_is_no_space c h = ground (arith, h)

trim_end-digits : (text : Text) → All (λ c. is_digit c ≡ true) text → trim_end text ≡ text
unfolding trim_end
trim_end-digits [] h = refl
trim_end-digits (c ∷ []) h = rw (digit_is_no_space c (h.0)) refl
trim_end-digits (c ∷ d ∷ cs) h = rw (trim_end-digits (d ∷ cs) (h.1)) refl

-- Digits have no space around them.
pub trim-digits : (text : Text) → All (λ c. is_digit c ≡ true) text → trim text ≡ text
unfolding trim_start
trim-digits [] h = trim_end-digits [] tt
trim-digits (c ∷ cs) h = rw (digit_is_no_space c (h.0)) (trim_end-digits (c ∷ cs) h)
