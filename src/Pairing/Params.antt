-- ===== src/Pairing/Params.antt =====
-- Parsing the values of parameters.
use redfog.Base.{
  ℕ, ◌+◌, ◌*◌, ◌/◌, ◌==◌, ltb, leb, if◌then◌else◌, Bool, false, ◌&&◌, ◌||◌, not, Option, none, some,
  ◌>>=◌, List, [], ◌∷◌,
}
use redfog.Base.Text.{Text}
use redfog.Base.Decimal.{parse_u32, split_once}
use redfog.Clients.State.{x_byte}

pub data ParamError : Type 0 where
  invalid_resolution : ParamError
  zero_resolution : ParamError
  invalid_scale : ParamError
  scale_out_of_range : ParamError
  empty_name : ParamError
  control_in_name : ParamError
  long_name : ParamError

pub data Parsed (A : Type 0) : Type 0 where
  ok : A → Parsed A
  err : ParamError → Parsed A

-- `str::split` at a byte: the first part and the others.
unfoldable pub split : ℕ → Text → Text × List Text
split sep [] = ([], [])
split sep (c ∷ cs) =
    let (first, others) = split sep cs in
    if c == sep then ([], first ∷ others) else (c ∷ first, others)

abbrev pub even_part : ℕ → ℕ
even_part n = n / 2 * 2

abbrev pub default_mode : ℕ × ℕ × ℕ
default_mode = (1920, 1080, 60)

-- The three numbers of a mode; an error of one of them is `none`.
unfoldable pub mode_numbers : Text → Text → Text → Option (ℕ × ℕ × ℕ)
mode_numbers width height fps = do
  w ← parse_u32 width
  h ← parse_u32 height
  f ← parse_u32 fps
  some (even_part w, even_part h, f)

unfoldable pub mode_parts : Text × List Text → ℕ × ℕ × ℕ
unfolding mode_numbers
mode_parts (width, (height ∷ (fps ∷ more))) = elim (mode_numbers width height fps) [
  | none ↦ default_mode
  | some mode ↦ mode
]
mode_parts _ = default_mode

unfoldable pub parse_mode : Option Text → ℕ × ℕ × ℕ
unfolding mode_parts split
parse_mode none = default_mode
parse_mode (some mode) = mode_parts (split x_byte mode)

unfoldable pub both_nonzero : Option ℕ → Option ℕ → Parsed (ℕ × ℕ)
both_nonzero (some width) (some height) =
    if (width == 0) || (height == 0) then err zero_resolution else ok (width, height)
both_nonzero _ _ = err invalid_resolution

unfoldable pub parse_resolution : Text → Parsed (ℕ × ℕ)
unfolding split_once both_nonzero
parse_resolution text = elim (split_once x_byte text) [
  | none ↦ err invalid_resolution
  | some (width, height) ↦ both_nonzero (parse_u32 width) (parse_u32 height)
]

-- Floating-point numbers and what the code asks of them, up to the constants 0.25 and 4.0.
pub record Float (Scale : Type 0) : Type 0 where
  pub parse_f64 : Text → Option Scale
  pub is_finite : Scale → Bool
  pub lt : Scale → Scale → Bool
  pub quarter : Scale
  pub four : Scale
  pub one : Scale

unfoldable pub in_range : {Scale : Type 0} → Float Scale → Scale → Bool
in_range f scale = not (not (f.is_finite scale) || f.lt scale (f.quarter) || f.lt (f.four) scale)

unfoldable pub parse_scale : {Scale : Type 0} → Float Scale → Text → Parsed Scale
unfolding in_range
parse_scale f text = elim (f.parse_f64 text) [
  | none ↦ err invalid_scale
  | some scale ↦ if in_range f scale then ok scale else err scale_out_of_range
]

-- A name is the list of its characters. `char::is_whitespace`.
abbrev pub is_whitespace : ℕ → Bool
is_whitespace c =
    (leb 9 c && leb c 13)
    || (c == 32)
    || (c == 133)
    || (c == 160)
    || (c == 5760)
    || (leb 8192 c && leb c 8202)
    || (c == 8232)
    || (c == 8233)
    || (c == 8239)
    || (c == 8287)
    || (c == 12288)

unfoldable pub trim_start : List ℕ → List ℕ
trim_start [] = []
trim_start (c ∷ cs) = let rest = trim_start cs in if is_whitespace c then rest else c ∷ cs

unfoldable pub trim_end : List ℕ → List ℕ
trim_end [] = []
trim_end (c ∷ cs) = elim (trim_end cs) [
  | [] ↦ if is_whitespace c then [] else c ∷ []
  | d ∷ ds ↦ c ∷ d ∷ ds
]

unfoldable pub contains_break : List ℕ → Bool
contains_break [] = false
contains_break (c ∷ cs) = let rest = contains_break cs in (c == 9) || (c == 10) || (c == 13) || rest

-- `str::len`: the bytes of the characters.
abbrev pub utf8_length : List ℕ → ℕ
utf8_length [] = 0
utf8_length (c ∷ cs) =
    (if ltb c 128 then 1 else if ltb c 2048 then 2 else if ltb c 65536 then 3 else 4)
    + utf8_length cs

unfoldable pub check_name : List ℕ → Parsed (List ℕ)
unfolding contains_break
check_name [] = err empty_name
check_name (c ∷ cs) =
    if contains_break (c ∷ cs)
    then err control_in_name
    else if ltb 100 (utf8_length (c ∷ cs))
    then err long_name
    else ok (c ∷ cs)

unfoldable pub parse_name : List ℕ → Parsed (List ℕ)
unfolding trim_start trim_end check_name
parse_name name = check_name (trim_end (trim_start name))
