-- ===== src/Pairing/Modes.antt =====
-- What the parsers of resolutions and modes accept and answer.
use redfog.Base.{
  ℕ, ◌*◌, ◌/◌, ◌%◌, ◌<◌, ◌≡◌, ◌≢◌, refl, sym, ap, ◌∙◌, ◌==◌, Bool-cases, inl, inr, false, ◌||◌,
  Option, Option-cases, none, some, >>=-eq-some, subst, List, [], ◌∷◌, ◌++◌, All, u32_size, arith,
}
use redfog.Base.Text.{Text}
use redfog.Base.Decimal.{decimal, decimal-All, parse_u32, parse_u32-decimal, parse_u32-lt}
use redfog.Clients.State.{resolution_key, x_byte}
use redfog.Clients.Keys.{split_once-resolution_key, no_x}
use redfog.Pairing.Params.{
  ok, split, even_part, default_mode, mode_numbers, mode_parts, parse_mode, both_nonzero,
  parse_resolution,
}

-- A resolution's key, which `redfog-pair --list` shows, parses back to the resolution, where its width
-- and height are not zero and of 32 bits.
pub parse_resolution-resolution_key :
    (width height : ℕ)
    → 0 < width
    → 0 < height
    → width < u32_size
    → height < u32_size
    → parse_resolution (resolution_key width height) ≡ ok (width, height)
unfolding parse_resolution both_nonzero
parse_resolution-resolution_key width height pw ph w h =
    let nonzero : ((width == 0) || (height == 0)) ≡ false = ground arith in
    rw
      (
        split_once-resolution_key width height,
        parse_u32-decimal width w,
        parse_u32-decimal height h,
        nonzero,
        parse_resolution,
      )
      refl

split-append :
    (sep : ℕ) (front back : Text)
    → All (λ c. c ≢ sep) front
    → split sep (front ++ sep ∷ back) ≡ (front, ((split sep back).0 ∷ (split sep back).1))
unfolding split
split-append sep [] back h = ground arith
split-append sep (c ∷ front) back h = elim (Bool-cases (c == sep)) [
  | inl e ↦ absurd (h.0 (ground (arith, e)))
  | inr e ↦ rw (e, split-append sep front back (h.1)) refl
]

split_none : (sep : ℕ) (text : Text) → All (λ c. c ≢ sep) text → split sep text ≡ (text, [])
unfolding split
split_none sep [] h = refl
split_none sep (c ∷ cs) h = elim (Bool-cases (c == sep)) [
  | inl e ↦ absurd (h.0 (ground (arith, e)))
  | inr e ↦ rw (e, split_none sep cs (h.1)) refl
]

split_mode :
    (width height fps : ℕ)
    → split x_byte (decimal width ++ (x_byte ∷ (decimal height ++ (x_byte ∷ decimal fps))))
      ≡ (decimal width, (decimal height ∷ (decimal fps ∷ [])))
split_mode width height fps =
    split-append x_byte (decimal width) (decimal height ++ (x_byte ∷ decimal fps))
      (no_x (decimal width) (decimal-All width))
    ∙ ap (λ (rest : Text × List Text). (decimal width, (rest.0 ∷ rest.1)))
        (split-append x_byte (decimal height) (decimal fps)
          (no_x (decimal height) (decimal-All height)))
    ∙ ap (λ (rest : Text × List Text). (decimal width, (decimal height ∷ (rest.0 ∷ rest.1))))
        (split_none x_byte (decimal fps) (no_x (decimal fps) (decimal-All fps)))

numbers :
    (width height fps : ℕ)
    → width < u32_size
    → height < u32_size
    → fps < u32_size
    → mode_numbers (decimal width) (decimal height) (decimal fps)
      ≡ some (width / 2 * 2, height / 2 * 2, fps)
unfolding mode_numbers
numbers width height fps w h f =
    rw
      (parse_u32-decimal width w, parse_u32-decimal height h, parse_u32-decimal fps f, mode_numbers)
      refl

from_parts :
    (width height fps : ℕ)
    → width < u32_size
    → height < u32_size
    → fps < u32_size
    → mode_parts (decimal width, (decimal height ∷ (decimal fps ∷ [])))
      ≡ (width / 2 * 2, height / 2 * 2, fps)
unfolding mode_parts
from_parts width height fps w h f = rw (numbers width height fps w h f, mode_parts) refl

-- The mode of a launch request, three numbers of 32 bits with an x between, gives the width and the
-- height rounded down to even numbers, and the frame rate.
pub parse_mode_lem :
    (width height fps : ℕ)
    → width < u32_size
    → height < u32_size
    → fps < u32_size
    → parse_mode (some (decimal width ++ (x_byte ∷ (decimal height ++ (x_byte ∷ decimal fps)))))
      ≡ (width / 2 * 2, height / 2 * 2, fps)
unfolding parse_mode
parse_mode_lem width height fps w h f =
    ap mode_parts (split_mode width height fps) ∙ from_parts width height fps w h f

-- An even width and height of 32 bits.
abbrev pub IsEvenMode : ℕ × ℕ × ℕ → Type 0
IsEvenMode (width, height, fps) =
    (width % 2 ≡ 0) × (height % 2 ≡ 0) × (width < u32_size) × (height < u32_size)

mode_numbers-IsEvenMode :
    (width height fps : Text) (mode : ℕ × ℕ × ℕ)
    → mode_numbers width height fps ≡ some mode
    → IsEvenMode mode
unfolding mode_numbers
mode_numbers-IsEvenMode width height fps mode e =
    let (w, w_is, rest) = >>=-eq-some (parse_u32 width) _ e in
    let (h, h_is, rest') = >>=-eq-some (parse_u32 height) _ rest in
    let (f, _, is) = >>=-eq-some (parse_u32 fps) _ rest' in
    let same : (even_part w, even_part h, f) ≡ mode = cc is in
    let small = parse_u32-lt width w w_is in
    let small' = parse_u32-lt height h h_is in
    subst IsEvenMode same (omega arith, omega arith, omega arith, omega arith)

mode_parts-IsEvenMode : (parts : Text × List Text) → IsEvenMode (mode_parts parts)
unfolding mode_parts
mode_parts-IsEvenMode (width, []) = (refl, refl, omega arith, omega arith)
mode_parts-IsEvenMode (width, (height ∷ [])) = (refl, refl, omega arith, omega arith)
mode_parts-IsEvenMode (width, (height ∷ (fps ∷ more))) =
    elim (Option-cases (mode_numbers width height fps)) [
      | inl e ↦
          let is : mode_parts (width, (height ∷ (fps ∷ more))) ≡ default_mode =
            rw (e, mode_parts) refl in
          subst IsEvenMode (sym is) (refl, refl, omega arith, omega arith)
      | inr (mode, e) ↦
          let is : mode_parts (width, (height ∷ (fps ∷ more))) ≡ mode = rw (e, mode_parts) refl in
          subst IsEvenMode (sym is) (mode_numbers-IsEvenMode width height fps mode e)
    ]

-- Whatever the mode of a launch request is, or if there is none, the width and the height that the session
-- gets are even and of 32 bits.
pub parse_mode-IsEvenMode : (mode : Option Text) → IsEvenMode (parse_mode mode)
unfolding parse_mode
parse_mode-IsEvenMode none = (refl, refl, omega arith, omega arith)
parse_mode-IsEvenMode (some text) = mode_parts-IsEvenMode (split x_byte text)
