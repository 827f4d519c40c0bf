-- ===== src/Control/Scroll.antt =====
-- When decoding an input event panics, and the button mask of a gamepad.
use redfog.Base.{
  ℕ, ◌+◌, ◌*◌, ◌/◌, ◌%◌, ◌<◌, ◌≡◌, ◌≢◌, ◌↔◌, inl, inr, refl, sym, ◌∙◌, ap, subst, le→ltb, List, [],
  ◌∷◌, length, of_le_u32, ℕ_discrete, u16_size, bit_or-add, bit_or_comm, arith,
}
use redfog.Base.Outcome.{Outcome, panics}
use redfog.Base.Reads.{Returns}
use redfog.Control.Input.{decode_input_event, decode_body, button_mask, scroll_horizontal_type}
use redfog.Control.Decoding.{IsScroll, decode_body-Returns}

decode_input_event-decode_body :
    (a b c d : ℕ) (body : List ℕ)
    → decode_input_event (a ∷ b ∷ c ∷ d ∷ body) ≡ decode_body (of_le_u32 a b c d) body
unfolding decode_input_event
decode_input_event-decode_body a b c d body =
    rw (le→ltb (length (a ∷ b ∷ c ∷ d ∷ body)) 4 (omega arith)) refl

-- A scroll event whose body is a single byte.
abbrev pub OneByteScroll : List ℕ → Type 0
OneByteScroll payload =
    (a : ℕ) × (b : ℕ) × (c : ℕ) × (d : ℕ) × (e : ℕ) × (payload ≡ (a ∷ b ∷ c ∷ d ∷ e ∷ []))
    × IsScroll (of_le_u32 a b c d)

IsScroll-panics :
    (event_type e : ℕ) → IsScroll event_type → decode_body event_type (e ∷ []) ≡ panics
unfolding decode_body
IsScroll-panics event_type e (inl h) = subst (λ t. decode_body t (e ∷ []) ≡ panics) (sym h) refl
IsScroll-panics event_type e (inr h) = subst (λ t. decode_body t (e ∷ []) ≡ panics) (sym h) refl

IsScroll-dec : (event_type : ℕ) → Dec (IsScroll event_type)
IsScroll-dec event_type = elim (ℕ_discrete event_type 10) [
  | yes p ↦ yes (inl p)
  | no p ↦ elim (ℕ_discrete event_type scroll_horizontal_type) [
    | yes q ↦ yes (inr q)
    | no q ↦ no (elim [ inl h ↦ p h | inr h ↦ q h ])
  ]
]

returned : {A : Type 0} {m : Outcome A} → Returns m → m ≢ panics
returned r h = cc (r.1, h)

scroll_panics : (payload : List ℕ) → OneByteScroll payload → decode_input_event payload ≡ panics
scroll_panics payload (a, b, c, d, e, shape, scroll) =
    ap decode_input_event shape
    ∙ decode_input_event-decode_body a b c d (e ∷ [])
    ∙ IsScroll-panics (of_le_u32 a b c d) e scroll

panics_scroll : (payload : List ℕ) → decode_input_event payload ≡ panics → OneByteScroll payload
unfolding decode_input_event
panics_scroll [] h = absurd (cc h)
panics_scroll (a ∷ []) h = absurd (cc h)
panics_scroll (a ∷ b ∷ []) h = absurd (cc h)
panics_scroll (a ∷ b ∷ c ∷ []) h = absurd (cc h)
panics_scroll (a ∷ b ∷ c ∷ d ∷ []) h = absurd (
    returned (decode_body-Returns (of_le_u32 a b c d) [] (λ _ k. omega (arith, k)))
      (sym (decode_input_event-decode_body a b c d []) ∙ h))
panics_scroll (a ∷ b ∷ c ∷ d ∷ e ∷ []) h = elim (IsScroll-dec (of_le_u32 a b c d)) [
  | yes p ↦ (a, b, c, d, e, refl, p)
  | no p ↦ absurd (
      returned (decode_body-Returns (of_le_u32 a b c d) (e ∷ []) (λ q _. p q))
        (sym (decode_input_event-decode_body a b c d (e ∷ [])) ∙ h))
]
panics_scroll (a ∷ b ∷ c ∷ d ∷ e ∷ f ∷ body) h = absurd (
    returned (decode_body-Returns (of_le_u32 a b c d) (e ∷ f ∷ body) (λ _ k. omega (arith, k)))
      (sym (decode_input_event-decode_body a b c d (e ∷ f ∷ body)) ∙ h))

-- Decoding an input event panics exactly on a scroll event, vertical or horizontal, whose body is one
-- byte long; on every other payload, of any length and type, it returns.
pub decode_panics_iff :
    (payload : List ℕ) → (decode_input_event payload ≡ panics) ↔ OneByteScroll payload
decode_panics_iff payload = (panics_scroll payload, scroll_panics payload)

-- For a 16-bit low half, the two halves of a gamepad's button mask can be read back from it: no button of one half
-- shows in the other.
pub button_mask_halves :
    (low high : ℕ)
    → low < u16_size
    → (button_mask low high % u16_size ≡ low) × (button_mask low high / u16_size ≡ high)
unfolding button_mask
button_mask_halves low high h =
    let e : button_mask low high ≡ high * 65536 + low =
      bit_or_comm low (high * 65536) ∙ bit_or-add 16 high low h in
    rw e (omega arith, omega arith)
