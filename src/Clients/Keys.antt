-- ===== src/Clients/Keys.antt =====
-- The key of a resolution determines the resolution.
use redfog.Base.{ℕ, ◌≡◌, ◌≢◌, ◌<◌, sym, ap, ◌∙◌, true, some, [], ◌∷◌, All, u32_size, arith}
use redfog.Base.Text.{Text}
use redfog.Base.Decimal.{
  decimal, decimal-All, is_digit, parse_u32, parse_u32-decimal, split_once, split_once-append,
}
use redfog.Clients.State.{resolution_key, x_byte}

pub no_x : (text : Text) → All (λ c. is_digit c ≡ true) text → All (λ c. c ≢ x_byte) text
no_x [] h = tt
no_x (c ∷ cs) h = ((λ e. ground (arith, h.0, e)), no_x cs (h.1))

-- The key splits at its x into the two numbers.
pub split_once-resolution_key :
    (width height : ℕ)
    → split_once x_byte (resolution_key width height) ≡ some (decimal width, decimal height)
unfolding resolution_key
split_once-resolution_key width height =
    split_once-append x_byte (decimal width) (decimal height)
      (no_x (decimal width) (decimal-All width))

decimal-Injective : (m n : ℕ) → m < u32_size → n < u32_size → decimal m ≡ decimal n → m ≡ n
decimal-Injective m n h k e =
    let same : some m ≡ some n =
      sym (parse_u32-decimal m h) ∙ ap parse_u32 e ∙ parse_u32-decimal n k in
    cc same

pub resolution_key-Injective :
    (width height width' height' : ℕ)
    → width < u32_size
    → height < u32_size
    → width' < u32_size
    → height' < u32_size
    → resolution_key width height ≡ resolution_key width' height'
    → (width ≡ width') × (height ≡ height')
resolution_key-Injective width height width' height' w h w' h' e =
    let same : some (decimal width, decimal height) ≡ some (decimal width', decimal height') =
      sym (split_once-resolution_key width height)
      ∙ ap (split_once x_byte) e
      ∙ split_once-resolution_key width' height' in
    (decimal-Injective width width' w w' (cc same), decimal-Injective height height' h h' (cc same))
