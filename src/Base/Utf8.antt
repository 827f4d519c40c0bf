-- ===== src/Base/Utf8.antt =====
-- UTF-8: the test of `String::from_utf8`, and the characters of `String::from_utf8_lossy`, which has U+FFFD
-- for what is no character.
use Prim.Native.Nat.{ℕ, zero, suc, ◌+◌, ◌-◌, ◌*◌, ◌/◌, ◌%◌, ◌<◌}
use mathlib.Core.Path.{◌≡◌, refl, ap}
use mathlib.Core.Bool.{Bool, true, false, ◌&&◌}
use mathlib.Core.Option.{Option, none, some}
use mathlib.Core.List.{List, [], ◌∷◌, ◌++◌}
use redfog.Base.Tests.{ltb, leb, ◌==◌, if◌then◌else◌, lt→ltb}
use redfog.Base.Lists.{All}
use redfog.Base.Text.{Text}

-- The lead byte of a character: how many bytes follow, and the range of the next one.
unfoldable pub utf8_lead : ℕ → Option (ℕ × ℕ × ℕ)
utf8_lead b =
    if ltb b 128
    then some (0, 0, 0)
    else if leb 194 b && leb b 223
    then some (1, 128, 191)
    else if b == 224
    then some (2, 160, 191)
    else if b == 237
    then some (2, 128, 159)
    else if leb 225 b && leb b 239
    then some (2, 128, 191)
    else if b == 240
    then some (3, 144, 191)
    else if leb 241 b && leb b 243
    then some (3, 128, 191)
    else if b == 244
    then some (3, 128, 143)
    else none

-- Whether bytes are UTF-8, with so many of a character still to come, the next one in a range.
unfoldable pub utf8_rest : ℕ → ℕ → ℕ → List ℕ → Bool
unfolding utf8_lead
utf8_rest zero low high [] = true
utf8_rest (suc n) low high [] = false
utf8_rest zero low high (b ∷ bs) = elim (utf8_lead b) [
  | none ↦ false
  | some lead ↦ utf8_rest (lead.0) (lead.1) (lead.2) bs
]
utf8_rest (suc n) low high (b ∷ bs) = leb low b && leb b high && utf8_rest n 128 191 bs

-- `String::from_utf8`.
unfoldable pub from_utf8 : List ℕ → Option Text
unfolding utf8_rest
from_utf8 bytes = if utf8_rest 0 0 0 bytes then some bytes else none

-- A character that has begun: how many bytes are to come, its value so far, and the range of the next one.
abbrev pub Begun : Type 0
Begun = ℕ × ℕ × ℕ × ℕ

abbrev pub at_start : Begun
at_start = (0, 0, 0, 0)

abbrev pub lead_bits : ℕ → ℕ
lead_bits b = if ltb b 224 then b - 192 else if ltb b 240 then b - 224 else b - 240

abbrev pub begin_character : ℕ → Option (ℕ × ℕ × ℕ) → List ℕ × Begun
begin_character b none = (65533 ∷ [], at_start)
begin_character b (some (zero, low, high)) = (b ∷ [], at_start)
begin_character b (some (suc n, low, high)) = ([], (suc n, lead_bits b, low, high))

-- One byte: the characters that end with it or before it, and the one that has begun.
unfoldable pub lossy_step : Begun → ℕ → List ℕ × Begun
unfolding utf8_lead
lossy_step (zero, value, low, high) b = begin_character b (utf8_lead b)
lossy_step (suc zero, value, low, high) b =
    if leb low b && leb b high
    then ((value * 64 + (b - 128)) ∷ [], at_start)
    else (65533 ∷ (begin_character b (utf8_lead b)).0, (begin_character b (utf8_lead b)).1)
lossy_step (suc (suc n), value, low, high) b =
    if leb low b && leb b high
    then ([], (suc n, value * 64 + (b - 128), 128, 191))
    else (65533 ∷ (begin_character b (utf8_lead b)).0, (begin_character b (utf8_lead b)).1)

unfoldable pub lossy_from : Begun → List ℕ → List ℕ
unfolding lossy_step
lossy_from (zero, value, low, high) [] = []
lossy_from (suc n, value, low, high) [] = 65533 ∷ []
lossy_from begun (b ∷ bs) = (lossy_step begun b).0 ++ lossy_from ((lossy_step begun b).1) bs

unfoldable pub from_utf8_lossy : List ℕ → List ℕ
unfolding lossy_from
from_utf8_lossy bytes = lossy_from at_start bytes

utf8_lead-ascii : (b : ℕ) → b < 128 → utf8_lead b ≡ some (0, 0, 0)
unfolding utf8_lead
utf8_lead-ascii b h = rw (lt→ltb b 128 h) refl

lossy_from-ascii : (bs : List ℕ) → All (λ b. b < 128) bs → lossy_from at_start bs ≡ bs
unfolding lossy_from lossy_step
lossy_from-ascii [] h = refl
lossy_from-ascii (b ∷ bs) h = rw (utf8_lead-ascii b (h.0)) (ap (◌∷◌ b) (lossy_from-ascii bs (h.1)))

-- Bytes of ASCII are their characters.
pub from_utf8_lossy-ascii : (bs : List ℕ) → All (λ b. b < 128) bs → from_utf8_lossy bs ≡ bs
unfolding from_utf8_lossy
from_utf8_lossy-ascii bs h = lossy_from-ascii bs h

unfoldable pub encode_character : ℕ → List ℕ
encode_character c =
    if ltb c 128
    then c ∷ []
    else if ltb c 2048
    then (192 + c / 64) ∷ (128 + c % 64) ∷ []
    else if ltb c 65536
    then (224 + c / 4096) ∷ (128 + c / 64 % 64) ∷ (128 + c % 64) ∷ []
    else (240 + c / 262144) ∷ (128 + c / 4096 % 64) ∷ (128 + c / 64 % 64) ∷ (128 + c % 64) ∷ []

-- `String::into_bytes`.
unfoldable pub into_bytes : List ℕ → List ℕ
unfolding encode_character
into_bytes [] = []
into_bytes (c ∷ cs) = encode_character c ++ into_bytes cs

pub into_bytes-ascii : (cs : List ℕ) → All (λ c. c < 128) cs → into_bytes cs ≡ cs
unfolding into_bytes encode_character
into_bytes-ascii [] h = refl
into_bytes-ascii (c ∷ cs) h = rw (lt→ltb c 128 (h.0)) (ap (◌∷◌ c) (into_bytes-ascii cs (h.1)))
