-- ===== src/Base/Bytes.antt =====
-- Machine integers as bytes, in both orders.
use Prim.Native.Nat.{ℕ, ◌+◌, ◌-◌, ◌*◌, ◌/◌, ◌%◌, ◌<◌}
use mathlib.Core.Path.{◌≡◌}
use mathlib.Core.List.{List, [], ◌∷◌}
use native.Mathlib.Omega.{arith}
use redfog.Base.Tests.{ltb, if◌then◌else◌}

abbrev pub u16_size : ℕ
u16_size = 65536

abbrev pub u32_size : ℕ
u32_size = 4294967296

-- `to_be_bytes` and `to_le_bytes` of a u16 and a u32.
abbrev pub be_u16 : ℕ → List ℕ
be_u16 n = (n / 256 % 256) ∷ (n % 256) ∷ []

abbrev pub be_u32 : ℕ → List ℕ
be_u32 n = (n / 16777216 % 256) ∷ (n / 65536 % 256) ∷ (n / 256 % 256) ∷ (n % 256) ∷ []

abbrev pub le_u16 : ℕ → List ℕ
le_u16 n = (n % 256) ∷ (n / 256 % 256) ∷ []

abbrev pub le_u32 : ℕ → List ℕ
le_u32 n = (n % 256) ∷ (n / 256 % 256) ∷ (n / 65536 % 256) ∷ (n / 16777216 % 256) ∷ []

-- `from_be_bytes` and `from_le_bytes`.
abbrev pub of_be_u16 : ℕ → ℕ → ℕ
of_be_u16 a b = a * 256 + b

abbrev pub of_le_u16 : ℕ → ℕ → ℕ
of_le_u16 a b = a + b * 256

abbrev pub of_be_u32 : ℕ → ℕ → ℕ → ℕ → ℕ
of_be_u32 a b c d = a * 16777216 + b * 65536 + c * 256 + d

abbrev pub of_le_u32 : ℕ → ℕ → ℕ → ℕ → ℕ
of_le_u32 a b c d = a + b * 256 + c * 65536 + d * 16777216

pub of_le-le_u32 :
    (n : ℕ)
    → n < u32_size
    → of_le_u32 (n % 256) (n / 256 % 256) (n / 65536 % 256) (n / 16777216 % 256) ≡ n
of_le-le_u32 n h = omega arith

-- An integer in sign and magnitude: `negsuc n` is -(n + 1).
pub data ℤ : Type 0 where
  pos : ℕ → ℤ
  negsuc : ℕ → ℤ

-- The i16 of a two-byte pattern.
abbrev pub i16 : ℕ → ℤ
i16 w = if ltb w 32768 then pos w else negsuc (65535 - w)
