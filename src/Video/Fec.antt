-- ===== src/Video/Fec.antt =====
-- How many shards a frame gets, and what the advertised percentage tells the client.
use native.Mathlib.Nat.{div-mul-le_self, lt-mul-div-succ, div-add-mod', mod-lt}
use redfog.Base.{
  ℕ, ◌+◌, ◌-◌, ◌*◌, ◌/◌, ◌%◌, ◌≤◌, ◌<◌, min, max, ◌≡◌, ap, sym, Bool-cases, inl, inr, ltb, ◌==◌,
  ◌&&◌, if◌then◌else◌, ==_iff, arith, dec_lt,
}
use redfog.Video.Wire.{div_ceil, max_shards_per_fec_block}
use redfog.Video.Packetizer.{plan}

pub div_ceil_bounds : (a b : ℕ) → 0 < b → (a ≤ div_ceil a b * b) × (div_ceil a b * b < a + b)
unfolding div_ceil
div_ceil_bounds a b h = elim (Bool-cases (a % b == 0)) [
  | inl e ↦ rw e (omega (arith, div-add-mod' a b, (==_iff (a % b) 0).0 e))
  | inr e ↦ rw e (ground (arith, div-add-mod' a b, mod-lt a h))
]

next_multiple : (p q b : ℕ) → p < q → p * b + b ≤ q * b
next_multiple p q b h = grind arith

-- `div_ceil` is determined by its bounds.
pub div_ceil_unique : (a b q : ℕ) → 0 < b → a ≤ q * b → q * b < a + b → div_ceil a b ≡ q
div_ceil_unique a b q h lo hi = ground (
  arith,
  div_ceil_bounds a b h,
  next_multiple (div_ceil a b) q b,
  next_multiple q (div_ceil a b) b,
)

module _ (size len configured : ℕ) (size_pos : 0 < size) (len_pos : 0 < len) where
  pub data_count_pos : 0 < (plan size len configured).data_count
  unfolding plan
  data_count_pos = omega arith

  shards_pos : 0 < div_ceil len size
  shards_pos = elim (dec_lt 0 (div_ceil len size)) [
    | yes h ↦ h
    | no h ↦
        let e : div_ceil len size ≡ 0 = omega arith in
        absurd (omega (arith, div_ceil_bounds len size size_pos, ap (λ (n : ℕ). n * size) e))
  ]

  data_count_lem : (plan size len configured).data_count ≡ div_ceil len size
  unfolding plan
  data_count_lem = omega (arith, shards_pos)

  pub data_count_covers : len ≤ (plan size len configured).data_count * size
  data_count_covers = rw data_count_lem (div_ceil_bounds len size size_pos).0

  pub data_count_least : (k : ℕ) → k < (plan size len configured).data_count → k * size ≤ len
  data_count_least k h = omega (
    arith,
    div_ceil_bounds len size size_pos,
    next_multiple k (div_ceil len size) size (omega (arith, data_count_lem)),
  )

  pub parity_fits :
      0 < (plan size len configured).parity_count
      → (plan size len configured).data_count + (plan size len configured).parity_count
        ≤ max_shards_per_fec_block
  unfolding plan
  parity_fits h = omega arith

-- The redundancy that a client computes from the advertised percentage, when the floor applies.
floor_percentage : (n : ℕ) → 0 < n → n ≤ 100 → div_ceil (n * (100 * 2 / n)) 100 ≡ 2
floor_percentage n h k =
    div_ceil_unique (n * (200 / n)) 100 2 (omega arith) (omega (arith, div-mul-le_self 200 n))
      (omega (arith, lt-mul-div-succ 200 h))

le-mul_pos : (n c : ℕ) → 0 < c → n ≤ n * c
le-mul_pos n c h = grind arith

low_parity : (n c : ℕ) → 0 < c → div_ceil (n * c) 100 < 2 → n ≤ 100
low_parity n c h lt = omega (arith, le-mul_pos n c h, div_ceil_bounds (n * c) 100 (omega arith))

div_ceil-zero : (n : ℕ) → n ≡ 0 → div_ceil n 100 ≡ 0
unfolding div_ceil
div_ceil-zero n h = rw h

-- The two choices of `packetize`, on the count and on the percentage, agree.
choices_agree :
    (n c : ℕ)
    → 0 < n
    → let parity0 = if c == 0 then 0 else div_ceil (n * c) 100 in
      let floored = ltb 0 parity0 && ltb parity0 2 in
      div_ceil (n * (if floored then 100 * 2 / n else (if c == 0 then 0 else c))) 100
      ≡ (if floored then 2 else parity0)
choices_agree n c h = elim (Bool-cases (c == 0)) [
  | inl e ↦ rw e (div_ceil-zero (n * 0) (omega arith))
  | inr e ↦ rw e (elim (Bool-cases (ltb 0 (div_ceil (n * c) 100) && ltb (div_ceil (n * c) 100) 2)) [
    | inl f ↦ rw f (floor_percentage n h (low_parity n c (ground (arith, e)) (ground (arith, f))))
    | inr f ↦ rw f
  ])
]

-- The parity that a client computes from the advertised percentage is what is sent, but for the cap.
pub parity-percentage :
    (size len configured : ℕ)
    → let p = plan size len configured in
      p.parity_count
      ≡ min (div_ceil (p.data_count * p.percentage) 100) (max_shards_per_fec_block - p.data_count)
unfolding plan
parity-percentage size len configured =
    let n : ℕ = max (div_ceil len size) 1 in
    ap (λ (d : ℕ). min d (max_shards_per_fec_block - n))
      (sym (choices_agree n configured (omega arith)))
