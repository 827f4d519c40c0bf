-- ===== src/Video/FecInfo.antt =====
-- The `fec_info` word, and the flags of a data shard.
use redfog.Base.{
  ℕ, ◌+◌, ◌-◌, ◌*◌, ◌/◌, ◌%◌, ◌^◌, ◌<◌, ◌≡◌, ◌∙◌, bit_or, bit_or-add, bit_or_comm, ◌==◌,
  if◌then◌else◌, u32_size, arith,
}
use redfog.Video.Wire.{encode_fec_info}
use redfog.Video.Packetizer.{shard_flags}

pub fec_info_sum :
    (data_shards_total shard_index fec_percentage : ℕ)
    → data_shards_total < 1024
    → shard_index < 1024
    → fec_percentage < 256
    → encode_fec_info data_shards_total shard_index fec_percentage
      ≡ data_shards_total * 4194304 + shard_index * 4096 + fec_percentage * 16
unfolding encode_fec_info
fec_info_sum d i p hd hi hp =
    let d' : d * 4194304 % u32_size ≡ d * 2 ^ 22 = omega arith in
    let i' : i * 4096 % u32_size ≡ i * 4096 = omega arith in
    let p' : p * 16 % u32_size ≡ p * 16 = omega arith in
    let high : bit_or (i * 4096) (d * 2 ^ 22) ≡ (d * 1024 + i) * 2 ^ 12 =
      bit_or_comm (i * 4096) (d * 2 ^ 22)
      ∙ bit_or-add 22 d (i * 4096) (omega arith)
      ∙ omega arith in
    let low : bit_or ((d * 1024 + i) * 2 ^ 12) (p * 16) ≡ (d * 1024 + i) * 2 ^ 12 + p * 16 =
      bit_or-add 12 (d * 1024 + i) (p * 16) (omega arith) in
    rw (d', i', p', high, low) (omega arith)

-- The three fields of the `fec_info` word, at bits 22, 12 and 4, can be read back when the shard
-- counts are below 1024 and the percentage is below 256.
pub fec_info_fields :
    (data_shards_total shard_index fec_percentage : ℕ)
    → data_shards_total < 1024
    → shard_index < 1024
    → fec_percentage < 256
    → let w = encode_fec_info data_shards_total shard_index fec_percentage in
      (w / 2 ^ 22 % 1024 ≡ data_shards_total)
      × (w / 2 ^ 12 % 1024 ≡ shard_index)
      × (w / 2 ^ 4 % 256 ≡ fec_percentage)
      × (w < u32_size)
fec_info_fields d i p hd hi hp = rw (fec_info_sum d i p hd hi hp) (omega arith)

-- A frame of 1024 shards or more does not fit the word: its total is taken modulo 1024, so that two
-- frames that differ by 1024 data shards announce the same total in every shard.
pub fec_info_truncates :
    (data_shards_total shard_index fec_percentage : ℕ)
    → encode_fec_info (data_shards_total + 1024) shard_index fec_percentage
      ≡ encode_fec_info data_shards_total shard_index fec_percentage
unfolding encode_fec_info
fec_info_truncates d i p =
    let e : (d + 1024) * 4194304 % u32_size ≡ d * 4194304 % u32_size = omega arith in rw e

pub shard_flags_lem :
    (n i : ℕ) → shard_flags n i ≡ 1 + (if i == 0 then 4 else 0) + (if i == n - 1 then 2 else 0)
unfolding shard_flags
shard_flags_lem n i = ground arith
