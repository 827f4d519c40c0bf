-- ===== src/Video/Layout.antt =====
-- Sizes and payloads of the shards of a frame.
use redfog.Base.{
  ℕ, zero, suc, ◌+◌, ◌≡◌, refl, ap, sym, ◌∙◌, List, [], ◌∷◌, ◌++◌, map, length, drop, length-append,
  drop-append, All, arith,
}
use mathlib.Core.Path.{ap₂}
use redfog.Video.Wire.{payload_offset}
use redfog.Video.Packetizer.{Frame}
use redfog.Video.Header.{length-shard_header}
use redfog.Video.Shards.{
  stream, piece, data_shard_bytes, parity_shard_bytes, data_shards_bytes, parity_shards_bytes,
}
use redfog.Video.Pieces.{pieces, length-piece}

pub drop-header :
    (header payload : List ℕ)
    → length header ≡ payload_offset
    → drop payload_offset (header ++ payload) ≡ payload
drop-header header payload h =
    ap (λ (n : ℕ). drop n (header ++ payload)) (sym h) ∙ drop-append header payload

length-shard :
    (header payload : List ℕ) (size : ℕ)
    → length header ≡ payload_offset
    → length payload ≡ size
    → length (header ++ payload) ≡ payload_offset + size
length-shard header payload size h k = omega (arith, length-append header payload)

module _ (size : ℕ) (f : Frame) where
  pub length-data_shards_bytes : (n i s : ℕ) → length (data_shards_bytes size f n i s) ≡ n
  unfolding data_shards_bytes
  length-data_shards_bytes zero i s = refl
  length-data_shards_bytes (suc n) i s = ap suc (length-data_shards_bytes n (i + 1) _)

  payload-data_shard_bytes :
      (i s : ℕ) → drop payload_offset (data_shard_bytes size f i s) ≡ piece size (stream f) i
  unfolding data_shard_bytes
  payload-data_shard_bytes i s = drop-header _ _ (length-shard_header _ _ _ _ _)

  pub payloads-data_shards_bytes :
      (n i s : ℕ)
      → map (drop payload_offset) (data_shards_bytes size f n i s) ≡ pieces size (stream f) n i
  unfolding data_shards_bytes pieces
  payloads-data_shards_bytes zero i s = refl
  payloads-data_shards_bytes (suc n) i s =
      ap₂ ◌∷◌ (payload-data_shard_bytes i s) (payloads-data_shards_bytes n (i + 1) _)

  pub sizes-data_shards_bytes :
      (n i s : ℕ)
      → All (λ b. length (drop payload_offset b) ≡ size) (data_shards_bytes size f n i s)
  unfolding data_shards_bytes
  sizes-data_shards_bytes zero i s = tt
  sizes-data_shards_bytes (suc n) i s = (
    ap (λ (b : List ℕ). length b) (payload-data_shard_bytes i s) ∙ length-piece size (stream f) i,
    sizes-data_shards_bytes n (i + 1) _,
  )

  pub lengths-data_shards_bytes :
      (n i s : ℕ) → All (λ b. length b ≡ payload_offset + size) (data_shards_bytes size f n i s)
  unfolding data_shards_bytes data_shard_bytes
  lengths-data_shards_bytes zero i s = tt
  lengths-data_shards_bytes (suc n) i s = (
    length-shard _ _ size (length-shard_header _ _ _ _ _) (length-piece size (stream f) i),
    lengths-data_shards_bytes n (i + 1) _,
  )

  pub lengths-parity_shards_bytes :
      (i s : ℕ) (payloads : List (List ℕ))
      → All (λ b. length b ≡ size) payloads
      → All (λ b. length b ≡ payload_offset + size) (parity_shards_bytes f i s payloads)
  unfolding parity_shards_bytes parity_shard_bytes
  lengths-parity_shards_bytes i s [] h = tt
  lengths-parity_shards_bytes i s (payload ∷ payloads) h = (
    length-shard _ payload size (length-shard_header _ _ _ _ _) h.0,
    lengths-parity_shards_bytes (i + 1) _ payloads h.1,
  )

  pub length-parity_shards_bytes :
      (i s : ℕ) (payloads : List (List ℕ))
      → length (parity_shards_bytes f i s payloads) ≡ length payloads
  unfolding parity_shards_bytes
  length-parity_shards_bytes i s [] = refl
  length-parity_shards_bytes i s (payload ∷ payloads) =
      ap suc (length-parity_shards_bytes (i + 1) _ payloads)
