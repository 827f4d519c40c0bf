-- ===== src/Video/Header.antt =====
-- The 32 bytes in front of a shard's payload, as one list.
use redfog.Base.{
  ℕ, ◌+◌, ◌*◌, ◌%◌, ◌≡◌, refl, Bool, List, ◌∷◌, ◌++◌, length, replicate, zeros, replicate-add,
  be_u16, be_u32, le_u32, u16_size, u32_size,
}
use redfog.Video.Wire.{payload_offset, write_rtp_header, write_nv_at_offset, frame_header}

-- RTP header, padding, NvVideoPacket header.
unfoldable pub shard_header : ℕ → ℕ → ℕ → ℕ → ℕ → List ℕ
shard_header sequence_number timestamp frame_index flags fec_info =
    0x90 ∷ 0 ∷ be_u16 (sequence_number % u16_size)
    ++ (be_u32 timestamp
        ++ (0 ∷ 0 ∷ 0 ∷ 0 ∷ 0 ∷ 0 ∷ 0 ∷ 0 ∷ le_u32 (sequence_number * 256 % u32_size)
            ++ (le_u32 frame_index ++ (flags ∷ 0 ∷ 0x10 ∷ 0 ∷ le_u32 fec_info))))

pub length-shard_header : (s t i fl fe : ℕ) → length (shard_header s t i fl fe) ≡ payload_offset
unfolding shard_header
length-shard_header s t i fl fe = refl

-- Both header writes into a fresh buffer give the header, with the payload still zero.
pub write-headers :
    (size s t i fl fe : ℕ)
    → write_nv_at_offset
        (write_rtp_header (zeros (payload_offset + size)) (s % u16_size) t)
        (s * 256 % u32_size)
        i
        fl
        fe
      ≡ shard_header s t i fl fe ++ zeros size
unfolding write_nv_at_offset write_rtp_header shard_header replicate
write-headers size s t i fl fe = rw (replicate-add {A = ℕ} payload_offset size 0) refl

pub length-frame_header : (n : ℕ) (k : Bool) → length (frame_header n k) ≡ 8
unfolding frame_header replicate
length-frame_header n k = refl
