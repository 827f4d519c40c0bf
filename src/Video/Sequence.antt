-- ===== src/Video/Sequence.antt =====
-- The headers of the shards of one frame, in the order they are sent.
use redfog.Base.{
  ◌==◌, ◌-◌, ◌≤◌, if◌then◌else◌, ℕ, zero, suc, ◌+◌, ◌*◌, ◌%◌, ◌<◌, ◌≡◌, refl, ap, ◌∙◌, sym, Bool,
  some, List, [], ◌∷◌, ◌++◌, length, take, get_elem?, take-append, u16_size, u32_size, arith,
}
use redfog.Base.Outcome.{returns}
use redfog.Video.Wire.{payload_offset, shard_payload_size, contains_pic_data}
use redfog.Video.Packetizer.{
  Frame, ReedSolomon, VideoPacketizer, Plan, packetize, shard_flags, fec_info_of,
}
use redfog.Video.FecInfo.{fec_info_sum, shard_flags_lem}
use redfog.Video.Header.{shard_header, length-shard_header}
use redfog.Video.Shards.{
  data_shard_bytes, data_shards_bytes, parity_shard_bytes, parity_shards_bytes,
}
use redfog.Video.Layout.{length-data_shards_bytes}
use redfog.Video.Codes.{ReedSolomonLaws, CacheIsValid}
use redfog.Video.Packets.{packetize_lem, sent, frame, shape}

-- Only the counter modulo 2^32 is on the wire.
shard_header-mod :
    (a b t i fl fe : ℕ)
    → a % u32_size ≡ b % u32_size
    → shard_header a t i fl fe ≡ shard_header b t i fl fe
unfolding shard_header
shard_header-mod a b t i fl fe h =
    let low : a % u16_size ≡ b % u16_size = omega arith in
    let index : a * 256 % u32_size ≡ b * 256 % u32_size = omega arith in rw (low, index)

-- The shard `b` starts with the header `h`.
abbrev pub StartsWith : List ℕ → List ℕ → Type 0
StartsWith h b = take payload_offset b ≡ h

starts : (h rest : List ℕ) → length h ≡ payload_offset → StartsWith h (h ++ rest)
starts h rest e = ap (λ (n : ℕ). take n (h ++ rest)) (sym e) ∙ take-append h rest

get_elem?-append_left {ℓ} :
    {A : Type ℓ} (xs ys : List A) (k : ℕ) → k < length xs → get_elem? (xs ++ ys) k ≡ get_elem? xs k
get_elem?-append_left [] ys k h = absurd (omega arith)
get_elem?-append_left (x ∷ xs) ys zero h = refl
get_elem?-append_left (x ∷ xs) ys (suc k) h = get_elem?-append_left xs ys k (omega arith)

get_elem?-append_right {ℓ} :
    {A : Type ℓ} (xs ys : List A) (k : ℕ) → get_elem? (xs ++ ys) (length xs + k) ≡ get_elem? ys k
get_elem?-append_right [] ys k = let e : 0 + k ≡ k = omega arith in rw e
get_elem?-append_right (x ∷ xs) ys k =
    let e : suc (length xs) + k ≡ suc (length xs + k) = omega arith in
    rw e (get_elem?-append_right xs ys k)

module _ (size : ℕ) (f : Frame) where
  data_header :
      (n i s k : ℕ)
      → k < n
      → (b : List ℕ) × (get_elem? (data_shards_bytes size f n i s) k ≡ some b)
        × StartsWith
            (shard_header
              (s + k)
              f.rtp_timestamp
              f.frame_number
              (shard_flags f.nr_data_shards (i + k))
              (fec_info_of f (i + k)))
            b
  unfolding data_shards_bytes data_shard_bytes
  data_header zero i s k h = absurd (omega arith)
  data_header (suc n) i s zero h =
      let es : s + 0 ≡ s = omega arith in
      let ei : i + 0 ≡ i = omega arith in
      (_, refl, rw (es, ei) (starts _ _ (length-shard_header _ _ _ _ _)))
  data_header (suc n) i s (suc k) h =
      let (b, got, start) = data_header n (i + 1) ((s + 1) % u32_size) k (omega arith) in
      let ei : i + suc k ≡ i + 1 + k = omega arith in
      (b, got, rw ei (start ∙ shard_header-mod _ _ _ _ _ _ (omega arith)))

  parity_header :
      (payloads : List (List ℕ)) (i s k : ℕ)
      → k < length payloads
      → (b : List ℕ) × (get_elem? (parity_shards_bytes f i s payloads) k ≡ some b)
        × StartsWith
            (shard_header (s + k) 0 f.frame_number contains_pic_data (fec_info_of f (i + k)))
            b
  unfolding parity_shards_bytes parity_shard_bytes
  parity_header [] i s k h = absurd (omega arith)
  parity_header (p ∷ ps) i s zero h =
      let es : s + 0 ≡ s = omega arith in
      let ei : i + 0 ≡ i = omega arith in
      (_, refl, rw (es, ei) (starts _ _ (length-shard_header _ _ _ _ _)))
  parity_header (p ∷ ps) i s (suc k) h =
      let (b, got, start) = parity_header ps (i + 1) ((s + 1) % u32_size) k (omega arith) in
      let ei : i + suc k ≡ i + 1 + k = omega arith in
      (b, got, rw ei (start ∙ shard_header-mod _ _ _ _ _ _ (omega arith)))

-- The bits of the first and the last data shard of a frame, and of a shard that carries a picture.
abbrev pub flags_of : ℕ → ℕ → ℕ
flags_of data_count k = 1 + (if k == 0 then 4 else 0) + (if k == data_count - 1 then 2 else 0)

-- The number of data shards at bit 22, the shard's own index at bit 12 and the percentage at bit 4.
abbrev pub fec_word : Plan → ℕ → ℕ
fec_word plan k = plan.data_count * 4194304 + k * 4096 + plan.percentage * 16

fec_info_word :
    (rs : ReedSolomon) (laws : ReedSolomonLaws rs) (p : VideoPacketizer rs) (encoded_data : List ℕ)
    (is_key_frame : Bool) (rtp_timestamp k : ℕ)
    → let plan = shape rs laws p encoded_data is_key_frame rtp_timestamp in
      plan.data_count < 1024
      → k < 1024
      → plan.percentage < 256
      → fec_info_of (frame rs laws p encoded_data is_key_frame rtp_timestamp) k ≡ fec_word plan k
fec_info_word rs laws p bytes key ts k hd hk hp =
    let plan = shape rs laws p bytes key ts in
    let d : plan.data_count % u32_size ≡ plan.data_count = omega arith in
    let i : k % u32_size ≡ k = omega arith in
    let q : plan.percentage % u32_size ≡ plan.percentage = omega arith in
    rw (d, i, q) (fec_info_sum (plan.data_count) k (plan.percentage) hd hk hp)

-- With codes that keep their laws and a valid cache of them, for a frame of fewer than 1024 data shards,
-- at most 1024 shards in all and a percentage below 256: the `k`-th shard that is sent carries the
-- packetizer's counter plus `k`, the frame number, and in the `fec_info` word the number of data shards,
-- its own index `k` and the percentage. A data shard has the frame's timestamp, and among its flags 4
-- just on the first and 2 just on the last; a parity shard has timestamp 0 and neither of them.
pub packetize-headers :
    (rs : ReedSolomon) (laws : ReedSolomonLaws rs) (p : VideoPacketizer rs) (encoded_data : List ℕ)
    (is_key_frame : Bool) (rtp_timestamp : ℕ)
    → CacheIsValid rs p.reed_solomon_cache
    → let plan = shape rs laws p encoded_data is_key_frame rtp_timestamp in
      plan.data_count < 1024
      → plan.data_count + plan.parity_count ≤ 1024
      → plan.percentage < 256
      → (next : VideoPacketizer rs) × (shards : List (List ℕ)) × (packetize rs p encoded_data
            is_key_frame rtp_timestamp
          ≡ returns (next, shards))
        × ((k : ℕ)
            → k < plan.data_count
            → (b : List ℕ) × (get_elem? shards k ≡ some b)
              × StartsWith
                  (shard_header
                    (p.sequence_number + k)
                    rtp_timestamp
                    p.frame_number
                    (flags_of plan.data_count k)
                    (fec_word plan k))
                  b)
        × ((k : ℕ)
            → k < plan.parity_count
            → (b : List ℕ) × (get_elem? shards (plan.data_count + k) ≡ some b)
              × StartsWith
                  (shard_header
                    (p.sequence_number + (plan.data_count + k))
                    0
                    p.frame_number
                    1
                    (fec_word plan (plan.data_count + k)))
                  b)
packetize-headers rs laws p bytes key ts v few all small =
    let (payloads, _, run, _, _, parity_count, _) = packetize_lem rs laws p bytes key ts v in
    let f : Frame = frame rs laws p bytes key ts in
    let n : ℕ = f.nr_data_shards in
    let s : ℕ = p.sequence_number in
    let ds : List (List ℕ) = sent rs laws p bytes key ts in
    let ps : List (List ℕ) = parity_shards_bytes f n ((s + n) % u32_size) payloads in
    let count : length ds ≡ n = length-data_shards_bytes shard_payload_size f n 0 s in
    let at : (k : ℕ) → get_elem? (ds ++ ps) (n + k) ≡ get_elem? ps k = λ k.
      ap (λ (m : ℕ). get_elem? (ds ++ ps) (m + k)) (sym count) ∙ get_elem?-append_right ds ps k in
    let word : (k : ℕ) → k < 1024 → fec_info_of f k ≡ fec_word (shape rs laws p bytes key ts) k =
      λ k h. fec_info_word rs laws p bytes key ts k few h small in
    (
      _,
      ds ++ ps,
      run,
      (λ k h.
          let (b, got, start) = data_header shard_payload_size f n 0 s k h in
          let e : 0 + k ≡ k = omega arith in
          (
            b,
            get_elem?-append_left ds ps k (omega arith) ∙ got,
            rw e at start
                ∙ ap (λ (w : ℕ). shard_header (s + k) ts (p.frame_number) (shard_flags n k) w)
                    (word k (omega arith))
                ∙ ap
                    (λ (fl : ℕ).
                      shard_header (s + k) ts (p.frame_number) fl
                        (fec_word (shape rs laws p bytes key ts) k))
                    (shard_flags_lem n k),
          )),
      λ k h.
          let (b, got, start) =
            parity_header shard_payload_size f payloads n ((s + n) % u32_size) k (omega arith) in
          (
            b,
            at k ∙ got,
            start
                ∙ shard_header-mod _ _ _ _ _ _ (omega arith)
                ∙ ap (λ (w : ℕ). shard_header (s + (n + k)) 0 (p.frame_number) 1 w)
                    (word (n + k) (omega arith)),
          ),
    )
