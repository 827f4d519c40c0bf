-- ===== src/Video/Packetizer.antt =====
-- crates/redfog-moonlight/src/video.rs: the data and parity shards of an access unit, how many there are,
-- and `VideoPacketizer`.
use redfog.Base.{
  ℕ, zero, suc, ◌+◌, ◌-◌, ◌*◌, ◌/◌, ◌%◌, min, max, bit_or, Bool, List, [], ◌∷◌, ◌++◌, Option, none,
  some, ltb, ◌==◌, ◌&&◌, if◌then◌else◌, length, drop, map, replicate, zeros, copy_at, slice,
  copy_into, u16_size, u32_size,
}
use redfog.Base.Outcome.{Outcome, returns, expect, ◌>>=◌}
use redfog.Video.Wire.{
  payload_offset, video_frame_header_size, contains_pic_data, end_of_frame, start_of_frame,
  min_required_fec_packets, max_shards_per_fec_block, shard_payload_size, encode_fec_info,
  write_rtp_header, write_nv_at_offset, div_ceil, copy_header_and_data, frame_header,
}

-- What the shards of one access unit share.
pub record Frame : Type 0 where
  pub frame_number : ℕ
  pub rtp_timestamp : ℕ
  pub nr_data_shards : ℕ
  pub fec_percentage : ℕ
  pub header : List ℕ
  pub encoded_data : List ℕ

unfoldable pub shard_flags : ℕ → ℕ → ℕ
shard_flags nr_data_shards shard_index =
    let flags = contains_pic_data in
    let flags = if shard_index == 0 then bit_or flags start_of_frame else flags in
    if shard_index == nr_data_shards - 1 then bit_or flags end_of_frame else flags

abbrev pub fec_info_of : Frame → ℕ → ℕ
fec_info_of f shard_index =
    encode_fec_info (f.nr_data_shards % u32_size) (shard_index % u32_size)
      (f.fec_percentage % u32_size)

-- One turn of the loop over the data shards; `size` is `requested_shard_payload_size`.
unfoldable pub data_shard : ℕ → Frame → ℕ → ℕ → Outcome (List ℕ)
data_shard size f shard_index sequence_number = do
  let packet_data_len = video_frame_header_size + length f.encoded_data
  let payload_start = shard_index * size
  let payload_len = min size (packet_data_len - payload_start)
  let shard = zeros (payload_offset + size)
  let shard1 = write_rtp_header shard (sequence_number % u16_size) f.rtp_timestamp
  let shard2 =
      write_nv_at_offset shard1 (sequence_number * 256 % u32_size) f.frame_number
        (shard_flags f.nr_data_shards shard_index) (fec_info_of f shard_index)
  dst ← slice shard2 payload_offset (payload_offset + payload_len)
  payload ← copy_header_and_data dst f.header f.encoded_data payload_start payload_len
  returns (copy_at payload_offset payload shard2)

-- `for shard_index in 0..nr_data_shards`, by the rounds left.
unfoldable pub data_shards : ℕ → Frame → ℕ → ℕ → ℕ → Outcome (List (List ℕ))
data_shards size f zero shard_index sequence_number = returns []
data_shards size f (suc rounds) shard_index sequence_number = do
  shard ← data_shard size f shard_index sequence_number
  rest ← data_shards size f rounds (shard_index + 1) ((sequence_number + 1) % u32_size)
  returns (shard ∷ rest)

unfoldable pub parity_shard : ℕ → Frame → ℕ → ℕ → List ℕ → Outcome (List ℕ)
parity_shard size f shard_index sequence_number parity_payload =
    let shard = zeros (payload_offset + size) in
    let shard1 = write_rtp_header shard (sequence_number % u16_size) 0 in
    let shard2 =
      write_nv_at_offset shard1 (sequence_number * 256 % u32_size) f.frame_number contains_pic_data
        (fec_info_of f shard_index) in
    copy_into shard2 payload_offset (payload_offset + size) parity_payload

-- The loop over the parity payloads.
unfoldable pub parity_shards : ℕ → Frame → ℕ → ℕ → List (List ℕ) → Outcome (List (List ℕ))
parity_shards size f shard_index sequence_number [] = returns []
parity_shards size f shard_index sequence_number (payload ∷ payloads) = do
  shard ← parity_shard size f shard_index sequence_number payload
  rest ← parity_shards size f (shard_index + 1) ((sequence_number + 1) % u32_size) payloads
  returns (shard ∷ rest)

-- How many shards a frame of `packet_data_len` bytes gets, and the percentage that they advertise.
pub record Plan : Type 0 where
  pub data_count : ℕ
  pub parity_count : ℕ
  pub percentage : ℕ

unfoldable pub plan : ℕ → ℕ → ℕ → Plan
unfolding div_ceil
plan size packet_data_len configured =
    let nr_data = max (div_ceil packet_data_len size) 1 in
    let parity0 = if configured == 0 then 0 else div_ceil (nr_data * configured) 100 in
    let percentage0 = if configured == 0 then 0 else configured in
    let floored = ltb 0 parity0 && ltb parity0 min_required_fec_packets in
    let parity1 = if floored then min_required_fec_packets else parity0 in
    let percentage1 = if floored then 100 * min_required_fec_packets / nr_data else percentage0 in
    record {
      data_count = nr_data;
      parity_count = min parity1 (max_shards_per_fec_block - nr_data);
      percentage = percentage1;
    }

-- The crate fec_rs, which this repository only calls: codes for given shard counts.
pub record ReedSolomon : Type 1 where
  pub Code : Type 0
  pub new : ℕ → ℕ → Option Code
  pub encode_sep : Code → List (List ℕ) → List (List ℕ) → Option (List (List ℕ))

module _ (rs : ReedSolomon) where
  open rs use {Code, new, encode_sep}

  pub record VideoPacketizer : Type 0 where
    pub sequence_number : ℕ
    pub frame_number : ℕ
    pub fec_percentage : ℕ
    pub reed_solomon_cache : List (ℕ × ℕ × Code)

  -- `VideoPacketizer::new`, given what `configured_fec_percentage` reads from the environment.
  unfoldable pub new_packetizer : ℕ → VideoPacketizer
  new_packetizer configured = record {
    sequence_number = 0;
    frame_number = 1;
    fec_percentage = configured;
    reed_solomon_cache = [];
  }

  unfoldable pub cache_get : ℕ → ℕ → List (ℕ × ℕ × Code) → Option Code
  cache_get d p [] = none
  cache_get d p ((d', p', code) ∷ cache) =
      if d' == d && (p' == p) then some code else cache_get d p cache

  -- `reed_solomon_cache.entry(..).or_insert_with(..)`.
  unfoldable pub code_for : ℕ → ℕ → List (ℕ × ℕ × Code) → Outcome (Code × List (ℕ × ℕ × Code))
  unfolding cache_get
  code_for d p cache = elim (cache_get d p cache) [
    | some code ↦ returns (code, cache)
    | none ↦ do code ← expect (new d p); returns (code, (d, p, code) ∷ cache)
  ]

  unfoldable pub next_frame_number : VideoPacketizer → ℕ
  next_frame_number p = p.frame_number

  -- The block under `if nr_parity_shards > 0` after the loop.
  unfoldable pub fec_shards :
      ℕ
      → Frame
      → ℕ
      → ℕ
      → List (List ℕ)
      → List (ℕ × ℕ × Code)
      → Outcome (List (List ℕ) × List (ℕ × ℕ × Code))
  unfolding code_for
  fec_shards size f nr_parity sequence_number packets cache = do
    (code, cache') ← code_for f.nr_data_shards nr_parity cache
    payloads ←
        expect
          (encode_sep code (map (drop payload_offset) packets) (replicate nr_parity (zeros size)))
    parity ← parity_shards size f f.nr_data_shards sequence_number payloads
    returns (parity, cache')

  -- `packetize`: the next packetizer and the shards to send, in order.
  unfoldable pub packetize :
      VideoPacketizer → List ℕ → Bool → ℕ → Outcome (VideoPacketizer × List (List ℕ))
  packetize p encoded_data is_key_frame rtp_timestamp =
      let packet_data_len = video_frame_header_size + length encoded_data in
      let rest = packet_data_len % shard_payload_size in
      let last_shard_size = if rest == 0 then shard_payload_size else rest in
      let shape = plan shard_payload_size packet_data_len p.fec_percentage in
      let f : Frame = record {
        frame_number = p.frame_number;
        rtp_timestamp = rtp_timestamp;
        nr_data_shards = shape.data_count;
        fec_percentage = shape.percentage;
        header = frame_header last_shard_size is_key_frame;
        encoded_data = encoded_data;
      } in
      let next_frame = (p.frame_number + 1) % u32_size in
      let after_data = (p.sequence_number + shape.data_count) % u32_size in
      (do
        packets ← data_shards shard_payload_size f shape.data_count 0 p.sequence_number
        (parity, cache) ←
            (if ltb 0 shape.parity_count
              then fec_shards shard_payload_size f shape.parity_count after_data packets
                  p.reed_solomon_cache
              else returns ([], p.reed_solomon_cache))
        returns (
          record p {
            sequence_number = (after_data + shape.parity_count) % u32_size;
            frame_number = next_frame;
            reed_solomon_cache = cache;
          },
          packets ++ parity,
        ))
