-- ===== src/Video/Shards.antt =====
-- What each shard of a frame is: its header, then its piece of the frame's stream.
use redfog.Base.{
  ℕ, zero, suc, ◌+◌, ◌-◌, ◌*◌, ◌%◌, ◌≤◌, ◌<◌, min, ◌≡◌, refl, ap, sym, ◌∙◌, List, [], ◌∷◌, ◌++◌,
  length, take, drop, zeros, copy_at, slice, slice_lem, copy_into, copy_into_lem, copy_at-prefix,
  copy_at-after, length-take, length-drop, length-append, length-zeros, replicate-add, take-min,
  u32_size, All, replicate-eq-nil, append-nil, arith,
}
use redfog.Base.Outcome.{returns}
use redfog.Video.Wire.{payload_offset, contains_pic_data, copy_header_and_data}
use redfog.Video.Packetizer.{
  Frame, data_shard, data_shards, parity_shard, parity_shards, shard_flags, fec_info_of,
}
use redfog.Video.Header.{shard_header, length-shard_header, write-headers}
use redfog.Video.Stream.{copy_header_and_data_lem}

-- The bytes that a frame sends, before they are cut.
abbrev pub stream : Frame → List ℕ
stream f = f.header ++ f.encoded_data

-- The `i`-th piece of `size` bytes, filled up with zeros.
unfoldable pub piece : ℕ → List ℕ → ℕ → List ℕ
piece size bytes i =
    let part = take size (drop (i * size) bytes) in part ++ zeros (size - length part)

unfoldable pub data_shard_bytes : ℕ → Frame → ℕ → ℕ → List ℕ
data_shard_bytes size f i s =
    shard_header s f.rtp_timestamp f.frame_number (shard_flags f.nr_data_shards i) (fec_info_of f i)
    ++ piece size (stream f) i

-- A write into the first `n` of `n + k` zeros.
fill_zeros :
    (part : List ℕ) (size : ℕ)
    → length part ≤ size
    → copy_at 0 part (zeros size) ≡ part ++ zeros (size - length part)
fill_zeros part size h =
    let e : length part + (size - length part) ≡ size = omega arith in
    ap (λ (n : ℕ). copy_at 0 part (zeros n)) (sym e)
    ∙ ap (copy_at 0 part) (replicate-add (length part) (size - length part) 0)
    ∙ copy_at-prefix part (zeros (length part)) (zeros (size - length part))
        (sym (length-zeros (length part)))

write_payload :
    (header part : List ℕ) (size : ℕ)
    → length header ≡ payload_offset
    → length part ≤ size
    → copy_at payload_offset part (header ++ zeros size)
      ≡ header ++ (part ++ zeros (size - length part))
write_payload header part size h k =
    let e : payload_offset ≡ length header + 0 = omega arith in
    ap (λ (n : ℕ). copy_at n part (header ++ zeros size)) e
    ∙ copy_at-after 0 part header (zeros size)
    ∙ ap (◌++◌ header) (fill_zeros part size k)

unfoldable pub data_shards_bytes : ℕ → Frame → ℕ → ℕ → ℕ → List (List ℕ)
data_shards_bytes size f zero i s = []
data_shards_bytes size f (suc rounds) i s =
    data_shard_bytes size f i s ∷ data_shards_bytes size f rounds (i + 1) ((s + 1) % u32_size)

unfoldable pub parity_shard_bytes : Frame → ℕ → ℕ → List ℕ → List ℕ
parity_shard_bytes f i s payload =
    shard_header s 0 f.frame_number contains_pic_data (fec_info_of f i) ++ payload

unfoldable pub parity_shards_bytes : Frame → ℕ → ℕ → List (List ℕ) → List (List ℕ)
parity_shards_bytes f i s [] = []
parity_shards_bytes f i s (payload ∷ payloads) =
    parity_shard_bytes f i s payload ∷ parity_shards_bytes f (i + 1) ((s + 1) % u32_size) payloads

module _ (size : ℕ) (f : Frame) (header_size : length f.header ≡ 8) where
  -- One turn of the loop never panics while a piece of the stream is left, and gives that shard.
  pub data_shard_lem :
      (i s : ℕ)
      → i * size ≤ length (stream f)
      → data_shard size f i s ≡ returns (data_shard_bytes size f i s)
  unfolding data_shard data_shard_bytes piece
  data_shard_lem i s h =
      let hdr : List ℕ =
        shard_header s f.rtp_timestamp f.frame_number (shard_flags f.nr_data_shards i)
          (fec_info_of f i) in
      let hdr_size : length hdr ≡ payload_offset = length-shard_header _ _ _ _ _ in
      let buf : List ℕ = hdr ++ zeros size in
      let buf_size : length buf ≡ payload_offset + size =
        omega (arith, length-append hdr (zeros size), length-zeros size) in
      let left : length (drop (i * size) (stream f)) ≡ 8 + length f.encoded_data - i * size =
        omega (arith, length-drop (i * size) (stream f), length-append f.header f.encoded_data) in
      let len : ℕ = min size (8 + length f.encoded_data - i * size) in
      let dst : List ℕ = take (payload_offset + len - payload_offset) (drop payload_offset buf) in
      let read : slice buf payload_offset (payload_offset + len) ≡ returns dst =
        slice_lem buf payload_offset (payload_offset + len) (omega arith) (omega arith) in
      let part : List ℕ = take size (drop (i * size) (stream f)) in
      let cut : take len (drop (i * size) (stream f)) ≡ part =
        ap (λ (n : ℕ). take (min size n) (drop (i * size) (stream f))) (sym left)
        ∙ take-min size (drop (i * size) (stream f)) in
      let copy : copy_header_and_data dst f.header f.encoded_data (i * size) len ≡ returns part =
        copy_header_and_data_lem dst f.header f.encoded_data (i * size) len header_size
          (omega (
            arith,
            length-take (payload_offset + len - payload_offset) (drop payload_offset buf),
            length-drop payload_offset buf,
          ))
          (omega (arith, length-append f.header f.encoded_data))
        ∙ ap returns cut in
      let fits : length part ≤ size =
        omega (arith, length-take size (drop (i * size) (stream f))) in
      rw (write-headers, read, copy) (ap returns (write_payload hdr part size hdr_size fits))

  pub data_shards_lem :
      (rounds i s : ℕ)
      → ((k : ℕ) → k < i + rounds → k * size ≤ length (stream f))
      → data_shards size f rounds i s ≡ returns (data_shards_bytes size f rounds i s)
  unfolding data_shards data_shards_bytes
  data_shards_lem zero i s h = refl
  data_shards_lem (suc rounds) i s h =
      let first : data_shard size f i s ≡ returns (data_shard_bytes size f i s) =
        data_shard_lem i s (h i (omega arith)) in
      rw (first, data_shards_lem rounds (i + 1) ((s + 1) % u32_size) (λ k lt. h k (omega arith)))

parity_shard_lem :
    (size : ℕ) (f : Frame) (i s : ℕ) (payload : List ℕ)
    → length payload ≡ size
    → parity_shard size f i s payload ≡ returns (parity_shard_bytes f i s payload)
unfolding parity_shard parity_shard_bytes
parity_shard_lem size f i s payload h =
    let hdr : List ℕ = shard_header s 0 f.frame_number contains_pic_data (fec_info_of f i) in
    let hdr_size : length hdr ≡ payload_offset = length-shard_header _ _ _ _ _ in
    let buf : List ℕ = hdr ++ zeros size in
    let buf_size : length buf ≡ payload_offset + size =
      omega (arith, length-append hdr (zeros size), length-zeros size) in
    let write : copy_into buf payload_offset (payload_offset + size) payload
        ≡ returns (copy_at payload_offset payload buf) =
      copy_into_lem buf payload_offset (payload_offset + size) payload (omega arith)
        (omega arith) in
    let none_left : zeros (size - length payload) ≡ [] =
      replicate-eq-nil (size - length payload) 0 (omega arith) in
    rw (write-headers, write)
      (ap returns (
        write_payload hdr payload size hdr_size (omega arith)
        ∙ ap (λ (z : List ℕ). hdr ++ (payload ++ z)) none_left
        ∙ ap (◌++◌ hdr) (append-nil payload)))

pub parity_shards_lem :
    (size : ℕ) (f : Frame) (i s : ℕ) (payloads : List (List ℕ))
    → All (λ p. length p ≡ size) payloads
    → parity_shards size f i s payloads ≡ returns (parity_shards_bytes f i s payloads)
unfolding parity_shards parity_shards_bytes
parity_shards_lem size f i s [] h = refl
parity_shards_lem size f i s (payload ∷ payloads) h = rw (
  parity_shard_lem size f i s payload h.0,
  parity_shards_lem size f (i + 1) ((s + 1) % u32_size) payloads h.1,
)
