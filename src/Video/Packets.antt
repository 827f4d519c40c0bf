-- ===== src/Video/Packets.antt =====
-- `packetize` as a whole.
use redfog.Base.{
  ℕ, ◌+◌, ◌-◌, ◌*◌, ◌%◌, ◌<◌, ◌≡◌, refl, ap, sym, ◌∙◌, ◌⊎◌, inl, inr, Bool, some, List, [], ◌++◌,
  map, concat, length, take, drop, replicate, zeros, length-append, take-append, u32_size, All,
  All-append, ltb, ◌==◌, if◌then◌else◌, Bool-cases, ltb→lt, arith,
}
use native.Mathlib.Nat.{le_trans}
use redfog.Base.Outcome.{returns}
use redfog.Video.Wire.{payload_offset, shard_payload_size, frame_header, video_frame_header_size}
use redfog.Video.Packetizer.{
  Frame, Plan, plan, ReedSolomon, VideoPacketizer, packetize, data_shards,
}
use redfog.Video.Header.{length-frame_header}
use redfog.Video.Fec.{data_count_pos, data_count_covers, data_count_least, parity_fits}
use redfog.Video.Shards.{stream, data_shards_bytes, parity_shards_bytes, data_shards_lem}
use redfog.Video.Pieces.{concat-pieces}
use redfog.Video.Layout.{
  length-data_shards_bytes, payloads-data_shards_bytes, sizes-data_shards_bytes,
  lengths-data_shards_bytes, lengths-parity_shards_bytes, length-parity_shards_bytes,
}
use redfog.Video.Codes.{ReedSolomonLaws, CacheIsValid, fec_shards_lem}

module _ (rs : ReedSolomon) (laws : ReedSolomonLaws rs) (p : VideoPacketizer rs)
    (encoded_data : List ℕ) (is_key_frame : Bool) (rtp_timestamp : ℕ) where
  open rs use {Code, new, encode_sep}

  abbrev len : ℕ
  len = video_frame_header_size + length encoded_data

  abbrev pub shape : Plan
  shape = plan shard_payload_size len p.fec_percentage

  abbrev last_shard_size : ℕ
  last_shard_size =
      if len % shard_payload_size == 0 then shard_payload_size else len % shard_payload_size

  abbrev pub frame : Frame
  frame = record {
    frame_number = p.frame_number;
    rtp_timestamp = rtp_timestamp;
    nr_data_shards = shape.data_count;
    fec_percentage = shape.percentage;
    header = frame_header last_shard_size is_key_frame;
    encoded_data = encoded_data;
  }

  abbrev pub sent : List (List ℕ)
  sent = data_shards_bytes shard_payload_size frame shape.data_count 0 p.sequence_number

  abbrev after_data : ℕ
  after_data = (p.sequence_number + shape.data_count) % u32_size

  -- The parity payloads that belong to the data shards.
  abbrev pub Parity : List (List ℕ) → Type 0
  Parity payloads =
      ((shape.parity_count ≡ 0) × (payloads ≡ []))
      ⊎ ((code : Code) × (0 < shape.parity_count)
          × (new shape.data_count shape.parity_count ≡ some code)
          × (encode_sep code (map (drop payload_offset) sent)
                (replicate shape.parity_count (zeros shard_payload_size))
              ≡ some payloads))

  header_size : length frame.header ≡ 8
  header_size = length-frame_header last_shard_size is_key_frame

  data_part :
      data_shards shard_payload_size frame shape.data_count 0 p.sequence_number ≡ returns sent
  data_part =
      data_shards_lem shard_payload_size frame header_size shape.data_count 0 p.sequence_number
        λ k h.
          le_trans
            (data_count_least shard_payload_size len p.fec_percentage (omega arith) (omega arith) k
              (omega arith))
            (omega (arith, header_size, length-append frame.header encoded_data))

  pub packetize_lem :
      CacheIsValid rs p.reed_solomon_cache
      → (payloads : List (List ℕ)) × (cache : List (ℕ × ℕ × Code)) × (packetize rs p encoded_data
            is_key_frame rtp_timestamp
          ≡ returns (
            record p {
              sequence_number = (after_data + shape.parity_count) % u32_size;
              frame_number = (p.frame_number + 1) % u32_size;
              reed_solomon_cache = cache;
            },
            sent ++ parity_shards_bytes frame shape.data_count after_data payloads,
          ))
        × CacheIsValid rs cache
        × Parity payloads
        × (length payloads ≡ shape.parity_count)
        × All (λ b. length b ≡ shard_payload_size) payloads
  unfolding packetize parity_shards_bytes
  packetize_lem v = elim (Bool-cases (ltb 0 shape.parity_count)) [
    | inl some_parity ↦
        let pos : 0 < shape.parity_count = ltb→lt 0 shape.parity_count some_parity in
        let (code, payloads, cache, made_shards, made, encoded, count, sizes, v') =
          fec_shards_lem rs laws shard_payload_size frame shape.parity_count after_data sent
            p.reed_solomon_cache v (omega arith)
            (data_count_pos shard_payload_size len p.fec_percentage (omega arith) (omega arith)) pos
            (omega (
              arith,
              parity_fits shard_payload_size len p.fec_percentage (omega arith) (omega arith) pos,
            ))
            (length-data_shards_bytes shard_payload_size frame shape.data_count 0 _)
            (sizes-data_shards_bytes shard_payload_size frame shape.data_count 0 _) in
        (
          payloads,
          cache,
          rw (data_part, some_parity, made_shards),
          v',
          inr (code, pos, made, encoded),
          count,
          sizes,
        )
    | inr no_parity ↦
        let none_sent : shape.parity_count ≡ 0 = ground (arith, no_parity) in
        (
          [],
          p.reed_solomon_cache,
          rw (data_part, no_parity) refl,
          v,
          inl (none_sent, refl),
          sym none_sent,
          tt,
        )
  ]

  -- With codes that keep their laws and a valid cache of them, `packetize` never panics. It sends the planned numbers of data and parity shards, each of the
  -- negotiated 1040 bytes, keeps the cache of codes valid, and counts one frame and one sequence
  -- number for each shard, modulo 2^32.
  pub packetize_total :
      CacheIsValid rs p.reed_solomon_cache
      → (next : VideoPacketizer rs) × (shards : List (List ℕ)) × (packetize rs p encoded_data
            is_key_frame rtp_timestamp
          ≡ returns (next, shards))
        × (length shards ≡ shape.data_count + shape.parity_count)
        × All (λ b. length b ≡ 1040) shards
        × CacheIsValid rs next.reed_solomon_cache
        × (next.sequence_number ≡ (p.sequence_number + length shards) % u32_size)
        × (next.frame_number ≡ (p.frame_number + 1) % u32_size)
  packetize_total v =
      let (payloads, cache, run, v', _, count, sizes) = packetize_lem v in
      let parity : List (List ℕ) = parity_shards_bytes frame shape.data_count after_data payloads in
      let total : length (sent ++ parity) ≡ shape.data_count + shape.parity_count = omega (
        arith,
        length-append sent parity,
        length-data_shards_bytes shard_payload_size frame shape.data_count 0 p.sequence_number,
        length-parity_shards_bytes shard_payload_size frame shape.data_count after_data payloads,
        count,
      ) in
      (
        _,
        sent ++ parity,
        run,
        total,
        All-append (λ b. length b ≡ 1040) sent parity
            (lengths-data_shards_bytes shard_payload_size frame shape.data_count 0 _)
            (lengths-parity_shards_bytes shard_payload_size frame shape.data_count _ payloads
              sizes),
        v',
        rw total (omega arith),
        refl,
      )

  -- With such codes and a valid cache, `packetize` returns, and the payloads of the data shards, in
  -- order, are the frame header and the encoded data, and then
  -- only zeros: what a client joins from a complete frame is what was encoded.
  pub packetize-reassembles :
      CacheIsValid rs p.reed_solomon_cache
      → (next : VideoPacketizer rs) × (shards : List (List ℕ)) × (packetize rs p encoded_data
            is_key_frame rtp_timestamp
          ≡ returns (next, shards))
        × (concat (map (drop payload_offset) (take shape.data_count shards))
            ≡ (frame.header ++ encoded_data) ++ zeros (shape.data_count * shard_payload_size - len))
  packetize-reassembles v =
      let (payloads, cache, run, _, _, _, _) = packetize_lem v in
      let parity : List (List ℕ) = parity_shards_bytes frame shape.data_count after_data payloads in
      let size : length (stream frame) ≡ len =
        omega (arith, header_size, length-append frame.header encoded_data) in
      let firsts : take shape.data_count (sent ++ parity) ≡ sent =
        ap (λ (n : ℕ). take n (sent ++ parity))
          (sym (length-data_shards_bytes shard_payload_size frame shape.data_count 0 _))
        ∙ take-append sent parity in
      (
        _,
        sent ++ parity,
        run,
        ap (λ (l : List (List ℕ)). concat (map (drop payload_offset) l)) firsts
            ∙ ap concat (payloads-data_shards_bytes shard_payload_size frame shape.data_count 0 _)
            ∙ concat-pieces shard_payload_size (stream frame) shape.data_count 0 (
                omega (
                  arith,
                  size,
                  data_count_covers shard_payload_size len p.fec_percentage (omega arith)
                      (omega arith),
                ))
            ∙ ap (λ (n : ℕ). stream frame ++ zeros (shape.data_count * shard_payload_size - n))
                size,
      )

  pub Parity-unique : (a b : List (List ℕ)) → Parity a → Parity b → a ≡ b
  Parity-unique a b (inl (_, e)) (inl (_, e')) = e ∙ sym e'
  Parity-unique a b (inl (z, _)) (inr (_, pos, _, _)) = absurd (omega arith)
  Parity-unique a b (inr (_, pos, _, _)) (inl (z, _)) = absurd (omega arith)
  Parity-unique a b (inr (c, _, m, e)) (inr (c', _, m', e')) =
      let same : c ≡ c' = cc in
      let e'' : some a ≡ some b =
        sym e
        ∙ ap
            (λ (k : Code).
              encode_sep k (map (drop payload_offset) sent)
                (replicate shape.parity_count (zeros shard_payload_size)))
            same
        ∙ e' in
      cc
