-- ===== src/Tests/Video.antt =====
-- crates/redfog-moonlight/src/video.rs at concrete inputs.
use redfog.Base.{
  ℕ, ◌+◌, ◌%◌, ◌<◌, ◌≡◌, true, List, [], ◌∷◌, ◌++◌, length, map, concat, take, drop, zeros,
  replicate, All, u32_size,
}
use redfog.Base.Outcome.{returns}
use redfog.Video.Wire.{payload_offset, frame_header}
use redfog.Video.Packetizer.{VideoPacketizer, packetize, plan}
use redfog.Video.Codes.{CacheIsValid}
use redfog.Video.Packets.{packetize_total, packetize-reassembles}
use redfog.Video.Header.{shard_header}
use redfog.Video.Sequence.{StartsWith, flags_of, packetize-headers}
use redfog.Base.{◌*◌, arith, some, get_elem?}
use redfog.Tests.Codes.{zero_parity, zero_parity_laws}

abbrev start : VideoPacketizer zero_parity
start = record {
  sequence_number = 0;
  frame_number = 1;
  fec_percentage = 20;
  reed_solomon_cache = [];
}

abbrev bytes : List ℕ
bytes = 10 ∷ 20 ∷ 30 ∷ 40 ∷ []

packetize_total_example :
    (next : VideoPacketizer zero_parity) × (shards : List (List ℕ)) × (packetize zero_parity start
        bytes true 90000
      ≡ returns (next, shards))
    × (length shards ≡ 1 + 2)
    × All (λ b. length b ≡ 1040) shards
    × CacheIsValid zero_parity next.reed_solomon_cache
    × (next.sequence_number ≡ (0 + length shards) % u32_size)
    × (next.frame_number ≡ 2)
unfolding plan
packetize_total_example = packetize_total zero_parity zero_parity_laws start bytes true 90000 tt

packetize-reassembles_example :
    (next : VideoPacketizer zero_parity) × (shards : List (List ℕ)) × (packetize zero_parity start
        bytes true 90000
      ≡ returns (next, shards))
    × (concat (map (drop payload_offset) (take 1 shards))
        ≡ ((1 ∷ 0 ∷ 0 ∷ 2 ∷ 12 ∷ 0 ∷ 0 ∷ 0 ∷ []) ++ bytes) ++ zeros 996)
unfolding plan frame_header replicate
packetize-reassembles_example =
    packetize-reassembles zero_parity zero_parity_laws start bytes true 90000 tt

abbrev cached : List (ℕ × ℕ × (ℕ × ℕ))
cached = (1, 2, (1, 2)) ∷ []

packetize-headers_example :
    (next : VideoPacketizer zero_parity) × (shards : List (List ℕ)) × (packetize zero_parity start
        bytes true 90000
      ≡ returns (next, shards))
    × ((k : ℕ)
        → k < 1
        → (b : List ℕ) × (get_elem? shards k ≡ some b)
          × StartsWith
              (shard_header (0 + k) 90000 1 (flags_of 1 k) (4194304 + k * 4096 + 200 * 16))
              b)
    × ((k : ℕ)
        → k < 2
        → (b : List ℕ) × (get_elem? shards (1 + k) ≡ some b)
          × StartsWith (shard_header (0 + (1 + k)) 0 1 1 (4194304 + (1 + k) * 4096 + 200 * 16)) b)
unfolding plan
packetize-headers_example =
    packetize-headers zero_parity zero_parity_laws start bytes true 90000 tt (omega arith)
      (omega arith) (omega arith)
