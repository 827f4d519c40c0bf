-- ===== src/Tests/Audio.antt =====
-- A group of four frames of two bytes, at the wrap of the sequence number.
use redfog.Base.{ℕ, refl, true, List, [], ◌∷◌, length, arith}
use redfog.Audio.{AudioPacketizer}
use redfog.Audio.Groups.{Group, packetize-Group}

abbrev encode : List (List ℕ) → ℕ → List ℕ
encode shards index = index ∷ length shards ∷ []

abbrev packetizer : AudioPacketizer
packetizer = record {
  sequence_number = 65532;
  base_timestamp = 0;
  data_shards = [] ∷ [] ∷ [] ∷ [] ∷ [];
  fec_enabled = true;
}

packetize-Group_example :
    Group encode packetizer (1 ∷ 2 ∷ []) (3 ∷ 4 ∷ []) (5 ∷ 6 ∷ []) (7 ∷ 8 ∷ []) 100 105 110 115
packetize-Group_example =
    packetize-Group encode packetizer (1 ∷ 2 ∷ []) (3 ∷ 4 ∷ []) (5 ∷ 6 ∷ []) (7 ∷ 8 ∷ []) 100 105
      110 115 (omega arith) refl refl refl refl refl refl (λ i. refl)
