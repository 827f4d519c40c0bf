-- ===== src/Video/Cache.antt =====
-- Packetizers that differ in their caches of codes.
use redfog.Base.{ℕ, ◌≡◌, Bool, List}
use redfog.Base.Outcome.{returns}
use redfog.Video.Packetizer.{ReedSolomon, VideoPacketizer, packetize}
use redfog.Video.Codes.{ReedSolomonLaws, CacheIsValid}
use redfog.Video.Packets.{packetize_lem, Parity-unique}

-- With codes that keep their laws, the cache never changes what is sent: of two packetizers that
-- differ only in their valid caches, both send the same shards.
pub packetize-cache :
    (rs : ReedSolomon) (laws : ReedSolomonLaws rs) (p : VideoPacketizer rs)
    (cache : List (ℕ × ℕ × rs.Code)) (encoded_data : List ℕ) (is_key_frame : Bool)
    (rtp_timestamp : ℕ)
    → CacheIsValid rs p.reed_solomon_cache
    → CacheIsValid rs cache
    → (next : VideoPacketizer rs) × (next' : VideoPacketizer rs) × (shards : List (List ℕ))
      × (packetize rs p encoded_data is_key_frame rtp_timestamp ≡ returns (next, shards))
      × (packetize rs
            (record p { reed_solomon_cache = cache })
            encoded_data
            is_key_frame
            rtp_timestamp
          ≡ returns (next', shards))
packetize-cache rs laws p cache bytes key ts v w =
    let (a, _, run, _, pa, _, _) = packetize_lem rs laws p bytes key ts v in
    let (b, _, run', _, pb, _, _) =
      packetize_lem rs laws (record p { reed_solomon_cache = cache }) bytes key ts w in
    let same : b ≡ a = Parity-unique rs laws p bytes key ts b a pb pa in
    (_, _, _, run, rw same at run')
