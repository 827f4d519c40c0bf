-- ===== src/Audio.antt =====
-- crates/redfog-moonlight/src/audio.rs: Opus frames in packets with a header, and two parity packets after
-- every fourth. The parity is that of fec_rs, a function of the four frames and the index of the packet;
-- AES-128-CBC is that of the crates aes and cbc.
pub mod Groups
use redfog.Base.{
  ℕ, ◌+◌, ◌-◌, ◌%◌, ◌==◌, if◌then◌else◌, Bool, true, false, ◌&&◌, not, ◌||◌, List, [], ◌∷◌, ◌++◌,
  length, zeros, set, get_or, copy_at, be_u16, be_u32, u16_size, u32_size,
}

abbrev pub rtp_header_size : ℕ
rtp_header_size = 12

abbrev pub audio_payload_type : ℕ
audio_payload_type = 97

abbrev pub audio_payload_type_fec : ℕ
audio_payload_type_fec = 127

abbrev pub audio_fec_payload_offset : ℕ
audio_fec_payload_offset = 24

abbrev pub audio_data_shards : ℕ
audio_data_shards = 4

pub record AudioPacketizer : Type 0 where
  pub sequence_number : ℕ
  pub base_timestamp : ℕ
  pub data_shards : List (List ℕ)
  pub fec_enabled : Bool

unfoldable pub new : Bool → AudioPacketizer
new fec_enabled = record {
  sequence_number = 0;
  base_timestamp = 0;
  data_shards = [] ∷ [] ∷ [] ∷ [] ∷ [];
  fec_enabled = fec_enabled;
}

-- The writes of the header, one after another, into a buffer of zeros.
unfoldable pub data_packet : ℕ → ℕ → List ℕ → List ℕ
data_packet sequence_number rtp_timestamp opus_frame =
    let buf = zeros (rtp_header_size + length opus_frame) in
    let marked = set (set buf 0 128) 1 audio_payload_type in
    let numbered = copy_at 2 (be_u16 sequence_number) marked in
    let stamped = copy_at 4 (be_u32 rtp_timestamp) numbered in
    let sourced = copy_at 8 (be_u32 0) stamped in copy_at rtp_header_size opus_frame sourced

unfoldable pub new_fec_packet : AudioPacketizer → ℕ → ℕ → ℕ → List ℕ
new_fec_packet p fec_shard_index base_sequence_number shard_len =
    let buf = zeros (audio_fec_payload_offset + shard_len) in
    let marked = set (set buf 0 128) 1 audio_payload_type_fec in
    let sequence_number = (p.sequence_number + fec_shard_index) % u16_size in
    let numbered = copy_at 2 (be_u16 sequence_number) marked in
    let stamped = copy_at 4 (be_u32 0) numbered in
    let sourced = copy_at 8 (be_u32 0) stamped in
    let typed = set (set sourced 12 fec_shard_index) 13 audio_payload_type in
    let based = copy_at 14 (be_u16 base_sequence_number) typed in
    let timed = copy_at 16 (be_u32 (p.base_timestamp)) based in copy_at 20 (be_u32 0) timed

unfoldable pub any_other_length : ℕ → List (List ℕ) → Bool
any_other_length n [] = false
any_other_length n (shard ∷ shards) =
    let rest = any_other_length n shards in not (length shard == n) || rest

module _ (encode : List (List ℕ) → ℕ → List ℕ) where
  -- `encode_sep` fills the payloads of both packets.
  unfoldable pub generate_fec_packets : AudioPacketizer → List (List ℕ)
  unfolding new_fec_packet any_other_length
  generate_fec_packets p =
      let shard_len = length (get_or (p.data_shards) 0 []) in
      let base_sequence_number = (p.sequence_number + u16_size - audio_data_shards) % u16_size in
      let fec_packet = λ (index : ℕ).
        copy_at audio_fec_payload_offset (encode (p.data_shards) index)
          (new_fec_packet p index base_sequence_number shard_len) in
      if any_other_length shard_len (p.data_shards) then [] else fec_packet 0 ∷ fec_packet 1 ∷ []

  -- The packetizer with the frame in its group and the next sequence number.
  unfoldable pub with_frame : AudioPacketizer → List ℕ → ℕ → AudioPacketizer
  with_frame p opus_frame rtp_timestamp =
      let shard_index = p.sequence_number % audio_data_shards in
      record p {
        base_timestamp = if shard_index == 0 then rtp_timestamp else p.base_timestamp;
        data_shards = set (p.data_shards) shard_index opus_frame;
        sequence_number = (p.sequence_number + 1) % u16_size;
      }

  unfoldable pub packetize : AudioPacketizer → List ℕ → ℕ → AudioPacketizer × List (List ℕ)
  unfolding data_packet with_frame generate_fec_packets
  packetize p opus_frame rtp_timestamp =
      let packet = data_packet (p.sequence_number) rtp_timestamp opus_frame in
      let next = with_frame p opus_frame rtp_timestamp in
      (
        next,
        if p.fec_enabled && (p.sequence_number % audio_data_shards == audio_data_shards - 1)
            then packet ∷ generate_fec_packets next
            else packet ∷ [],
      )

  module _ (cbc_encrypt : List ℕ → List ℕ → List ℕ → List ℕ) where
    -- The initialisation vector: the key's id and the sequence number, and twelve zeros.
    unfoldable pub iv_of : ℕ → ℕ → List ℕ
    iv_of key_id sequence_number = be_u32 ((key_id + sequence_number) % u32_size) ++ zeros 12

    unfoldable pub packetize_encrypted :
        AudioPacketizer → List ℕ → ℕ → List ℕ → ℕ → AudioPacketizer × List (List ℕ)
    unfolding packetize iv_of
    packetize_encrypted p opus_frame rtp_timestamp key key_id =
        packetize p (cbc_encrypt opus_frame key (iv_of key_id (p.sequence_number))) rtp_timestamp
