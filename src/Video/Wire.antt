-- ===== src/Video/Wire.antt =====
-- crates/redfog-moonlight/src/video.rs: the constants of the wire format, the headers of a shard and the
-- header of a frame.
use redfog.Base.{
  ℕ, ◌+◌, ◌-◌, ◌*◌, ◌/◌, ◌%◌, min, bit_or, Bool, List, ltb, ◌==◌, if◌then◌else◌, length, take, drop,
  set, zeros, copy_at, slice, copy_into, be_u16, be_u32, le_u16, le_u32, u32_size,
}
use redfog.Base.Outcome.{Outcome, returns, ◌>>=◌}

abbrev pub nv_video_packet_size : ℕ
nv_video_packet_size = 16

abbrev pub rtp_header_size : ℕ
rtp_header_size = 12

abbrev pub padding_size : ℕ
padding_size = 4

abbrev pub nv_packet_offset : ℕ
nv_packet_offset = rtp_header_size + padding_size

abbrev pub payload_offset : ℕ
payload_offset = nv_packet_offset + nv_video_packet_size

abbrev pub video_frame_header_size : ℕ
video_frame_header_size = 8

abbrev pub requested_packet_size : ℕ
requested_packet_size = 1024

abbrev pub contains_pic_data : ℕ
contains_pic_data = 1

abbrev pub end_of_frame : ℕ
end_of_frame = 2

abbrev pub start_of_frame : ℕ
start_of_frame = 4

abbrev pub min_required_fec_packets : ℕ
min_required_fec_packets = 2

abbrev pub max_shards_per_fec_block : ℕ
max_shards_per_fec_block = 255

-- The local `requested_shard_payload_size` of `packetize`.
abbrev pub shard_payload_size : ℕ
shard_payload_size = requested_packet_size - nv_video_packet_size

-- Shifts of a u32 drop what leaves the word.
unfoldable pub encode_fec_info : ℕ → ℕ → ℕ → ℕ
encode_fec_info data_shards_total shard_index fec_percentage =
    bit_or (bit_or (shard_index * 4096 % u32_size) (data_shards_total * 4194304 % u32_size))
      (fec_percentage * 16 % u32_size)

unfoldable pub write_rtp_header : List ℕ → ℕ → ℕ → List ℕ
write_rtp_header buf sequence_number timestamp =
    let buf = set buf 0 0x90 in
    let buf = set buf 1 0 in
    let buf = copy_at 2 (be_u16 sequence_number) buf in
    let buf = copy_at 4 (be_u32 timestamp) buf in copy_at 8 (be_u32 0) buf

unfoldable pub write_nv_video_packet : List ℕ → ℕ → ℕ → ℕ → ℕ → List ℕ
write_nv_video_packet buf stream_packet_index frame_index flags fec_info =
    let buf = copy_at 0 (le_u32 stream_packet_index) buf in
    let buf = copy_at 4 (le_u32 frame_index) buf in
    let buf = set buf 8 flags in
    let buf = set buf 9 0 in
    let buf = set buf 10 0x10 in let buf = set buf 11 0 in copy_at 12 (le_u32 fec_info) buf

-- The call on `&mut shard[NV_PACKET_OFFSET..NV_PACKET_OFFSET + NV_VIDEO_PACKET_SIZE]`.
unfoldable pub write_nv_at_offset : List ℕ → ℕ → ℕ → ℕ → ℕ → List ℕ
unfolding write_nv_video_packet
write_nv_at_offset shard stream_packet_index frame_index flags fec_info =
    let sub = take nv_video_packet_size (drop nv_packet_offset shard) in
    copy_at nv_packet_offset
      (write_nv_video_packet sub stream_packet_index frame_index flags fec_info) shard

-- `div_ceil` on usize.
unfoldable pub div_ceil : ℕ → ℕ → ℕ
div_ceil a b = if a % b == 0 then a / b else a / b + 1

-- `dst` is the slice of the shard that the caller borrows; its new content is returned.
unfoldable pub copy_header_and_data : List ℕ → List ℕ → List ℕ → ℕ → ℕ → Outcome (List ℕ)
copy_header_and_data dst frame_header encoded_data offset len =
    let total = video_frame_header_size + length encoded_data in
    let end = min (offset + len) total in
    if ltb offset video_frame_header_size
    then (do
      let header_end = min video_frame_header_size end
      let n = header_end - offset
      head ← slice frame_header offset header_end
      dst' ← copy_into dst 0 n head
      let m = end - video_frame_header_size
      if ltb video_frame_header_size end
          then (do body ← slice encoded_data 0 m; copy_into dst' n (n + m) body)
          else returns dst')
    else (do
      let data_start = offset - video_frame_header_size
      let data_end = end - video_frame_header_size
      body ← slice encoded_data data_start data_end
      copy_into dst 0 (data_end - data_start) body)

unfoldable pub frame_header : ℕ → Bool → List ℕ
frame_header last_shard_size is_key_frame =
    let header = zeros video_frame_header_size in
    let header = set header 0 0x01 in
    let header = copy_at 1 (le_u16 0) header in
    let header = set header 3 (if is_key_frame then 2 else 1) in
    copy_at 4 (le_u32 (last_shard_size % u32_size)) header
