-- ===== src/Video.antt =====
-- crates/redfog-moonlight/src/video.rs: one encoded access unit becomes fixed-size UDP shards with
-- Reed-Solomon parity. `usize` is ℕ; u16 and u32 fields wrap where the source's do.
pub mod Wire
pub mod Packetizer
pub mod Fec
pub mod Header
pub mod FecInfo
pub mod Stream
pub mod Shards
pub mod Pieces
pub mod Layout
pub mod Codes
pub mod Packets
pub mod Cache
pub mod Sequence
