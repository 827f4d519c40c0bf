-- ===== src/Control.antt =====
-- crates/redfog-moonlight/src/control.rs, the control channel.
pub mod Wire
pub mod Keys
pub mod Input
pub mod Registry
pub mod Server
pub mod Matching
pub mod Totality
pub mod Decoding
pub mod Scroll
