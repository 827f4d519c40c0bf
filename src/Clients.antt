-- ===== src/Clients.antt =====
-- crates/redfog-moonlight/src/clients.rs: the clients in the middle of the pairing handshake, and the
-- record of every paired device, by the fingerprint of its certificate.
pub mod State
pub mod Records
pub mod Handshake
pub mod Loading
pub mod Resolving
pub mod Run
pub mod Pin
pub mod Proof
pub mod Exchange
pub mod Honest
pub mod Keys
pub mod Scales
pub mod Saved
pub mod Legacy
