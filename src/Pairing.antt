-- ===== src/Pairing.antt =====
-- crates/redfog-moonlight/src/pairing.rs: the HTTP requests of Moonlight clients and of redfog-pair. The
-- parameters of a query are a function of their names; `form_urlencoded` and `hex` are other crates.
pub mod Params
pub mod Modes
pub mod Names
pub mod Requests
pub mod Submit
pub mod Launch
pub mod Applied
pub mod Keeping
