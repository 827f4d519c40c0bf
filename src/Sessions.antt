-- ===== src/Sessions.antt =====
-- crates/redfog-moonlight/src/session.rs: the table of attached and backgrounded sessions.
pub mod State
pub mod Isolation
pub mod Keeping
pub mod Lookup
pub mod Input
pub mod Resolution
pub mod Routing
pub mod Handlers
pub mod Attach
pub mod Play
pub mod Playing
pub mod Report
pub mod Handoff
pub mod Watch
pub mod Resuming
pub mod Unwatched
pub mod Steps
pub mod Weights
pub mod Moves
pub mod Generations
pub mod Passwords
pub mod LogOut
pub mod HandoffMoves
pub mod Shutdown
