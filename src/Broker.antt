-- ===== src/Broker.antt =====
-- crates/redfog-broker/src/session.rs: the sessions that the broker has spawned and how they end, and the
-- payload's command line in the script that `write_session_script` writes. Texts are the bytes of strings.
pub mod Quoting
pub mod Words
pub mod Cgroup
pub mod CgroupLine
pub mod Active
pub mod Ending
pub mod Requests
pub mod Accounts
pub mod Shutdown
