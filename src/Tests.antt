-- ===== src/Tests.antt =====
-- Runs of the models at concrete inputs.
mod Codes
mod Login
mod Video
mod Session
mod Udp
mod Sessions
mod Control
mod Clients
mod Pairing
mod Audio
mod Rtsp
mod Broker
mod LoginScreen
mod Handoff
