-- ===== src/Lib.antt =====
-- redfog: the parts of a Moonlight/GameStream streaming server that decide what its clients see.
--
-- The repository's crates/redfog-moonlight is the server that talks to Moonlight clients. A client pairs
-- and launches over HTTP, sets a stream up over RTSP, and from then on three channels run side by side:
-- video and audio datagrams go out, and control messages (input, loss reports) come in. This library
-- models, one module for each part:
--
--   Video     crates/redfog-moonlight/src/video.rs: `VideoPacketizer::packetize` cuts an encoded frame
--             into fixed-size shards and adds Reed-Solomon parity. Wire has the headers; `packetize` of
--             Packetizer is the whole function, with its panics as an outcome, and a packetizer is its
--             counters and its code cache.
--   Udp       crates/redfog-moonlight/src/udp_sender.rs: `MultiClientUdpSender`, one socket for all
--             sessions. The shared state is a record of two maps; each function is one step under the
--             lock, and the loop of `send_batch_to` runs along the kernel's answers.
--   Control   crates/redfog-moonlight/src/control.rs: the control channel. Wire is `ControlMessage::parse`
--             and the decryption wrapper, Keys and Input are `decode_input_event`, Registry is
--             `ControlRegistry`, and Server is one turn of the loop of `serve_blocking`.
--   Touch     crates/redfog-moonlight/src/session.rs: `touch_down`, `touch_motion`, `touch_up` and
--             `release_all_touches`, against a compositor that holds touch contacts.
--   Bitrate   crates/redfog-moonlight/src/session.rs: `adapt_bitrate_kbps` along a session's loss reports.
--
--   Sessions  crates/redfog-moonlight/src/session.rs: the table of attached and backgrounded sessions. State
--             is its records, Attach is `launch` and `cancel` in steps that end where the lock is
--             released, Lookup finds clients by address, key and generation, Handlers are `on_announce`,
--             `ping_token_for`, `on_loss_stats` and the peer callbacks, Input is `on_input`, Play is
--             `on_play`, Report and LogOut what the login screen asks, Handoff `handoff_to_user` and
--             `start_streaming`, Watch the two tasks that wait for a session's end, and Shutdown
--             `shutdown_all_sessions`. In Steps the stretches under one lock of
--             all but the last interleave in any order.
--
--   SessionBackend, Presets
--             crates/session-backend/src/lib.rs: the names of the backends.
--             crates/redfog-login-protocol/src/lib.rs: the sessions that a user can choose.
--
--   LoginScreen
--             crates/redfog-login/src/ui.rs and main.rs: the state of the login screen, the widget that a
--             click hits, and the reactions to input, each with the answers that the server gives.
--
--   Login     crates/redfog-login-protocol/src/render.rs: the frames and input events that the login screen
--             and the process that shows it exchange, as bytes of a stream.
--
--   Audio     crates/redfog-moonlight/src/audio.rs: `AudioPacketizer`, with its parity packets. Groups says
--             what the packets of four frames are.
--
--   Crypto    crates/redfog-moonlight/src/crypto.rs: the key of a PIN, AES block by block, and what pairing
--             takes from a certificate.
--
--   Clients   crates/redfog-moonlight/src/clients.rs: `ClientManager`. State is its records, Records the
--             operations on paired devices and on settings, Handshake the five steps of pairing, Loading
--             the file that the server starts with, and Run any sequence of requests.
--
--   Pairing   crates/redfog-moonlight/src/pairing.rs: the HTTP requests. Params parses values, Requests is
--             `/pair`, Submit is `/submit-pin`, and Launch is `/launch` up to the session's handler.
--
--   Rtsp      crates/redfog-moonlight/src/rtsp.rs: `rewrite_request_target` in Target, the replies of
--             `handle_request`, and `parse_announce`, on the characters that `String::from_utf8_lossy` makes.
--
--   Broker    crates/redfog-broker/src/session.rs: `SessionManager`. Active is the map of running sessions,
--             with `terminate`, `is_session_alive` and what each does outside; Cgroup is
--             `parse_logind_session_id`; Requests lets the requests of all connections come in any order,
--             also while `terminate_all` goes through its ids.
--             Quoting is the payload's command line in the script of a session, and Words what a shell
--             reads there.
--
-- The video stage reports frame numbers that the bitrate decision compares with the client's loss
-- reports; those, and the touch events, arrive through the control channel's calls, which Control.Server
-- returns as a list, and which Sessions routes to the session of the key. `launch` and `cancel` change the
-- control registry that the control server reads. The login screen sends the name of a preset and a password;
-- the server keeps the choice by the login's generation, and the handoff uses it when the login exits.
--
-- Base holds what the parts share: lists over the native numbers, bytes of machine integers, slices and
-- indexed reads that panic out of range, maps, and `Outcome`, which says whether a call returns or panics.
-- Tests runs the theorems at concrete inputs.
--
-- Numbers are ℕ. Fields of 16, 32 and 64 bits keep their wrap-around as a remainder; `usize` arithmetic,
-- which cannot reach its bound on buffers that fit in memory, has none. The loops are structural: over the
-- shards left, the kernel's answers, the peers, the keys. No definition runs on fuel.
--
-- Parameters stand for code of other crates: Reed-Solomon coding (fec_rs), of which `ReedSolomonLaws` says
-- that codes exist for up to 256 shards and that encoding keeps buffer sizes; AES-128-GCM (aes-gcm), of
-- which nothing is assumed; and what enet leaves of a peer's data when the peer is disconnected, of which
-- nothing is assumed either. The f64 arithmetic on pixel coordinates is a parameter of
-- Sessions.Input; serde's JSON of a login event is one of Login, of which `Restores` says, for the one event of a
-- message, that it reads back what it wrote. The functions of Crypto's `Libraries` stand for sha2, aes, rsa, x509-parser and hex:
-- `IsDigest`, `IsBlockCipher` and `IsKeyPair` say that a digest has 32 bytes, that decryption undoes encryption
-- of a block, and that a certificate's key verifies what its private key signed. The parity of audio has the
-- length of a frame. The JSON of the records, the parsing of an f64 and `hex::decode` are parameters of
-- which nothing is assumed. So are the TOML of the presets, and where a rectangle of the login screen lies.
-- What the broker, a compositor's process and the login's server answer are arguments of each step, and so is
-- what systemctl, loginctl and /proc tell the broker.
--
-- Not modelled: sockets, threads, logging, timers and the watchdog task around the control loop; the sequence
-- numbers that the control channel keeps only to log gaps; the wait of a pairing request for its PIN, the texts of
-- HTTP replies and the listeners; capture, encoding and compositor processes, which are calls of system
-- libraries; the constant text of the SDP and the RTSP connection; and the server's other parts:
-- building, starting and tearing down pipelines, of the broker the spawns up to their insert, PAM and the
-- lookups of users and devices, the processes that supervise it, discovery, and the command-line tools.
pub mod Audio
pub mod Base
pub mod Bitrate
pub mod Broker
pub mod Clients
pub mod Control
pub mod Crypto
pub mod Login
pub mod LoginScreen
pub mod Pairing
pub mod Presets
pub mod Rtsp
pub mod SessionBackend
pub mod Sessions
pub mod Tests
pub mod Touch
pub mod Udp
pub mod Video
