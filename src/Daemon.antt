-- ===== src/Daemon.antt =====
-- core/daemon: the server of a socket in front of the store, and its client.
pub mod Api
pub mod Protocol
pub mod Frames
pub mod Content
pub mod Pages
pub mod Handler
pub mod Pool
pub mod Call
pub mod Lifecycle
pub mod Server
pub mod Socket
