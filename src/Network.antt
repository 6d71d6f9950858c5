-- ===== src/Network.antt =====
-- src/network: the frames, the protocols and the server.
pub mod Frame
pub mod Server
pub mod Sha1
pub mod Base64
pub mod Http
pub mod Handshake
