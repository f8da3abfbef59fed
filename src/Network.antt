-- ===== src/Network.antt =====
-- core/src/network.
pub mod PeerManager
pub mod Scale
pub mod Grandpa
pub mod Errors
pub mod Protobuf
pub mod Light2
pub mod Sync2
pub mod Tasks
pub mod Requests
pub mod Incoming
