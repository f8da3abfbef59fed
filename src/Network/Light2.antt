-- ===== src/Network/Light2.antt =====
-- core/src/network/light2: the requests to a full node.
pub mod Messages
pub mod Protocol
pub mod Sending
pub mod Missing
mod Tests
