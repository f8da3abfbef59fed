-- ===== src/Network/Grandpa.antt =====
-- core/src/network/grandpa, with the roles that a handshake carries.
pub mod Messages
pub mod RoundTrip
pub mod Protocol
pub mod Silence
mod Tests
