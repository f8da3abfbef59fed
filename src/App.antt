-- ===== src/App.antt =====
-- app/src/main.cpp.
pub mod Main
pub mod Rounds
pub mod Running
pub mod Genesis
pub mod Logging
mod Tests
