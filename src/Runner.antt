-- ===== src/Runner.antt =====
-- core/src/runner.
pub mod Timer
pub mod Ticking
pub mod Client
pub mod Dispatching
mod Tests
