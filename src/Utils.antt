-- ===== src/Utils.antt =====
-- core/src/utils.
pub mod Hex
pub mod Coroutine
pub mod MoveOnCopy
pub mod Stoppable
pub mod StringConversion
mod Tests
