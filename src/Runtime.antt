-- ===== src/Runtime.antt =====
-- core/src/runtime: the runtime code, its module and the calls of it.
pub mod Module
pub mod Executor
pub mod Service
pub mod Compression
pub mod Genesis
pub mod Instances
pub mod Remote
pub mod Concurrent
pub mod Sequential
mod Tests
