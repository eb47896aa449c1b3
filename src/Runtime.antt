-- ===== src/Runtime.antt =====
-- rusty-workers-runtime: runs the workers' scripts in isolates, with limits on memory, time and I/O.
pub mod MemoryPool
pub mod Io
pub mod Semaphore
pub mod IsolatePool
pub mod Executor
pub mod Monitor
pub mod Termination
pub mod Instances
pub mod Service
pub mod Bundle
pub mod Protected
mod Tests
