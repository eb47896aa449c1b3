-- ===== src/Runtime/Io.antt =====
-- rusty-workers-runtime/src/io.rs: the asynchronous calls of a worker.
pub mod Task
pub mod Waiter
pub mod Reply
pub mod Processor
pub mod System
pub mod Buffers
