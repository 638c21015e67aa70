-- ===== src/Async.antt =====
-- The coroutine primitives of include/boost/connector/util: a latch, a queue and a circular buffer.
pub mod Latch
pub mod Queue
pub mod Buffer
