-- ===== src/Util.antt =====
-- What the components share: include/boost/connector/util and include/boost/connector/types.
pub mod Describe
pub mod Enumerators
pub mod Executor
pub mod Timestamp
