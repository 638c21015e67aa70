-- ===== src/Async/Buffer.antt =====
-- include/boost/connector/util/async_circular_buffer.hpp: what its two templates share. `Circular` is the
-- general template over `boost::circular_buffer`, `Single` the specialisation for capacity 1.
pub mod Circular
pub mod Single
pub mod Bounded
pub mod Specialised
pub mod Waits
