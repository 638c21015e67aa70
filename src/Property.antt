-- ===== src/Property.antt =====
-- Properties by name: include/boost/connector/property_value.hpp and property_map.hpp, and
-- include/boost/connector/dependency.
pub mod Value
pub mod Equality
pub mod Map
pub mod Layers
pub mod Dependency
