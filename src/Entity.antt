-- ===== src/Entity.antt =====
-- Entities: include/boost/connector/entity, and the digest that identifies a key.
pub mod Lifetime
pub mod Key
pub mod Snapshot
pub mod Sha256Digest
pub mod Context
