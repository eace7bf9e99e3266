-- ===== src/Cache.antt =====
-- pkg/cache: the caches of the sidecar over the TTL cache of Ttl.
pub mod BlockSlot
pub mod Duplicate
pub mod Field
