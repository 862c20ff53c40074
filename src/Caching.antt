-- ===== src/Caching.antt =====
-- kh_common/caching: the expiring caches.
pub mod Expiry
pub mod Simple
pub mod Args
pub mod Store
pub mod Counter
pub mod Binding
pub mod Aggregate
pub mod Kwargs
pub mod Overlap
pub mod Aerospike
