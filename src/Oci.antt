-- ===== src/Oci.antt =====
-- The OCI bundle library: oci.
pub mod Entry
pub mod Lru
pub mod Eviction
pub mod Security
pub mod Path
pub mod Reference
pub mod Shelf
pub mod Storage
pub mod Tags
pub mod Manifests
pub mod Index
