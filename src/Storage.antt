-- ===== src/Storage.antt =====
-- The flash partition of the credential store, in src/platform/storage_layout.rs and
-- src/platform/storage.rs.
pub mod Partition
pub mod Confined
