-- ===== src/FlashEncryption.antt =====
-- The flash-encryption transport of src/platform/flash_encryption.rs.
pub mod Mapping
pub mod Driver
pub mod Contents
pub mod Reading
pub mod Writing
pub mod Erasing
pub mod Erased
pub mod Written
