-- ===== src/MemoryProtection.antt =====
-- The SRAM permissions of src/platform/memory_protection.rs.
pub mod Policy
pub mod Registers
pub mod Enforced
pub mod Writes
pub mod Unlocked
pub mod Beside
pub mod Configured
