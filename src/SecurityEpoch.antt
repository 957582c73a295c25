-- ===== src/SecurityEpoch.antt =====
-- The policy for raising the security epoch, in src/platform/security_epoch.rs.
pub mod Policy
pub mod Bits
pub mod Counter
pub mod Transaction
pub mod Attempt
pub mod Plan
pub mod Qualify
pub mod Maintenance
pub mod Steps
pub mod Ordered
pub mod Decoded
pub mod Qualified
pub mod Preview
pub mod Told
