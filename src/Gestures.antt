-- ===== src/Gestures.antt =====
-- The long hold of src/platform/maintenance_presence.rs and the hold of
-- src/platform/provisioning.rs.
pub mod LongHold
pub mod Held
pub mod Approval
pub mod Provisioning
