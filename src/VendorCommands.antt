-- ===== src/VendorCommands.antt =====
-- The dispatch of vendor requests of src/platform/vendor_commands.rs.
pub mod Dispatch
pub mod Absent
pub mod Consent
