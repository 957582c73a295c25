-- ===== src/Ota.antt =====
-- The A/B boot records of src/platform/ota.rs: which slot boots, when a record is rewritten.
pub mod Records
pub mod Flash
pub mod Layout
pub mod Steps
pub mod Confirm
pub mod Confined
pub mod Offered
