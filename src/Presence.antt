-- ===== src/Presence.antt =====
-- Physical consent: src/platform/presence_gate.rs (authentication and maintenance),
-- src/platform/maintenance_presence.rs and src/platform/provisioning.rs.
-- A poll is a pure function from the state and one observation of button and clock; the
-- children prove what an approval means.
pub mod Gate
