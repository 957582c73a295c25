-- ===== src/UserPresence.antt =====
-- The button's hardware and the wait for consent of src/platform/s2_user_presence.rs.
pub mod Hardware
pub mod Confirm
