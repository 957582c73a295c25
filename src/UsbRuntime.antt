-- ===== src/UsbRuntime.antt =====
-- The polling of USB while the firmware waits for its user, in src/platform/usb_runtime.rs.
pub mod Runtime
pub mod Polling
pub mod Consented
pub mod Completion
pub mod Completed
