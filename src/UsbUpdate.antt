-- ===== src/UsbUpdate.antt =====
-- The signed update over USB of src/usb_update.rs.
-- The platform (`UpdateBackend`) and SHA-256 are parameters of every operation. The code keeps the
-- backend inside the updater and changes it in place: here an operation of the backend takes its
-- state and returns the next one, also the clock, whose reading may differ from call to call.
pub mod Protocol
pub mod Session
pub mod Verify
pub mod Updater
pub mod Kept
pub mod Confined
pub mod Sequence
pub mod Authentic
pub mod Expiry
