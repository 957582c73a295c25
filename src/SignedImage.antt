-- ===== src/SignedImage.antt =====
-- src/signed_image.rs: the layout of a signed ESP32-S2 image, and the read-only check of an
-- installed slot. The flash reader and SHA-256 are parameters.
pub mod Format
pub mod Streams
pub mod Installed
pub mod Verified
