-- ===== src/Esp32S2.antt =====
-- The platform of the ESP32-S2: what src/platform/usb_update.rs and src/platform/ota.rs do on flash.
pub mod Backend
pub mod Spares
pub mod Confined
