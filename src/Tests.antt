-- ===== src/Tests.antt =====
-- Runs at concrete inputs, and the theorems at inputs that meet their hypotheses.
mod Presence
mod Transport
mod Image
mod Installed
mod Update
mod Ota
mod Epoch
mod Encryption
mod Platform
mod Memory
mod Vendor
mod Maintenance
mod Runtime
mod Store
mod Hold
