-- ===== src/Rev0.antt =====
-- The first revisions, Archive/Rev0-1: the device's firmware and the server that exchanges the
-- controller words over UDP.
pub mod Copy
pub mod Firmware
pub mod Prototype
pub mod Exchange
mod Tests
