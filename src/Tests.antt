-- ===== src/Tests.antt =====
-- The theorems at concrete inputs.
pub mod Input
pub mod Link
pub mod Playback
pub mod Devices
pub mod Mp3s
pub mod Storages
pub mod Endpoints
