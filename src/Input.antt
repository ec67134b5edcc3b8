-- ===== src/Input.antt =====
-- crates/bluetooth-audio-core/src/audio_input.rs: the byte ring between the file writer and the
-- Bluetooth owner, and the compressed-audio endpoint around it.
pub mod Ring
pub mod Endpoint
