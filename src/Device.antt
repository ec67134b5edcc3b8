-- ===== src/Device.antt =====
-- crates/bluetooth-audio-device/src/target/audio_device.rs and the scheduling part of audio_stream.rs:
-- the character device of the audio input.
pub mod Controls
pub mod Schedule
pub mod Handlers
pub mod Wakes
pub mod Runs
