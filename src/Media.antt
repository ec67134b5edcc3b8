-- ===== src/Media.antt =====
-- crates/bluetooth-audio-core/src/media.rs, with the frame lengths of sbc_tone_frames.rs: how SBC
-- frames are packed into RTP packets and paced.
pub mod Packetizer
pub mod Clock
pub mod Tone
use canopus_module_bluetooth.Base.{ℕ, ◌+◌, ◌*◌, Bool, ◌||◌, Option, none, some, ltb, if◌then◌else◌}

abbrev pub sample_rate : ℕ
sample_rate = 44_100

abbrev pub frame_samples : ℕ
frame_samples = 128

abbrev pub max_frame_length : ℕ
max_frame_length = 118

-- RTP_HEADER + SBC_HEADER
abbrev pub headers : ℕ
headers = 13

abbrev pub max_frames_per_packet : ℕ
max_frames_per_packet = 5

abbrev pub max_tx_sdu : ℕ
max_tx_sdu = 672

abbrev pub default_sink_delay_100us : ℕ
default_sink_delay_100us = 1_500

abbrev pub max_startup_packets : ℕ
max_startup_packets = 16

-- RTP_HEADER + SBC_HEADER + MAX_FRAMES_PER_PACKET * MAX_FRAME_LENGTH
abbrev pub max_packet : ℕ
max_packet = 603

pub data MediaError : Type 0 where
  mtu complete buffer codec : MediaError

abbrev bitpool_outside : ℕ → Bool
bitpool_outside bitpool = ltb bitpool 27 || ltb 53 bitpool

unfoldable pub frame_length : ℕ → Option ℕ
frame_length bitpool = if bitpool_outside bitpool then none else some (12 + 2 * bitpool)

unfoldable pub stream_frame_length : ℕ → Bool → Option ℕ
stream_frame_length bitpool joint =
    if bitpool_outside bitpool
    then none
    else some (if joint then 13 + 2 * bitpool else 12 + 2 * bitpool)
