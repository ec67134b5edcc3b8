-- ===== src/Mp3.antt =====
-- crates/bluetooth-audio-core/src/mp3.rs. The decoder of the nanomp3 crate is a parameter: a state,
-- what `decode` makes of it and of the input window, and what it writes at the start of the caller's
-- buffer of samples.
pub mod Samples
pub mod Decoder
pub mod Window
pub mod Stream
use canopus_module_bluetooth.Base.{ℕ, ◌*◌, ◌/◌, ◌^◌, List, Option}
use canopus_module_bluetooth.Base.Int.{ℤ}

abbrev pub required_input_window : ℕ
required_input_window = 16 * 1024

abbrev pub min_decode_input : ℕ
min_decode_input = 2 * 1024

abbrev pub required_sample_rate : ℕ
required_sample_rate = 44100

abbrev pub resampled_sample_rate_24k : ℕ
resampled_sample_rate_24k = 24000

abbrev pub resampled_sample_rate_48k : ℕ
resampled_sample_rate_48k = 48000

abbrev pub compact_threshold : ℕ
compact_threshold = required_input_window / 2

abbrev pub id3v2_header : ℕ
id3v2_header = 10

abbrev pub blend_q15_scale : ℕ
blend_q15_scale = 2 ^ 31 / required_sample_rate

-- `nanomp3::MAX_SAMPLES_PER_FRAME`.
abbrev pub max_samples_per_frame : ℕ
max_samples_per_frame = 1152 * 2

pub data StreamProgress : Type 0 where
  need_input : StreamProgress
  skipped : ℕ → StreamProgress
  -- consumed, frames, samples, sample_rate, channels, source_frames
  frame : ℕ → ℕ → ℕ → ℕ → ℕ → ℕ → StreamProgress

pub data Mp3Error : Type 0 where
  needs_input : Mp3Error
  unsupported_rate : Mp3Error
  unsupported_channels : Mp3Error
  output : Mp3Error

pub record DecodedFrame : Type 0 where
  pub consumed : ℕ
  pub sample_rate : ℕ
  pub channels : ℕ
  pub frames : ℕ

-- Of `nanomp3::FrameInfo`, what the program reads, with `channels.num()` for the channels.
pub record FrameInfo : Type 0 where
  pub samples_produced : ℕ
  pub channels : ℕ
  pub sample_rate : ℕ

-- `decode` on a window: the bytes consumed, the frame's description if there is one, the samples
-- written at the start of the buffer, and the decoder afterwards.
pub record NanoMp3 : Type 1 where
  pub State : Type 0
  pub fresh : State
  pub reset : State → State
  pub decode : List ℕ → State → ℕ × Option FrameInfo × List ℤ × State
