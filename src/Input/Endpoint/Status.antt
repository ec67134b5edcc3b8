-- ===== src/Input/Endpoint/Status.antt =====
-- `status` of audio_input.rs.
use canopus_module_bluetooth.Base.{ℕ, ◌-◌}
use canopus_module_bluetooth.Base.Int.{ℤ}
use canopus_module_bluetooth.Input.Ring
use canopus_module_bluetooth.Input.Endpoint.{AudioInput}

abbrev pub abi_version : ℕ
abi_version = 1

-- Eighteen fields of four bytes.
abbrev pub status_size : ℕ
status_size = 72

pub record StatusV1 : Type 0 where
  pub struct_size : ℕ
  pub abi : ℕ
  pub state : ℕ
  pub last_error : ℤ
  pub format : ℕ
  pub input_capacity : ℕ
  pub input_used : ℕ
  pub input_free : ℕ
  pub decoded_sample_rate : ℕ
  pub decoded_channels : ℕ
  pub negotiated_bitpool : ℕ
  pub bytes_accepted : ℕ
  pub bytes_consumed : ℕ
  pub pcm_frames : ℕ
  pub rtp_packets : ℕ
  pub underruns : ℕ
  pub generation : ℕ
  pub volume_percent : ℕ

unfoldable pub status : ℕ → AudioInput → StatusV1
status n s = record {
  struct_size = status_size;
  abi = abi_version;
  state = s.state;
  last_error = s.last_error;
  format = s.format;
  input_capacity = n;
  input_used = Ring.used n s.ring;
  input_free = n - Ring.used n s.ring;
  decoded_sample_rate = s.decoded_sample_rate;
  decoded_channels = s.decoded_channels;
  negotiated_bitpool = s.negotiated_bitpool;
  bytes_accepted = s.bytes_accepted;
  bytes_consumed = s.bytes_consumed;
  pcm_frames = s.pcm_frames;
  rtp_packets = s.rtp_packets;
  underruns = s.underruns;
  generation = s.generation;
  volume_percent = s.volume_percent;
}
