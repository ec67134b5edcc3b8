-- ===== src/Media/Packetizer.antt =====
-- `StreamPacketizer`.
pub mod Sizing
pub mod Pacing
use canopus_module_bluetooth.Base.{
  ℕ, zero, suc, ◌+◌, ◌*◌, ◌/◌, ◌%◌, ◌^◌, min, max, bit_or, Bool, ◌||◌, ◌&&◌, Option, none, some,
  List, [], ◌∷◌, ◌++◌, length, replicate, splice, ltb, ◌==◌, if◌then◌else◌, Result, ok, err,
}
use canopus_module_bluetooth.Base.Words.{be16, be32, wrapping_add, u16_mod, div_ceil, clamp}
use canopus_module_bluetooth.Media.{
  MediaError, mtu, buffer, codec, sample_rate, frame_samples, headers, max_frames_per_packet,
  max_tx_sdu, default_sink_delay_100us, max_startup_packets, stream_frame_length,
}

pub record StreamPacketizer : Type 0 where
  pub sequence : ℕ
  pub timestamp : ℕ
  pub packets_sent : ℕ
  pub frames_sent : ℕ
  pub frames_per_packet : ℕ
  pub bitpool : ℕ
  pub frame_length : ℕ
  pub pace_remainder : ℕ

-- The loop of `new`: from `frames` down to one, until the packet fits.
unfoldable pub fit_frames : ℕ → ℕ → ℕ → ℕ
fit_frames frame_length limit zero = 0
fit_frames frame_length limit (suc frames) =
    if ltb 1 (suc frames) && ltb limit (headers + suc frames * frame_length)
    then fit_frames frame_length limit frames
    else suc frames

abbrev pub fresh : ℕ → ℕ → ℕ → StreamPacketizer
fresh bitpool frames frame_length = record {
  sequence = 1;
  timestamp = 0;
  packets_sent = 0;
  frames_sent = 0;
  frames_per_packet = frames;
  bitpool = bitpool;
  frame_length = frame_length;
  pace_remainder = 0;
}

abbrev pub sized : ℕ → ℕ → ℕ → Result MediaError StreamPacketizer
sized bitpool limit frame_length =
    if ltb limit (headers + frame_length)
    then err mtu
    else ok (fresh bitpool (fit_frames frame_length limit max_frames_per_packet) frame_length)

unfoldable pub new : ℕ → ℕ → Bool → Result MediaError StreamPacketizer
new peer_mtu bitpool joint = elim (stream_frame_length bitpool joint) [
  | none ↦ err codec
  | some frame_length ↦ sized bitpool (min peer_mtu max_tx_sdu) frame_length
]

unfoldable pub packet_length : StreamPacketizer → ℕ → Result MediaError ℕ
packet_length p frames =
    if frames == 0 || ltb p.frames_per_packet frames
    then err buffer
    else ok (headers + frames * p.frame_length)

-- The thirteen header bytes, from the counters before they advance.
abbrev pub header_bytes : StreamPacketizer → ℕ → Bool → List ℕ
header_bytes p frames marker =
    0x80
    ∷ bit_or 96 (if marker then 0x80 else 0)
    ∷ (be16 p.sequence ++ be32 p.timestamp ++ be32 0x4254_5036 ++ (frames ∷ []))

-- The buffer is returned with the packetizer that has advanced.
unfoldable pub write_header :
    StreamPacketizer → List ℕ → ℕ → Bool → Result MediaError ℕ × List ℕ × StreamPacketizer
write_header p out frames marker = elim (packet_length p frames) [
  | err e ↦ (err e, out, p)
  | ok len ↦ if ltb (length out) len then (err buffer, out, p) else (
    ok headers,
    splice 0 (header_bytes p frames marker) out,
    record p {
      packets_sent = wrapping_add p.packets_sent 1;
      frames_sent = wrapping_add p.frames_sent frames;
      sequence = (p.sequence + 1) % u16_mod;
      timestamp = wrapping_add p.timestamp (frames * frame_samples);
    },
  )
]

unfoldable pub next_delay_ms : StreamPacketizer → ℕ → ℕ × StreamPacketizer
next_delay_ms p frames =
    let timing : ℕ = p.pace_remainder + frames * frame_samples * 1000 in
    (max (timing / sample_rate) 1, record p { pace_remainder = timing % sample_rate })

unfoldable pub startup_packets : StreamPacketizer → ℕ → ℕ
startup_packets p reported_delay_100us =
    let delay : ℕ =
      if reported_delay_100us == 0 then default_sink_delay_100us else reported_delay_100us in
    let packet_samples : ℕ = p.frames_per_packet * frame_samples in
    let packet_100us : ℕ = max (div_ceil (packet_samples * 10_000) sample_rate) 1 in
    clamp 1 max_startup_packets (div_ceil delay packet_100us)
