-- ===== src/Media/Tone.antt =====
-- `TonePacketizer`, and `write_frame` of sbc_tone_frames.rs: the test tone in RTP packets.
pub mod Frames
pub mod Table
pub mod Packets
use canopus_module_bluetooth.Base.{
  ℕ, zero, suc, ◌+◌, ◌-◌, ◌*◌, ◌/◌, ◌%◌, ◌^◌, min, max, bit_or, bit_xor, Bool, ◌||◌, ◌&&◌, Option,
  none, some, List, [], ◌∷◌, ◌++◌, map, length, replicate, splice, take, drop, leb, ltb, ◌==◌,
  if◌then◌else◌, Result, ok, err,
}
use canopus_module_bluetooth.Base.Words.{
  be16, be32, wrapping_add, u16_mod, u32_mod, div_ceil, clamp,
}
use canopus_module_bluetooth.Media.{
  MediaError, mtu, complete, buffer, codec, sample_rate, frame_samples, headers, max_tx_sdu,
  default_sink_delay_100us, max_startup_packets, frame_length,
}
use canopus_module_bluetooth.Media.Packetizer.{fit_frames}
use canopus_module_bluetooth.Media.Tone.Frames.{encoded_frames}

abbrev pub min_bitpool : ℕ
min_bitpool = 27

abbrev pub xor_mask : ℕ
xor_mask = 2

abbrev pub tone_seconds : ℕ
tone_seconds = 5

abbrev pub max_tone_frames_per_packet : ℕ
max_tone_frames_per_packet = 5

-- The slice of the table that holds the frame.
unfoldable pub encoded_frame : ℕ → ℕ → Option (List ℕ)
encoded_frame bitpool len =
    let offset : ℕ = (bitpool - min_bitpool) * (bitpool + 38) in
    if leb (offset + len) (length encoded_frames)
    then some (take len (drop offset encoded_frames))
    else none

unfoldable pub decoded : ℕ → List ℕ → Option (List ℕ) → Option (ℕ × List ℕ)
decoded len out none = none
decoded len out (some encoded) =
    some (len, splice 0 (map (λ byte. bit_xor byte xor_mask) encoded) out)

unfoldable pub write_frame_of : ℕ → List ℕ → Option ℕ → Option (ℕ × List ℕ)
write_frame_of bitpool out none = none
write_frame_of bitpool out (some len) =
    if ltb (length out) len then none else decoded len out (encoded_frame bitpool len)

-- `write_frame`, with what it leaves of `out`.
unfoldable pub write_frame : ℕ → List ℕ → Option (ℕ × List ℕ)
write_frame bitpool out = write_frame_of bitpool out (frame_length bitpool)

pub record TonePacketizer : Type 0 where
  pub sequence : ℕ
  pub timestamp : ℕ
  pub packets_sent : ℕ
  pub frames_sent : ℕ
  pub packets_target : ℕ
  pub frames_per_packet : ℕ
  pub bitpool : ℕ
  pub frame_length : ℕ
  pub pace_remainder : ℕ

unfoldable pub sized_tone : ℕ → ℕ → Option ℕ → Result MediaError TonePacketizer
sized_tone bitpool limit none = err codec
sized_tone bitpool limit (some frame_length) =
    let frames : ℕ = fit_frames frame_length limit max_tone_frames_per_packet in
    if ltb limit (headers + frame_length)
    then err mtu
    else ok (record {
      sequence = 1;
      timestamp = 0;
      packets_sent = 0;
      frames_sent = 0;
      packets_target = div_ceil (tone_seconds * sample_rate) (frames * frame_samples);
      frames_per_packet = frames;
      bitpool = bitpool;
      frame_length = frame_length;
      pace_remainder = 0;
    })

unfoldable pub new : ℕ → ℕ → Result MediaError TonePacketizer
new peer_mtu bitpool = sized_tone bitpool (min peer_mtu max_tx_sdu) (frame_length bitpool)

unfoldable pub is_complete : TonePacketizer → Bool
is_complete p = leb p.packets_target p.packets_sent

-- The loop over the chunks, on the part of the buffer that is left: whether each frame was written,
-- and what the buffer holds then.
unfoldable pub after_frame :
    ℕ → Option (ℕ × List ℕ) → List ℕ → List ℕ → Bool × List ℕ → Bool × List ℕ
after_frame len none chunk rest further = (Bool.false, chunk ++ rest)
after_frame len (some (written, frame)) chunk rest further =
    if written == len then (further.0, frame ++ further.1) else (Bool.false, frame ++ rest)

unfoldable pub write_chunks : ℕ → ℕ → ℕ → List ℕ → Bool × List ℕ
write_chunks bitpool len zero out = (Bool.true, out)
write_chunks bitpool len (suc frames) out =
    let further = write_chunks bitpool len frames (drop len out) in
    after_frame len (write_frame bitpool (take len out)) (take len out) (drop len out) further

abbrev pub tone_header : TonePacketizer → List ℕ
tone_header p =
    0x80
    ∷ bit_or 96 (if p.packets_sent == 0 then 0x80 else 0)
    ∷ (be16 p.sequence ++ be32 p.timestamp ++ be32 0x4254_5036 ++ (p.frames_per_packet ∷ []))

unfoldable pub advanced : TonePacketizer → TonePacketizer
advanced p = record p {
  packets_sent = p.packets_sent + 1;
  frames_sent = p.frames_sent + p.frames_per_packet;
  sequence = (p.sequence + 1) % u16_mod;
  timestamp = wrapping_add p.timestamp (p.frames_per_packet * frame_samples);
}

abbrev pub tone_length : TonePacketizer → ℕ
tone_length p = headers + p.frames_per_packet * p.frame_length

-- The buffer is returned with the packetizer.
unfoldable pub write_packet :
    TonePacketizer → List ℕ → Result MediaError ℕ × List ℕ × TonePacketizer
write_packet p out =
    let len : ℕ = tone_length p in
    let headed : List ℕ = splice 0 (tone_header p) (splice 0 (replicate len 0) out) in
    let chunks : Bool × List ℕ =
      write_chunks p.bitpool p.frame_length p.frames_per_packet
        (take (len - headers) (drop headers headed)) in
    let written : List ℕ = take headers headed ++ (chunks.1 ++ drop len headed) in
    if is_complete p
    then (err complete, out, p)
    else if ltb (length out) len
    then (err buffer, out, p)
    else if chunks.0
    then (ok len, written, advanced p)
    else (err codec, written, p)

unfoldable pub next_delay_ms : TonePacketizer → ℕ × TonePacketizer
next_delay_ms p =
    let timing : ℕ = p.pace_remainder + p.frames_per_packet * frame_samples * 1000 in
    (max (timing / sample_rate) 1, record p { pace_remainder = timing % sample_rate })

unfoldable pub sink_delay : ℕ → ℕ
sink_delay reported_delay_100us =
    if reported_delay_100us == 0 then default_sink_delay_100us else reported_delay_100us

unfoldable pub startup_packets : TonePacketizer → ℕ → ℕ
startup_packets p reported_delay_100us =
    let packet_100us : ℕ =
      max (div_ceil (p.frames_per_packet * frame_samples * 10_000) sample_rate) 1 in
    clamp 1 max_startup_packets (div_ceil (sink_delay reported_delay_100us) packet_100us)

-- The sum of the delays of `packets` packets.
unfoldable pub delays : ℕ → ℕ → TonePacketizer → ℕ × TonePacketizer
delays zero delay p = (delay, p)
delays (suc packets) delay p = let next = next_delay_ms p in delays packets (delay + next.0) next.1

unfoldable pub startup_catchup_delay_ms : ℕ → TonePacketizer → ℕ × TonePacketizer
startup_catchup_delay_ms packets p =
    if leb packets 1 then next_delay_ms p else delays (packets - 1) 0 p

unfoldable pub presentation_drain_delay_ms : ℕ → TonePacketizer → ℕ × TonePacketizer
presentation_drain_delay_ms reported_delay_100us p =
    let next = next_delay_ms p in
    (div_ceil (min (sink_delay reported_delay_100us) 5_000) 10 + next.0, next.1)
