-- ===== src/Input/Endpoint/Worker.antt =====
-- The calls of the Bluetooth owner: each carries the generation that it works for.
use canopus_module_bluetooth.Base.{ℕ, Bool, true, false, not, ◌&&◌, ◌||◌, List, ◌==◌, if◌then◌else◌}
use canopus_module_bluetooth.Base.Words.{wrapping_add}
use canopus_module_bluetooth.Base.Int.{ℤ}
use canopus_module_bluetooth.Input.Ring
use canopus_module_bluetooth.Input.Endpoint.{
  AudioInput, state_draining, state_playing, state_buffering, state_stopped, state_error,
}

unfoldable pub decoded_format_matches : ℕ → ℕ → AudioInput → Bool
decoded_format_matches sample_rate channels s =
    (s.sample_rate_hint == 0 || s.sample_rate_hint == sample_rate)
    && (s.channels_hint == 0 || s.channels_hint == channels)

unfoldable pub consume : ℕ → ℕ → AudioInput → List ℕ × ℕ × AudioInput
consume n room s =
    let (out, count, ring) = Ring.read n room s.ring in
    (out, count, record s { ring = ring; bytes_consumed = wrapping_add s.bytes_consumed count })

unfoldable pub mark_playing : ℕ → ℕ → ℕ → ℕ → AudioInput → Bool × AudioInput
mark_playing generation sample_rate channels bitpool s =
    if not (s.generation == generation) then (false, s) else (
      true,
      record s {
        decoded_sample_rate = sample_rate;
        decoded_channels = channels;
        negotiated_bitpool = bitpool;
        state = if not (s.state == state_draining) then state_playing else s.state;
      },
    )

unfoldable pub add_pcm_frames : ℕ → ℕ → AudioInput → AudioInput
add_pcm_frames generation frames s =
    if s.generation == generation
    then record s { pcm_frames = wrapping_add s.pcm_frames frames }
    else s

unfoldable pub add_rtp_packets : ℕ → ℕ → AudioInput → AudioInput
add_rtp_packets generation packets s =
    if s.generation == generation
    then record s { rtp_packets = wrapping_add s.rtp_packets packets }
    else s

unfoldable pub mark_underrun : ℕ → AudioInput → AudioInput
mark_underrun generation s =
    if s.generation == generation
    then record s {
      underruns = wrapping_add s.underruns 1;
      state = if not (s.state == state_draining) then state_buffering else s.state;
    }
    else s

unfoldable pub mark_drained : ℕ → ℕ → Bool → AudioInput → AudioInput
mark_drained n generation pipeline_empty s =
    if s.generation == generation
      && pipeline_empty
      && s.state == state_draining
      && Ring.used n s.ring == 0
    then record s { state = state_stopped }
    else s

unfoldable pub fail_input : ℕ → ℤ → AudioInput → AudioInput
fail_input generation error s =
    if s.generation == generation then record s { last_error = error; state = state_error } else s
