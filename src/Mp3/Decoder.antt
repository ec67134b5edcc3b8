-- ===== src/Mp3/Decoder.antt =====
-- `Mp3Decoder`: the decoder with its buffer of samples.
pub mod Exact
use canopus_module_bluetooth.Base.{
  ℕ, ◌+◌, ◌-◌, ◌*◌, ◌/◌, ◌%◌, ◌^◌, Bool, not, ◌&&◌, ◌||◌, List, [], ◌∷◌, Option, none, some, Result,
  ok, err, length, take, splice, replicate, ltb, leb, ◌==◌, if◌then◌else◌,
}
use canopus_module_bluetooth.Base.Int.{ℤ, pos}
use canopus_module_bluetooth.Base.Words.{div_ceil, u32_mod}
use canopus_module_bluetooth.Mp3.{
  NanoMp3, FrameInfo, DecodedFrame, Mp3Error, needs_input, unsupported_rate, unsupported_channels,
  output, required_sample_rate, resampled_sample_rate_24k, resampled_sample_rate_48k,
  max_samples_per_frame,
}
use canopus_module_bluetooth.Mp3.Samples.{scale_volume, resample_loop}

pub record Mp3Decoder (N : NanoMp3) : Type 0 where
  pub decoder : N.State
  pub pcm : List ℤ

-- What `decode` makes of the frame's description.
unfoldable pub describe : ℕ → ℕ → Option FrameInfo → Result Mp3Error DecodedFrame
describe room consumed none =
    if consumed == 0
    then err needs_input
    else ok (record { consumed = consumed; sample_rate = 0; channels = 0; frames = 0 })
describe room consumed (some info) =
    if not (info.sample_rate == required_sample_rate)
      && not (info.sample_rate == resampled_sample_rate_24k)
      && not (info.sample_rate == resampled_sample_rate_48k)
    then err unsupported_rate
    else if not (info.channels == 1) && not (info.channels == 2)
    then err unsupported_channels
    else if ltb room (info.samples_produced * info.channels)
    then err output
    else ok (record {
      consumed = consumed;
      sample_rate = info.sample_rate;
      channels = info.channels;
      frames = info.samples_produced;
    })

-- The two samples of each output frame, for a mono source.
unfoldable pub doubled : List ℤ → List ℤ
doubled [] = []
doubled (x ∷ xs) = x ∷ x ∷ doubled xs

-- The tests of both writers on the volume and the channels.
unfoldable pub refuses : DecodedFrame → ℕ → Bool
refuses f percent = ltb 100 percent || not (f.channels == 1) && not (f.channels == 2)

module _ (N : NanoMp3) where
  unfoldable pub new : Mp3Decoder N
  new = record { decoder = N.fresh; pcm = replicate max_samples_per_frame (pos 0) }

  unfoldable pub reset : Mp3Decoder N → Mp3Decoder N
  reset d = record d { decoder = N.reset d.decoder }

  unfoldable pub decode : List ℕ → Mp3Decoder N → Result Mp3Error DecodedFrame × Mp3Decoder N
  decode input d =
      let (consumed, info, samples, state) = N.decode input d.decoder in
      (
        describe (length d.pcm) consumed info,
        record { decoder = state; pcm = splice 0 samples d.pcm },
      )

  -- The samples written, at the start of `room` places, and their number.
  unfoldable pub write_stereo_s16 : DecodedFrame → ℕ → ℕ → Mp3Decoder N → Result Mp3Error (List ℤ)
  write_stereo_s16 f percent room d =
      if ltb room (f.frames * 2) || refuses f percent
      then err output
      else ok (
          scale_volume
            (if f.channels == 1 then doubled (take f.frames d.pcm) else take (f.frames * 2) d.pcm)
            percent)

  -- What follows the loop of `resample`, for a frame of `span`: a read out of bounds is `none`.
  unfoldable pub finish_resampling :
      ℕ → ℕ → Option (List ℤ × ℕ × ℕ) → Option (Result Mp3Error (List ℤ) × ℕ)
  finish_resampling span percent none = none
  finish_resampling span percent (some (samples, position, remainder)) = some (
    ok (scale_volume samples percent),
    (position * required_sample_rate + remainder + u32_mod - span) % u32_mod,
  )

  -- The samples written, with the phase afterwards.
  unfoldable pub write_stereo_s16_resampled :
      DecodedFrame → ℕ → ℕ → ℕ → Mp3Decoder N → Option (Result Mp3Error (List ℤ) × ℕ)
  write_stereo_s16_resampled f percent room phase d =
      let span : ℕ = f.frames * required_sample_rate in
      let output_frames : ℕ = div_ceil (span - phase) f.sample_rate in
      if f.sample_rate == required_sample_rate
      then some (write_stereo_s16 f percent room d, 0)
      else if not (f.sample_rate == resampled_sample_rate_24k)
            && not (f.sample_rate == resampled_sample_rate_48k)
          || refuses f percent
      then some (err unsupported_rate, phase)
      else if leb u32_mod span
      then some (err output, phase)
      else if leb span phase
      then some (err output, phase)
      else if ltb room (output_frames * 2)
      then some (err output, phase)
      else finish_resampling span percent (
          resample_loop f.channels f.sample_rate (take (f.frames * f.channels) d.pcm) (f.frames - 1)
            output_frames (phase / required_sample_rate, phase % required_sample_rate))
