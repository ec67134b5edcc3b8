-- ===== src/Tests/Mp3s.antt =====
-- The MP3 stream with a decoder of two bytes a frame.
use canopus_module_bluetooth.Base.{
  ℕ, suc, ◌≡◌, refl, inl, true, List, [], ◌∷◌, ◌++◌, replicate, length-replicate, Option, some,
  none, arith, Result,
}
use canopus_module_bluetooth.Base.Int.{ℤ, pos}
use canopus_module_bluetooth.Mp3.{NanoMp3, DecodedFrame, FrameInfo, Mp3Error, required_input_window}
use canopus_module_bluetooth.Mp3.Samples.{resample_loop}
use canopus_module_bluetooth.Mp3.Samples.Resampling.{Resamples, resample_loop-Resamples}
use canopus_module_bluetooth.Mp3.Decoder.{Mp3Decoder, write_stereo_s16_resampled}
use canopus_module_bluetooth.Mp3.Decoder.Exact.{WrittenOrError, write_stereo_s16_resampled-Written}
use canopus_module_bluetooth.Mp3.Window.{contents}
use canopus_module_bluetooth.Mp3.Window.Queue.{IsValid}
use canopus_module_bluetooth.Mp3.Stream.{Mp3ByteStream, decode_next}
use canopus_module_bluetooth.Mp3.Stream.Steps.{Returns, decode_next-Steps}
use canopus_module_bluetooth.Mp3.Stream.Conservation.{pushes, decodes, run, bytes_conserved}

resample_loop-Resamples_example :
    Resamples 4 24000 (0, 0) (resample_loop 1 24000 (pos 0 ∷ pos 10 ∷ []) 1 4 (0, 0))
resample_loop-Resamples_example =
    resample_loop-Resamples 1 24000 (pos 0 ∷ pos 10 ∷ []) 1 4 (0, 0) (inl refl) refl (omega arith)
      (omega arith)

abbrev decode_two : List ℕ → ℕ → ℕ × Option FrameInfo × List ℤ × ℕ
decode_two [] s = (0, none, [], s)
decode_two (b ∷ []) s = (0, none, [], s)
decode_two (b ∷ c ∷ bytes) s = (
  2,
  some (record { samples_produced = 2; channels = 1; sample_rate = 24000 }),
  pos b ∷ pos c ∷ [],
  suc s,
)

abbrev two_bytes : NanoMp3
two_bytes = record { State = ℕ; fresh = 0; reset = λ s. 0; decode = decode_two }

abbrev decoder : Mp3Decoder two_bytes
decoder = record { decoder = 0; pcm = pos 3 ∷ pos 5 ∷ [] }

abbrev mono : DecodedFrame
mono = record { consumed = 2; sample_rate = 24000; channels = 1; frames = 2 }

write_stereo_s16_resampled-Written_example :
    (o : Result Mp3Error (List ℤ) × ℕ) × (write_stereo_s16_resampled two_bytes mono 50 64 0 decoder
      ≡ some o)
    × WrittenOrError mono 64 0 o
write_stereo_s16_resampled-Written_example =
    write_stereo_s16_resampled-Written two_bytes mono 50 64 0 decoder (omega arith)

-- Three bytes are pending.
abbrev stream : Mp3ByteStream two_bytes
stream = record {
  decoder = decoder;
  window = record { input = replicate required_input_window 9; input_start = 4; input_end = 7 };
  tag_remaining = 0;
  resample_rate = 0;
  resample_phase = 0;
}

stream_window : IsValid (stream.window)
stream_window = record {
  size = length-replicate {A = ℕ} required_input_window 9;
  ordered = omega arith;
  inside = omega arith;
}

decode_next-Steps_example : Returns two_bytes 64 stream (decode_next two_bytes 50 64 true stream)
decode_next-Steps_example = decode_next-Steps two_bytes 64 stream stream_window 50 true

bytes_conserved_example :
    (sent done : List ℕ) × (t : Mp3ByteStream two_bytes) × (run two_bytes
        (pushes (1 ∷ 2 ∷ []) ∷ decodes 50 64 true ∷ [])
        stream
      ≡ some (sent, done, t))
    × (contents stream.window ++ sent ≡ done ++ contents t.window)
    × IsValid (t.window)
bytes_conserved_example =
    bytes_conserved two_bytes (pushes (1 ∷ 2 ∷ []) ∷ decodes 50 64 true ∷ []) stream stream_window
