-- ===== src/Mp3/Stream.antt =====
-- `Mp3ByteStream`: frames out of a byte stream that comes in pieces.
pub mod Steps
pub mod Conservation
use canopus_module_bluetooth.Base.{
  ℕ, ◌+◌, ◌-◌, ◌*◌, ◌/◌, ◌%◌, ◌^◌, min, bit_and, Bool, true, false, not, ◌&&◌, ◌||◌, List, [], ◌∷◌,
  Option, none, some, Result, ok, err, length, get_or, take, drop, ltb, leb, ◌==◌, bytes_eq,
  if◌then◌else◌,
}
use canopus_module_bluetooth.Base.Int.{ℤ}
use canopus_module_bluetooth.Mp3.{
  NanoMp3, DecodedFrame, Mp3Error, needs_input, unsupported_rate, unsupported_channels, output,
  StreamProgress, need_input, skipped, frame, min_decode_input, id3v2_header,
}
use canopus_module_bluetooth.Mp3.Decoder
use canopus_module_bluetooth.Mp3.Decoder.{Mp3Decoder}
use canopus_module_bluetooth.Mp3.Window
use canopus_module_bluetooth.Mp3.Window.{Window}

-- `bytes.iter().any(|byte| byte & 0x80 != 0)`.
unfoldable pub any_high : List ℕ → Bool
any_high [] = false
any_high (b ∷ bs) = not (bit_and b 0x80 == 0) || any_high bs

unfoldable pub syncsafe : ℕ → List ℕ → ℕ
syncsafe size [] = size
syncsafe size (b ∷ bs) = syncsafe (size * 128 + b) bs

unfoldable pub id3v2_length : List ℕ → Option ℕ
id3v2_length bytes =
    let size_bytes : List ℕ = take 4 (drop 6 bytes) in
    if ltb (length bytes) id3v2_header
    then none
    else if not (bytes_eq (take 3 bytes) (0x49 ∷ 0x44 ∷ 0x33 ∷ []))
        || get_or bytes 3 0 == 0xff
        || get_or bytes 4 0 == 0xff
        || any_high size_bytes
    then none
    else some (
        id3v2_header
        + syncsafe 0 size_bytes
        + (if bit_and (get_or bytes 5 0) 0x10 == 0 then 0 else id3v2_header))

pub record Mp3ByteStream (N : NanoMp3) : Type 0 where
  pub decoder : Mp3Decoder N
  pub window : Window
  pub tag_remaining : ℕ
  pub resample_rate : ℕ
  pub resample_phase : ℕ

module _ (N : NanoMp3) where
  unfoldable pub new : Mp3ByteStream N
  new = record {
    decoder = Decoder.new N;
    window = Window.new;
    tag_remaining = 0;
    resample_rate = 0;
    resample_phase = 0;
  }

  unfoldable pub reset : Mp3ByteStream N → Mp3ByteStream N
  reset s = record {
    decoder = Decoder.reset N s.decoder;
    window = Window.clear s.window;
    tag_remaining = 0;
    resample_rate = 0;
    resample_phase = 0;
  }

  unfoldable pub push : List ℕ → Mp3ByteStream N → ℕ × Mp3ByteStream N
  push bytes s = let (count, w) = Window.push bytes s.window in (count, record s { window = w })

  unfoldable pub consume : ℕ → Mp3ByteStream N → Mp3ByteStream N
  consume count s = record s { window = Window.consume count s.window }

  unfoldable pub discard_incomplete : Mp3ByteStream N → ℕ × Mp3ByteStream N
  discard_incomplete s =
      (Window.pending s.window, record s { window = Window.clear s.window; tag_remaining = 0 })

  -- The result of one step, the samples at the start of the caller's buffer, and the stream.
  abbrev pub Outcome : Type 0
  Outcome = Result Mp3Error StreamProgress × List ℤ × Mp3ByteStream N

  -- The end of a step that has written the frame's samples. A fault is `none`.
  unfoldable pub finish_frame :
      DecodedFrame → Mp3ByteStream N → Option (Result Mp3Error (List ℤ) × ℕ) → Option Outcome
  finish_frame f s none = none
  finish_frame f s (some (err e, phase)) = some (err e, [], record s { resample_phase = phase })
  finish_frame f s (some (ok samples, phase)) =
      let count : ℕ = length samples in
      some (
        ok (frame f.consumed (count / 2) count f.sample_rate f.channels f.frames),
        samples,
        consume f.consumed (record s { resample_phase = phase }),
      )

  unfoldable pub emit_frame : ℕ → ℕ → DecodedFrame → Mp3ByteStream N → Option Outcome
  emit_frame percent room f s =
      let phased : Mp3ByteStream N =
        if s.resample_rate == f.sample_rate
        then s
        else record s { resample_rate = f.sample_rate; resample_phase = 0 } in
      if f.consumed == 0 || ltb (Window.pending s.window) f.consumed
      then some (err output, [], s)
      else if f.frames == 0
      then some (ok (skipped f.consumed), [], consume f.consumed s)
      else finish_frame f phased
          (Decoder.write_stereo_s16_resampled N f percent room phased.resample_phase phased.decoder)

  -- What the decoder's answer leads to.
  unfoldable pub take_frame :
      ℕ → ℕ → Result Mp3Error DecodedFrame → Mp3ByteStream N → Option Outcome
  take_frame percent room (ok f) s = emit_frame percent room f s
  take_frame percent room (err needs_input) s =
      some (ok need_input, [], record s { window = Window.compact s.window })
  take_frame percent room (err unsupported_rate) s = some (err unsupported_rate, [], s)
  take_frame percent room (err unsupported_channels) s = some (err unsupported_channels, [], s)
  take_frame percent room (err output) s = some (err output, [], s)

  -- `room` is the length of the caller's buffer. A read out of bounds would be `none`.
  unfoldable pub decode_window : ℕ → ℕ → Option ℕ → Mp3ByteStream N → Option Outcome
  decode_window percent room (some tag) s =
      let consumed : ℕ = min tag (Window.pending s.window) in
      some
        (ok (skipped consumed), [], consume consumed (record s { tag_remaining = tag - consumed }))
  decode_window percent room none s =
      let decoded = Decoder.decode N (Window.contents s.window) s.decoder in
      take_frame percent room decoded.0 (record s { decoder = decoded.1 })

  unfoldable pub decode_next : ℕ → ℕ → Bool → Mp3ByteStream N → Option Outcome
  decode_next percent room end_of_input s =
      let pending : ℕ = Window.pending s.window in
      let skip : ℕ = min pending s.tag_remaining in
      if not (s.tag_remaining == 0) && not (pending == 0)
      then some (
        ok (skipped skip),
        [],
        consume skip (record s { tag_remaining = s.tag_remaining - skip }),
      )
      else if ltb pending min_decode_input && not end_of_input
      then some (ok need_input, [], record s { window = Window.compact s.window })
      else decode_window percent room (id3v2_length (Window.contents s.window)) s
