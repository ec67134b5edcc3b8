-- ===== src/Mp3/Stream/Steps.antt =====
-- One call of `decode_next`, with any decoder.
use canopus_module_bluetooth.Base.{
  ℕ, ◌-◌, ◌*◌, ◌/◌, ◌≤◌, ◌≡◌, refl, ap, ◌∙◌, inl, inr, min, Bool, not, ◌&&◌, ◌||◌, List, [], length,
  drop, Option, none, some, Result, ok, err, ltb, ◌==◌, Bool-cases, arith, if-elim,
}
use canopus_module_bluetooth.Base.Int.{ℤ}
use canopus_module_bluetooth.Mp3.{
  NanoMp3, DecodedFrame, Mp3Error, needs_input, unsupported_rate, unsupported_channels, output,
  min_decode_input, StreamProgress, need_input, skipped, frame, id3v2_header,
}
use canopus_module_bluetooth.Mp3.Decoder.{Mp3Decoder, write_stereo_s16_resampled}
use canopus_module_bluetooth.Mp3.Decoder
use canopus_module_bluetooth.Mp3.Decoder.Exact.{
  WrittenOrError, write_stereo_s16_resampled-Written, decode_held,
}
use canopus_module_bluetooth.Mp3.Window
use canopus_module_bluetooth.Mp3.Window.{Window, contents, pending}
use canopus_module_bluetooth.Mp3.Window.Queue.{IsValid, compact_lem, consume_lem, length-contents}
use canopus_module_bluetooth.Mp3.Stream.{
  Mp3ByteStream, Outcome, id3v2_length, consume, finish_frame, emit_frame, take_frame,
  decode_window, decode_next,
}

-- The bytes that a step gave up.
abbrev pub taken : Result Mp3Error StreamProgress → ℕ
taken (err e) = 0
taken (ok need_input) = 0
taken (ok (skipped count)) = count
taken (ok (frame consumed frames samples rate channels source_frames)) = consumed

-- A step that skips or decodes takes at least a byte.
abbrev pub Advances : Result Mp3Error StreamProgress → Type 0
Advances (err e) = Unit
Advances (ok need_input) = Unit
Advances (ok (skipped count)) = 1 ≤ count
Advances (ok (frame consumed frames samples rate channels source_frames)) = 1 ≤ consumed

-- A tag has its whole header among the bytes.
pub tag_fits :
    (bytes : List ℕ) (tag : ℕ)
    → id3v2_length bytes ≡ some tag
    → (id3v2_header ≤ length bytes) × (id3v2_header ≤ tag)
unfolding id3v2_length
tag_fits bytes tag h = ground arith

module _ (N : NanoMp3) where
  pub record Steps (room : ℕ) (s : Mp3ByteStream N) (o : Outcome N) : Type 0 where
    pub valid : IsValid (o.2.window)
    pub within : taken o.0 ≤ pending s.window
    pub left : contents o.2.window ≡ drop (taken o.0) (contents s.window)
    pub advances : Advances o.0
    pub fits : length o.1 ≤ room

  abbrev pub Returns : ℕ → Mp3ByteStream N → Option (Outcome N) → Type 0
  Returns room s r = (o : Outcome N) × (r ≡ some o) × Steps room s o

  module _ (room : ℕ) (s : Mp3ByteStream N) (v : IsValid (s.window)) where
    -- Nothing taken, and the window as it was or compacted.
    fails : (e : Mp3Error) (t : Mp3ByteStream N) → t.window ≡ s.window → Steps room s (err e, [], t)
    fails e t same = record {
      valid = rw same v;
      within = omega arith;
      left = ap contents same;
      advances = tt;
      fits = omega arith;
    }

    waits :
        (t : Mp3ByteStream N)
        → t.window ≡ Window.compact s.window
        → Steps room s (ok need_input, [], t)
    waits t same =
        let (kept, after, _) = compact_lem s.window v in
        record {
          valid = rw same after;
          within = omega arith;
          left = ap contents same ∙ kept;
          advances = tt;
          fits = omega arith;
        }

    moves :
        (t : Mp3ByteStream N) (p : StreamProgress) (out : List ℤ) (count : ℕ)
        → taken (ok p) ≡ count
        → Advances (ok p)
        → t.window ≡ s.window
        → count ≤ pending s.window
        → length out ≤ room
        → Steps room s (ok p, out, consume N count t)
    unfolding consume
    moves t p out count is_count up same bound short =
        let (rest, after) = consume_lem count s.window v bound in
        record {
          valid = rw same after;
          within = rw is_count bound;
          left = rw (same, is_count) rest;
          advances = up;
          fits = short;
        }

    finish-Steps :
        (f : DecodedFrame) (t : Mp3ByteStream N) (phase : ℕ) (o : Result Mp3Error (List ℤ) × ℕ)
        → t.window ≡ s.window
        → 1 ≤ f.consumed
        → f.consumed ≤ pending s.window
        → WrittenOrError f room phase o
        → Returns room s (finish_frame N f t (some o))
    unfolding finish_frame
    finish-Steps f t phase (err e, phase') same up bound w = (
      (err e, [], record t { resample_phase = phase' }),
      refl,
      fails e (record t { resample_phase = phase' }) same,
    )
    finish-Steps f t phase (ok samples, phase') same up bound w =
        let k : ℕ = length samples in
        let p = frame f.consumed (k / 2) k f.sample_rate f.channels f.frames in
        (
          (ok p, samples, consume N f.consumed (record t { resample_phase = phase' })),
          refl,
          moves (record t { resample_phase = phase' }) p samples f.consumed refl up same bound
              w.fits,
        )

    write-Steps :
        (percent : ℕ) (f : DecodedFrame) (t : Mp3ByteStream N)
        → t.window ≡ s.window
        → 1 ≤ f.consumed
        → f.consumed ≤ pending s.window
        → f.frames * f.channels ≤ length t.decoder.pcm
        → Returns room s (
            finish_frame N f t
              (write_stereo_s16_resampled N f percent room t.resample_phase t.decoder))
    write-Steps percent f t same up bound held =
        let (o, returns, w) =
          write_stereo_s16_resampled-Written N f percent room t.resample_phase t.decoder held in
        rw returns (finish-Steps f t t.resample_phase o same up bound w)

    emit-Steps :
        (percent : ℕ) (f : DecodedFrame) (t : Mp3ByteStream N)
        → t.window ≡ s.window
        → f.frames * f.channels ≤ length t.decoder.pcm
        → Returns room s (emit_frame N percent room f t)
    unfolding emit_frame
    emit-Steps percent f t same held =
        let there : pending t.window ≡ pending s.window = ap pending same in
        if-elim (Returns room s) (f.consumed == 0 || ltb (pending t.window) f.consumed)
          (λ _. ((err output, [], t), refl, fails output t same))
          (λ g.
            (let up : 1 ≤ f.consumed = ground arith in
              let bound : f.consumed ≤ pending s.window = ground (arith, there) in
              if-elim (Returns room s) (f.frames == 0)
                (λ _. (
                  (ok (skipped f.consumed), [], consume N f.consumed t),
                  refl,
                  moves t (skipped f.consumed) [] f.consumed refl up same bound (omega arith),
                ))
                (λ _. elim (Bool-cases (t.resample_rate == f.sample_rate)) [
                  | inl e ↦ rw e (write-Steps percent f t same up bound held)
                  | inr e ↦ rw e (
                      write-Steps percent f
                        (record t { resample_rate = f.sample_rate; resample_phase = 0 }) same up
                        bound held)
                ])))

    take-Steps :
        (percent : ℕ) (r : Result Mp3Error DecodedFrame) (t : Mp3ByteStream N)
        → t.window ≡ s.window
        → ((f : DecodedFrame) → r ≡ ok f → f.frames * f.channels ≤ length t.decoder.pcm)
        → Returns room s (take_frame N percent room r t)
    unfolding take_frame
    take-Steps percent (ok f) t same held = emit-Steps percent f t same (held f refl)
    take-Steps percent (err needs_input) t same held =
        let t' = record t { window = Window.compact t.window } in
        ((ok need_input, [], t'), refl, waits t' (ap Window.compact same))
    take-Steps percent (err unsupported_rate) t same held =
        ((err unsupported_rate, [], t), refl, fails unsupported_rate t same)
    take-Steps percent (err unsupported_channels) t same held =
        ((err unsupported_channels, [], t), refl, fails unsupported_channels t same)
    take-Steps percent (err output) t same held = ((err output, [], t), refl, fails output t same)

    skip-Steps :
        (count remaining : ℕ)
        → 1 ≤ count
        → count ≤ pending s.window
        → Steps room s
            (ok (skipped count), [], consume N count (record s { tag_remaining = remaining }))
    skip-Steps count remaining up bound =
        moves (record s { tag_remaining = remaining }) (skipped count) [] count refl up refl bound
          (omega arith)

    tag-Steps :
        (percent : ℕ) (o : Option ℕ)
        → id3v2_length (contents s.window) ≡ o
        → Returns room s (decode_window N percent room o s)
    unfolding decode_window
    tag-Steps percent (some tag) h =
        let count : ℕ = min tag (pending s.window) in
        let (long, tall) = tag_fits (contents s.window) tag h in
        (
          (ok (skipped count), [], consume N count (record s { tag_remaining = tag - count })),
          refl,
          skip-Steps count (tag - count) (omega (arith, length-contents s.window v)) (omega arith),
        )
    tag-Steps percent none h =
        let decoded = Decoder.decode N (contents s.window) s.decoder in
        take-Steps percent decoded.0 (record s { decoder = decoded.1 }) refl
          (λ f e. decode_held N (contents s.window) s.decoder f e)

    -- One step of the stream, over a valid window, with any decoder, volume and room: it returns,
    -- without a read out of bounds; the window stays valid; the bytes that it says it took are the
    -- oldest pending ones, and the others stay pending in order; a step that skips or decodes takes a
    -- byte or more; and the samples fit the room.
    pub decode_next-Steps :
        (percent : ℕ) (end_of_input : Bool)
        → Returns room s (decode_next N percent room end_of_input s)
    unfolding decode_next
    decode_next-Steps percent end_of_input =
        let there : ℕ = pending s.window in
        let count : ℕ = min there s.tag_remaining in
        if-elim (Returns room s) (not (s.tag_remaining == 0) && not (there == 0))
          (λ g. (
            (
              ok (skipped count),
              [],
              consume N count (record s { tag_remaining = s.tag_remaining - count }),
            ),
            refl,
            skip-Steps count (s.tag_remaining - count) (ground arith) (omega arith),
          ))
          (λ _.
            if-elim (Returns room s) (ltb there min_decode_input && not end_of_input)
              (λ _.
                (let t = record s { window = Window.compact s.window } in
                  ((ok need_input, [], t), refl, waits t refl)))
              (λ _. tag-Steps percent (id3v2_length (contents s.window)) refl))
