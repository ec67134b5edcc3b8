-- ===== src/Mp3/Decoder/Exact.antt =====
-- How many samples a frame becomes.
use canopus_module_bluetooth.Base.{
  ℕ, suc, ◌+◌, ◌-◌, ◌*◌, ◌/◌, ◌%◌, ◌≤◌, ◌<◌, ◌≡◌, refl, ap, ◌∙◌, ◌⊎◌, inl, inr, Bool, true, false,
  not, ◌&&◌, ◌||◌, List, [], ◌∷◌, length, take, map, Option, none, some, Result, ok, err, ltb, leb,
  ◌==◌, if◌then◌else◌, Bool-cases, arith, length-take, if-elim, if_true, if_false, length-splice,
}
use canopus_module_bluetooth.Base.Int.{ℤ}
use canopus_module_bluetooth.Base.Words.{div_ceil, u32_mod}
use canopus_module_bluetooth.Mp3.{
  NanoMp3, DecodedFrame, Mp3Error, output, unsupported_rate, required_sample_rate,
  resampled_sample_rate_24k, resampled_sample_rate_48k, FrameInfo,
}
use canopus_module_bluetooth.Mp3.Samples.{scale_volume, apply_volume, resample_loop}
use canopus_module_bluetooth.Mp3.Samples.Resampling.{resample_loop-Resamples}
use canopus_module_bluetooth.Mp3.Decoder.{
  Mp3Decoder, doubled, refuses, write_stereo_s16, finish_resampling, write_stereo_s16_resampled,
  describe, decode,
}

length-map {ℓ κ} :
    {A : Type ℓ} {B : Type κ} (f : A → B) (xs : List A) → length (map f xs) ≡ length xs
length-map f [] = refl
length-map f (x ∷ xs) = ap suc (length-map f xs)

length-scale_volume : (xs : List ℤ) (percent : ℕ) → length (scale_volume xs percent) ≡ length xs
unfolding scale_volume
length-scale_volume xs percent = elim (Bool-cases (percent == 100)) [
  | inl e ↦ rw e refl
  | inr e ↦ rw e (length-map (λ s. apply_volume s percent) xs)
]

length-doubled : (xs : List ℤ) → length (doubled xs) ≡ 2 * length xs
unfolding doubled
length-doubled [] = refl
length-doubled (x ∷ xs) = omega (arith, length-doubled xs)

-- What the writers return: the samples of `k` output frames, which fit the room, and a phase below
-- the rate. The output time is exact: `k` output frames and the phase that they started from are the
-- frame's own time and the phase that they end at, in units of 1 / (44,100 * rate) seconds.
pub record Written (f : DecodedFrame) (room phase : ℕ) (samples : List ℤ) (phase' : ℕ)
    : Type 0 where
  pub frames : ℕ
  pub stereo : length samples ≡ 2 * frames
  pub fits : length samples ≤ room
  pub exact : frames * f.sample_rate + phase ≡ f.frames * required_sample_rate + phase'
  pub early : phase' < f.sample_rate

-- The phase that a frame starts from: a frame of 44.1 kHz forgets it.
abbrev pub phase_for : DecodedFrame → ℕ → ℕ
phase_for f phase = if f.sample_rate == required_sample_rate then 0 else phase

abbrev pub WrittenOrError : DecodedFrame → ℕ → ℕ → Result Mp3Error (List ℤ) × ℕ → Type 0
WrittenOrError f room phase (ok samples, phase') = Written f room (phase_for f phase) samples phase'
WrittenOrError f room phase (err e, phase') = Unit

abbrev pub IsResampled : ℕ → Type 0
IsResampled rate = (rate ≡ resampled_sample_rate_24k) ⊎ (rate ≡ resampled_sample_rate_48k)

div_ceil_bounds :
    (a rate : ℕ)
    → IsResampled rate
    → (a ≤ div_ceil a rate * rate) × (div_ceil a rate * rate < a + rate)
div_ceil_bounds a rate (inl e) = rw e (omega arith)
div_ceil_bounds a rate (inr e) = rw e (omega arith)

module _ (N : NanoMp3) (f : DecodedFrame) (percent room phase : ℕ) (d : Mp3Decoder N) where
  module _ (known : f.frames * f.channels ≤ length d.pcm)
      (ch : (f.channels ≡ 1) ⊎ (f.channels ≡ 2)) where
    known_as : (k : ℕ) → f.channels ≡ k → f.frames * k ≤ length d.pcm
    known_as k e = rw e at known

    stereo_length :
        length
          (if f.channels == 1 then doubled (take f.frames d.pcm) else take (f.frames * 2) d.pcm)
        ≡ 2 * f.frames
    stereo_length = elim ch [
      | inl one ↦ rw one (
          omega (
            arith,
            length-doubled (take f.frames d.pcm),
            length-take f.frames d.pcm,
            known_as 1 one,
          ))
      | inr two ↦ rw two (omega (arith, length-take (f.frames * 2) d.pcm, known_as 2 two))
    ]

    direct :
        f.sample_rate ≡ required_sample_rate
        → WrittenOrError f room phase (write_stereo_s16 N f percent room d, 0)
    unfolding write_stereo_s16 refuses
    direct rate =
        let frames2 : ℕ = f.frames * 2 in
        let samples : List ℤ =
          if f.channels == 1 then doubled (take f.frames d.pcm) else take frames2 d.pcm in
        let reset : phase_for f phase ≡ 0 =
          if_true (f.sample_rate == required_sample_rate) 0 phase (ground arith) in
        if-elim (λ (r : Result Mp3Error (List ℤ)). WrittenOrError f room phase (r, 0))
          (ltb room frames2 || refuses f percent) (λ _. tt)
          (λ e. rw reset (record {
            frames = f.frames;
            stereo = length-scale_volume samples percent ∙ stereo_length;
            fits = ground (arith, length-scale_volume samples percent, stereo_length);
            exact = rw rate refl;
            early = rw rate (omega arith);
          }))

    resampled :
        IsResampled f.sample_rate
        → phase < f.frames * required_sample_rate
        → f.frames * required_sample_rate < u32_mod
        → div_ceil (f.frames * required_sample_rate - phase) f.sample_rate * 2 ≤ room
        → (o : Result Mp3Error (List ℤ) × ℕ) × (finish_resampling N
              (f.frames * required_sample_rate)
              percent
              (resample_loop f.channels f.sample_rate
                (take (f.frames * f.channels) d.pcm)
                (f.frames - 1)
                (div_ceil (f.frames * required_sample_rate - phase) f.sample_rate)
                (phase / required_sample_rate, phase % required_sample_rate))
            ≡ some o)
          × WrittenOrError f room phase o
    unfolding finish_resampling
    resampled rate before small fits =
        let span : ℕ = f.frames * required_sample_rate in
        let n : ℕ = div_ceil (span - phase) f.sample_rate in
        let (enough, tight) = div_ceil_bounds (span - phase) f.sample_rate rate in
        let whole : f.frames - 1 + 1 ≡ f.frames = omega arith in
        let size : length (take (f.frames * f.channels) d.pcm) ≡ (f.frames - 1 + 1) * f.channels =
          rw whole (omega (arith, known, length-take (f.frames * f.channels) d.pcm)) in
        let r =
          resample_loop-Resamples f.channels f.sample_rate (take (f.frames * f.channels) d.pcm)
            (f.frames - 1) n (phase / required_sample_rate, phase % required_sample_rate) ch size
            (omega arith) (omega arith) in
        let late : phase' r.position r.remainder ≡ phase + n * f.sample_rate - span =
          omega (arith, r.moved) in
        rw r.returns (
          (ok (scale_volume r.samples percent), phase' r.position r.remainder),
          refl,
          rw (if_false (f.sample_rate == required_sample_rate) 0 phase (ground arith)) (record {
            frames = n;
            stereo = length-scale_volume r.samples percent ∙ r.pairs;
            fits = omega (arith, length-scale_volume r.samples percent, r.pairs);
            exact = omega arith;
            early = omega arith;
          }),
        )
      where
        phase' : ℕ → ℕ → ℕ
        phase' position remainder =
            (position * required_sample_rate
              + remainder
              + u32_mod
              - f.frames * required_sample_rate)
            % u32_mod

  abbrev Returns : Option (Result Mp3Error (List ℤ) × ℕ) → Type 0
  Returns r = (o : Result Mp3Error (List ℤ) × ℕ) × (r ≡ some o) × WrittenOrError f room phase o

  channels_known : refuses f percent ≡ false → (f.channels ≡ 1) ⊎ (f.channels ≡ 2)
  unfolding refuses
  channels_known h = ground arith

  direct_refused : refuses f percent ≡ true → write_stereo_s16 N f percent room d ≡ err output
  unfolding write_stereo_s16
  direct_refused h = rw h (if_true (ltb room (f.frames * 2) || true) _ _ (ground arith))

  -- A frame whose samples the buffer holds is written without a read out of bounds, whatever the
  -- phase, the volume and the room: either an error comes back, or the samples of as many output
  -- frames as its time calls for.
  pub write_stereo_s16_resampled-Written :
      f.frames * f.channels ≤ length d.pcm
      → (o : Result Mp3Error (List ℤ) × ℕ) × (write_stereo_s16_resampled N f percent room phase d
          ≡ some o)
        × WrittenOrError f room phase o
  unfolding write_stereo_s16_resampled
  write_stereo_s16_resampled-Written known =
      let span : ℕ = f.frames * required_sample_rate in
      let n : ℕ = div_ceil (span - phase) f.sample_rate in
      let wrong_rate : Bool =
        not (f.sample_rate == resampled_sample_rate_24k)
        && not (f.sample_rate == resampled_sample_rate_48k) in
      if-elim Returns (f.sample_rate == required_sample_rate)
        (λ e. elim (Bool-cases (refuses f percent)) [
          | inl r ↦ ((err output, 0), rw (direct_refused r) refl, tt)
          | inr r ↦ (
            (write_stereo_s16 N f percent room d, 0),
            refl,
            direct known (channels_known r) (ground arith),
          )
        ])
        (λ e.
          if-elim Returns (wrong_rate || refuses f percent)
            (λ _. ((err unsupported_rate, phase), refl, tt))
            (λ g.
              if-elim Returns (leb u32_mod span) (λ _. ((err output, phase), refl, tt))
                (λ small.
                  if-elim Returns (leb span phase) (λ _. ((err output, phase), refl, tt))
                    (λ before.
                      if-elim Returns (ltb room (n * 2)) (λ _. ((err output, phase), refl, tt))
                        (λ fits.
                          resampled known (channels_known (ground (arith, g))) (ground (arith, g))
                            (ground arith) (ground arith) (ground arith))))))

-- What `decode` says of a frame that it returns.
pub record IsDecoded (room : ℕ) (f : DecodedFrame) : Type 0 where
  pub held : f.frames * f.channels ≤ room
  pub rate : (f.frames ≡ 0) ⊎ (f.sample_rate ≡ required_sample_rate) ⊎ IsResampled f.sample_rate

pub describe-IsDecoded :
    (room consumed : ℕ) (info : Option FrameInfo) (f : DecodedFrame)
    → describe room consumed info ≡ ok f
    → (f.consumed ≡ consumed) × IsDecoded room f
unfolding describe
describe-IsDecoded room consumed none f h = ground arith
describe-IsDecoded room consumed (some info) f h = ground arith

pub decode_held :
    (N : NanoMp3) (input : List ℕ) (d : Mp3Decoder N) (f : DecodedFrame)
    → (decode N input d).0 ≡ ok f
    → f.frames * f.channels ≤ length (decode N input d).1.pcm
unfolding decode
decode_held N input d f h =
    let (consumed, info, samples, state) = N.decode input d.decoder in
    omega (
      arith,
      (describe-IsDecoded (length d.pcm) consumed info f h).1.held,
      length-splice 0 samples d.pcm,
    )
