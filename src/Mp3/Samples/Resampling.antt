-- ===== src/Mp3/Samples/Resampling.antt =====
-- The loop of `resample` stays inside its source.
use canopus_module_bluetooth.Base.{
  ℕ, zero, suc, ◌+◌, ◌*◌, ◌≤◌, ◌<◌, ◌≡◌, refl, ◌⊎◌, inl, inr, List, [], ◌∷◌, length, Option, some,
  get_elem?, ltb, if◌then◌else◌, arith,
}
use canopus_module_bluetooth.Base.Int.{ℤ}
use canopus_module_bluetooth.Mp3.{required_sample_rate}
use canopus_module_bluetooth.Mp3.Samples.{
  interpolate, mix, pair_of, followed_by, output_pair, advance, resample_loop, blend_q15,
}

get_elem?-some {ℓ} :
    {A : Type ℓ} (xs : List A) (i : ℕ) → i < length xs → (x : A) × (get_elem? xs i ≡ some x)
get_elem?-some [] i h = absurd (omega arith)
get_elem?-some (x ∷ xs) zero h = (x, refl)
get_elem?-some (x ∷ xs) (suc i) h = get_elem?-some xs i (omega arith)

mix-some :
    (source : List ℤ) (i j blend : ℕ)
    → i < length source
    → j < length source
    → (z : ℤ) × (mix (get_elem? source i) (get_elem? source j) blend ≡ some z)
unfolding mix
mix-some source i j blend h k =
    let (x, ex) = get_elem?-some source i h in
    let (y, ey) = get_elem?-some source j k in (interpolate x y blend, rw (ex, ey) refl)

output_pair-some :
    (channels : ℕ) (source : List ℤ) (last position remainder : ℕ)
    → (channels ≡ 1) ⊎ (channels ≡ 2)
    → length source ≡ (last + 1) * channels
    → position ≤ last
    → (pair : ℤ × ℤ) × (output_pair channels source last position remainder ≡ some pair)
unfolding output_pair pair_of
output_pair-some channels source last position remainder (inl one) size inside =
    let blend : ℕ = blend_q15 remainder in
    let size' : length source ≡ (last + 1) * 1 = rw one at size in
    let (l, el) =
      mix-some source (position * 1) (if ltb position last then position * 1 + 1 else position * 1)
        blend (ground arith) (ground arith) in
    rw (one, el) ((l, l), refl)
output_pair-some channels source last position remainder (inr two) size inside =
    let blend : ℕ = blend_q15 remainder in
    let second : ℕ = if ltb position last then position * 2 + 2 else position * 2 in
    let size' : length source ≡ (last + 1) * 2 = rw two at size in
    let (l, el) = mix-some source (position * 2) second blend (ground arith) (ground arith) in
    let (r, er) =
      mix-some source (position * 2 + 1) (second + 1) blend (ground arith) (ground arith) in
    rw (two, el, er) ((l, r), refl)

advance_lem :
    (rate position remainder : ℕ)
    → remainder < required_sample_rate
    → let (p, r) = advance rate (position, remainder) in
      (p * required_sample_rate + r ≡ position * required_sample_rate + remainder + rate)
      × (r < required_sample_rate)
unfolding advance
advance_lem rate position remainder h = ground arith

-- The time of a position, in source frames times 44,100.
abbrev pub at_time : ℕ × ℕ → ℕ
at_time (position, remainder) = position * required_sample_rate + remainder

-- What the loop returns: two samples for each output frame, and the position that many steps on.
pub record Resamples (n rate : ℕ) (at : ℕ × ℕ) (r : Option (List ℤ × ℕ × ℕ)) : Type 0 where
  pub samples : List ℤ
  pub position : ℕ
  pub remainder : ℕ
  pub returns : r ≡ some (samples, position, remainder)
  pub pairs : length samples ≡ 2 * n
  pub moved : at_time (position, remainder) ≡ at_time at + n * rate
  pub fraction : remainder < required_sample_rate

-- With one or two channels, a source of whole frames, and the last output frame due before the end of
-- the source, the loop reads only inside the source and returns two samples for each output frame and
-- the position that many steps on.
pub resample_loop-Resamples :
    (channels rate : ℕ) (source : List ℤ) (last n : ℕ) (at : ℕ × ℕ)
    → (channels ≡ 1) ⊎ (channels ≡ 2)
    → length source ≡ (last + 1) * channels
    → at.1 < required_sample_rate
    → at_time at + n * rate < (last + 1) * required_sample_rate + rate
    → Resamples n rate at (resample_loop channels rate source last n at)
unfolding resample_loop followed_by
resample_loop-Resamples channels rate source last zero at ch size frac due = record {
  samples = [];
  position = at.0;
  remainder = at.1;
  returns = refl;
  pairs = omega arith;
  moved = omega arith;
  fraction = frac;
}
resample_loop-Resamples channels rate source last (suc n) (position, remainder) ch size frac due =
    let more : suc n * rate ≡ rate + n * rate = grind arith in
    let (pair, here) =
      output_pair-some channels source last position remainder ch size (omega arith) in
    let (time, small) = advance_lem rate position remainder frac in
    let rest =
      resample_loop-Resamples channels rate source last n (advance rate (position, remainder)) ch
        size small (omega arith) in
    record {
      samples = pair.0 ∷ pair.1 ∷ rest.samples;
      position = rest.position;
      remainder = rest.remainder;
      returns = rw (here, rest.returns) refl;
      pairs = omega (arith, rest.pairs);
      moved = omega (arith, rest.moved);
      fraction = rest.fraction;
    }
