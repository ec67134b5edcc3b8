-- ===== src/Mp3/Samples.antt =====
-- The arithmetic on samples. `resample` reads its source without bounds checks: a read out of
-- bounds is `none` here.
pub mod Range
pub mod Resampling
use canopus_module_bluetooth.Base.{
  ℕ, zero, suc, ◌+◌, ◌-◌, ◌*◌, ◌/◌, ◌%◌, ◌^◌, Bool, List, [], ◌∷◌, map, Option, none, some,
  get_elem?, ltb, leb, ◌==◌, if◌then◌else◌,
}
use canopus_module_bluetooth.Base.Int.{ℤ, pos, ◌+ℤ◌, ◌-ℤ◌, ◌*ℤ◌, shr15, divide_by, as_i16}
use canopus_module_bluetooth.Mp3.{required_sample_rate, blend_q15_scale}

unfoldable pub apply_volume : ℤ → ℕ → ℤ
apply_volume sample percent = as_i16 (divide_by (sample *ℤ pos percent) 100)

unfoldable pub scale_volume : List ℤ → ℕ → List ℤ
scale_volume samples percent =
    if percent == 100 then samples else map (λ s. apply_volume s percent) samples

unfoldable pub blend_q15 : ℕ → ℕ
blend_q15 fraction = fraction * blend_q15_scale % 2 ^ 32 / 2 ^ 16

-- The interpolated value before the cast to i16.
unfoldable pub interpolated : ℤ → ℤ → ℕ → ℤ
interpolated first second blend = first +ℤ shr15 ((second -ℤ first) *ℤ pos blend +ℤ pos (2 ^ 14))

unfoldable pub interpolate : ℤ → ℤ → ℕ → ℤ
interpolate first second blend = as_i16 (interpolated first second blend)

-- Both samples are read at once, so that either read can fault.
unfoldable pub mix : Option ℤ → Option ℤ → ℕ → Option ℤ
mix (some a) (some b) blend = some (interpolate a b blend)
mix (some a) none blend = none
mix none b blend = none

unfoldable pub pair_of : Option ℤ → Option ℤ → Option (ℤ × ℤ)
pair_of none right = none
pair_of (some l) none = none
pair_of (some l) (some r) = some (l, r)

-- One output frame of `resample::<1>` or of `resample::<2>`.
unfoldable pub output_pair : ℕ → List ℤ → ℕ → ℕ → ℕ → Option (ℤ × ℤ)
output_pair channels source last position remainder =
    let first : ℕ = position * channels in
    let second : ℕ = if ltb position last then first + channels else first in
    let blend : ℕ = blend_q15 remainder in
    let left = mix (get_elem? source first) (get_elem? source second) blend in
    let right = mix (get_elem? source (first + 1)) (get_elem? source (second + 1)) blend in
    pair_of left (if channels == 1 then left else right)

-- The position after one output frame.
unfoldable pub advance : ℕ → ℕ × ℕ → ℕ × ℕ
advance rate (position, remainder) =
    let moved : ℕ = position + rate / required_sample_rate in
    let sum : ℕ = remainder + rate % required_sample_rate in
    if leb required_sample_rate sum then (moved + 1, sum - required_sample_rate) else (moved, sum)

unfoldable pub followed_by : Option (ℤ × ℤ) → Option (List ℤ × ℕ × ℕ) → Option (List ℤ × ℕ × ℕ)
followed_by none rest = none
followed_by (some pair) none = none
followed_by (some (l, r)) (some (samples, position, remainder)) =
    some (l ∷ r ∷ samples, position, remainder)

-- The loop over the output frames, by how many are left, with the position that it ends at.
unfoldable pub resample_loop : ℕ → ℕ → List ℤ → ℕ → ℕ → ℕ × ℕ → Option (List ℤ × ℕ × ℕ)
resample_loop channels rate source last zero at = some ([], at.0, at.1)
resample_loop channels rate source last (suc n) at =
    followed_by (output_pair channels source last at.0 at.1)
      (resample_loop channels rate source last n (advance rate at))
