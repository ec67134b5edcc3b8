-- ===== src/Mp3/Samples/Range.antt =====
-- Where samples stay: between the two that are interpolated, and no louder than before.
use canopus_module_bluetooth.Base.{
  ℕ, suc, ◌+◌, ◌*◌, ◌/◌, ◌^◌, ◌≤◌, ◌<◌, ◌≡◌, refl, ◌⊎◌, inl, inr, arith,
}
use canopus_module_bluetooth.Base.Int.{
  ℤ, pos, negsuc, pos_part, neg_part, ◌+ℤ◌, ◌-ℤ◌, ◌*ℤ◌, ◌≤ℤ◌, shr15, divide_by, IsI16, IsI32,
  as_i16-IsI16,
}
use canopus_module_bluetooth.Mp3.{required_sample_rate}
use canopus_module_bluetooth.Mp3.Samples.{apply_volume, blend_q15, interpolated, interpolate}

blend_q15-lt : (fraction : ℕ) → fraction < required_sample_rate → blend_q15 fraction < 2 ^ 15
unfolding blend_q15
blend_q15-lt fraction h = omega arith

times_parts :
    (s : ℤ) (k : ℕ)
    → (pos_part (s *ℤ pos k) ≡ pos_part s * k) × (neg_part (s *ℤ pos k) ≡ neg_part s * k)
unfolding ◌*ℤ◌
times_parts (pos n) k = (ground arith, ground arith)
times_parts (negsuc n) k = (ground arith, ground arith)

divide_parts :
    (z : ℤ)
    → (pos_part (divide_by z 100) ≡ pos_part z / 100)
      × (neg_part (divide_by z 100) ≡ neg_part z / 100)
unfolding divide_by
divide_parts (pos n) = (ground arith, ground arith)
divide_parts (negsuc n) = (ground arith, ground arith)

percent_le : (a percent : ℕ) → percent ≤ 100 → a * percent / 100 ≤ a
percent_le a percent h = let e : a * percent ≤ a * 100 = grind arith in omega arith

-- The volume scales a sample by a percentage, rounded towards zero: on a sample of 16 bits and a
-- volume of at most 100, the sign is kept, the magnitude is that part of the sample's, and so it is
-- never louder.
pub apply_volume_lem :
    (s : ℤ) (percent : ℕ)
    → percent ≤ 100
    → IsI16 s
    → (pos_part (apply_volume s percent) ≡ pos_part s * percent / 100)
      × (neg_part (apply_volume s percent) ≡ neg_part s * percent / 100)
      × IsI16 (apply_volume s percent)
unfolding apply_volume
apply_volume_lem s percent h v =
    let z : ℤ = s *ℤ pos percent in
    let small : IsI16 (divide_by z 100) = omega (
      arith,
      divide_parts z,
      times_parts s percent,
      percent_le (pos_part s) percent h,
      percent_le (neg_part s) percent h,
    ) in
    rw (as_i16-IsI16 (divide_by z 100) small) (
      omega (arith, divide_parts z, times_parts s percent),
      omega (arith, divide_parts z, times_parts s percent),
      small,
    )

minus_parts :
    (a b : ℤ)
    → pos_part (a -ℤ b) + neg_part a + pos_part b ≡ neg_part (a -ℤ b) + pos_part a + neg_part b
unfolding ◌-ℤ◌
minus_parts a b = ground arith

plus_parts :
    (a b : ℤ)
    → pos_part (a +ℤ b) + neg_part a + neg_part b ≡ neg_part (a +ℤ b) + pos_part a + pos_part b
unfolding ◌+ℤ◌
plus_parts a b = ground arith

-- One of the two parts of an integer is zero.
one_part : (a : ℤ) → (pos_part a ≡ 0) ⊎ (neg_part a ≡ 0)
one_part (pos n) = inr refl
one_part (negsuc n) = inl refl

-- A difference weighted by less than one, rounded, stays between zero and the difference.
weighted_up :
    (d : ℤ) (blend : ℕ)
    → blend < 2 ^ 15
    → neg_part d ≡ 0
    → let w = shr15 (d *ℤ pos blend +ℤ pos (2 ^ 14)) in (pos 0 ≤ℤ w) × (w ≤ℤ d)
unfolding shr15 ◌+ℤ◌ ◌*ℤ◌
weighted_up (negsuc n) blend h e = absurd (omega arith)
weighted_up (pos n) blend h e = let m : n * blend ≤ n * 32767 = grind arith in ground arith

weighted_down :
    (d : ℤ) (blend : ℕ)
    → blend < 2 ^ 15
    → pos_part d ≡ 0
    → let w = shr15 (d *ℤ pos blend +ℤ pos (2 ^ 14)) in (d ≤ℤ w) × (w ≤ℤ pos 0)
unfolding shr15 ◌+ℤ◌ ◌*ℤ◌
weighted_down (pos n) blend h e = ground arith
weighted_down (negsuc n) blend h e =
    let m : suc n * blend ≤ suc n * 32767 = grind arith in ground arith

-- The weighted difference before the shift.
abbrev pub weighted : ℤ → ℤ → ℕ → ℤ
weighted first second blend = (second -ℤ first) *ℤ pos blend +ℤ pos (2 ^ 14)

weighted-IsI32 :
    (d : ℤ) (blend : ℕ)
    → blend < 2 ^ 15
    → pos_part d < 2 ^ 16
    → neg_part d < 2 ^ 16
    → IsI32 (d *ℤ pos blend +ℤ pos (2 ^ 14))
weighted-IsI32 d blend h p q =
    let up : pos_part d * blend ≤ 65535 * 32767 = grind arith in
    let down : neg_part d * blend ≤ 65535 * 32767 = grind arith in
    let w = d *ℤ pos blend in
    omega (
      arith,
      times_parts d blend,
      plus_parts w (pos (2 ^ 14)),
      one_part d,
      one_part (w +ℤ pos (2 ^ 14)),
    )

between :
    (a b : ℤ) (blend : ℕ)
    → blend < 2 ^ 15
    → let r = interpolated a b blend in ((a ≤ℤ r) × (r ≤ℤ b)) ⊎ ((b ≤ℤ r) × (r ≤ℤ a))
unfolding interpolated
between a b blend h =
    let d : ℤ = b -ℤ a in
    let w : ℤ = shr15 (d *ℤ pos blend +ℤ pos (2 ^ 14)) in
    elim (one_part d) [
      | inr e ↦
          (let (lo, hi) = weighted_up d blend h e in
            inl (
              omega (arith, lo, plus_parts a w),
              omega (arith, hi, plus_parts a w, minus_parts b a),
            ))
      | inl e ↦
          (let (lo, hi) = weighted_down d blend h e in
            inr (
              omega (arith, lo, plus_parts a w, minus_parts b a),
              omega (arith, hi, plus_parts a w),
            ))
    ]

difference_small :
    (a b : ℤ) → IsI16 a → IsI16 b → (pos_part (b -ℤ a) < 2 ^ 16) × (neg_part (b -ℤ a) < 2 ^ 16)
difference_small a b va vb = omega (arith, minus_parts b a, one_part (b -ℤ a))

-- At every fraction of a source frame, the interpolated sample lies between the two 16-bit samples,
-- and the 32-bit product on the way does not overflow.
pub interpolate_between :
    (a b : ℤ) (fraction : ℕ)
    → fraction < required_sample_rate
    → IsI16 a
    → IsI16 b
    → let r = interpolate a b (blend_q15 fraction) in
      (((a ≤ℤ r) × (r ≤ℤ b)) ⊎ ((b ≤ℤ r) × (r ≤ℤ a))) × IsI32 (weighted a b (blend_q15 fraction))
unfolding interpolate
interpolate_between a b fraction h va vb =
    let blend : ℕ = blend_q15 fraction in
    let small : blend < 2 ^ 15 = blend_q15-lt fraction h in
    let inside = between a b blend small in
    let r : ℤ = interpolated a b blend in
    let fits : IsI16 r = omega (arith, inside, one_part r, one_part a, one_part b) in
    let d : ℤ = b -ℤ a in
    let (p, q) = difference_small a b va vb in
    rw (as_i16-IsI16 r fits) (inside, weighted-IsI32 d blend small p q)
