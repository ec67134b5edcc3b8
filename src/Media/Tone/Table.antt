-- ===== src/Media/Tone/Table.antt =====
-- The table of encoded frames.
use canopus_module_bluetooth.Base.{
  ℕ, zero, suc, ◌+◌, ◌*◌, ◌≤◌, ◌<◌, ◌≡◌, refl, bit_xor, Bool, true, false, ◌&&◌, Option, none, some,
  List, map, length, get_or, splice, ltb, ◌==◌, arith, Bool-cases, inl, inr,
}
use canopus_module_bluetooth.Media.{frame_length}
use canopus_module_bluetooth.Media.Tone.{
  encoded_frame, decoded, write_frame, write_frame_of, xor_mask,
}
use canopus_module_bluetooth.Media.Tone.Frames.{
  encoded_frames, frame_27, frame_28, frame_29, frame_30, frame_31, frame_32, frame_33, frame_34,
  frame_35, frame_36, frame_37, frame_38, frame_39, frame_40, frame_41, frame_42, frame_43,
  frame_44, frame_45, frame_46, frame_47, frame_48, frame_49, frame_50, frame_51, frame_52,
  frame_53,
}

abbrev decode : List ℕ → List ℕ
decode = map (λ byte. bit_xor byte xor_mask)

-- The SBC syncword, the parameters of the stream, and the bitpool.
good_frame : ℕ → Option (List ℕ) → Bool
good_frame bitpool none = false
good_frame bitpool (some encoded) =
    length (decode encoded) == 12 + 2 * bitpool
    && get_or (decode encoded) 0 0 == 0x9c
    && get_or (decode encoded) 1 0 == 0xb9
    && get_or (decode encoded) 2 0 == bitpool

good_frames : ℕ → ℕ → Bool
good_frames bitpool zero = true
good_frames bitpool (suc n) =
    good_frame bitpool (encoded_frame bitpool (12 + 2 * bitpool)) && good_frames (bitpool + 1) n

all_good : good_frames 27 27 ≡ true
unfolding good_frames good_frame encoded_frame encoded_frames frame_27 frame_28 frame_29 frame_30
    frame_31 frame_32 frame_33 frame_34 frame_35 frame_36 frame_37 frame_38 frame_39 frame_40
    frame_41 frame_42 frame_43 frame_44 frame_45 frame_46 frame_47 frame_48 frame_49 frame_50
    frame_51 frame_52 frame_53
all_good = refl

good_at :
    (bitpool start n : ℕ)
    → good_frames start n ≡ true
    → start ≤ bitpool
    → bitpool < start + n
    → good_frame bitpool (encoded_frame bitpool (12 + 2 * bitpool)) ≡ true
unfolding good_frames
good_at bitpool start zero h low high = absurd (omega arith)
good_at bitpool start (suc n) h low high = elim (Bool-cases (bitpool == start)) [
  | inl e ↦ (let same : bitpool ≡ start = ground (arith, e) in rw same (ground (arith, h)))
  | inr e ↦ good_at bitpool (start + 1) n (ground (arith, h)) (ground (arith, e)) (omega arith)
]

-- A frame of the tone, as it is sent.
pub record IsFrame (bitpool : ℕ) (frame : List ℕ) : Type 0 where
  pub size : length frame ≡ 12 + 2 * bitpool
  pub syncword : get_or frame 0 0 ≡ 0x9c
  pub stereo : get_or frame 1 0 ≡ 0xb9
  pub rate : get_or frame 2 0 ≡ bitpool

of_good :
    (bitpool : ℕ) (o : Option (List ℕ))
    → good_frame bitpool o ≡ true
    → (encoded : List ℕ) × (o ≡ some encoded) × IsFrame bitpool (decode encoded)
unfolding good_frame
of_good bitpool none h = absurd cc
of_good bitpool (some encoded) h = (
  encoded,
  refl,
  record {
    size = ground (arith, h);
    syncword = ground (arith, h);
    stereo = ground (arith, h);
    rate = ground (arith, h);
  },
)

-- Every bit pool from 27 to 53 has a frame in the table, at its offset: `write_frame` writes 12 +
-- 2 * bitpool bytes that start with the syncword and the stereo parameters and name the bit pool.
pub write_frame-IsFrame :
    (bitpool : ℕ) (out : List ℕ)
    → 27 ≤ bitpool
    → bitpool ≤ 53
    → 12 + 2 * bitpool ≤ length out
    → (frame : List ℕ) × (write_frame bitpool out ≡ some (12 + 2 * bitpool, splice 0 frame out))
      × IsFrame bitpool frame
unfolding write_frame write_frame_of decoded frame_length
write_frame-IsFrame bitpool out low high room =
    let len : ℕ = 12 + 2 * bitpool in
    let found =
      of_good bitpool (encoded_frame bitpool len)
        (good_at bitpool 27 27 all_good low (omega arith)) in
    let above : ltb bitpool 27 ≡ false = ground arith in
    let below : ltb 53 bitpool ≡ false = ground arith in
    let fits : ltb (length out) len ≡ false = ground arith in
    (decode found.0, rw (above, below, fits, found.1) refl, found.2)
