-- ===== src/Media/Packetizer/Sizing.antt =====
-- The size of a packet against the link's MTU.
use canopus_module_bluetooth.Base.{
  ℕ, zero, suc, ◌+◌, ◌*◌, ◌≤◌, ◌<◌, ◌≡◌, ◌⊎◌, inl, inr, refl, min, Bool, true, false, none, some,
  ok, err, arith, ltb, Bool-cases, ◌&&◌, ◌||◌, if◌then◌else◌,
}
use canopus_module_bluetooth.Media.{
  mtu, codec, headers, max_tx_sdu, max_frames_per_packet, stream_frame_length,
}
use canopus_module_bluetooth.Media.Packetizer.{sized, fresh, StreamPacketizer, fit_frames, new}

abbrev pub Fits : ℕ → ℕ → ℕ → ℕ → Type 0
Fits fl limit k f =
    (1 ≤ f)
    × (f ≤ k)
    × ((f ≡ 1) ⊎ (headers + f * fl ≤ limit))
    × ((f ≡ k) ⊎ (limit < headers + (f + 1) * fl))

fit_smaller :
    (fl limit k f : ℕ) → limit < headers + suc k * fl → Fits fl limit k f → Fits fl limit (suc k) f
fit_smaller fl limit k f over (lo, hi, fit, inl e) =
    (lo, omega arith, fit, inr (rw e (omega arith)))
fit_smaller fl limit k f over (lo, hi, fit, inr more) = (lo, omega arith, fit, inr more)

-- The loop ends between one frame and `k`, at the most frames that fit, or at one.
pub fit_frames_lem : (fl limit k : ℕ) → 0 < k → Fits fl limit k (fit_frames fl limit k)
unfolding fit_frames
fit_frames_lem fl limit zero h = absurd (omega arith)
fit_frames_lem fl limit (suc k) h =
    elim (Bool-cases (ltb 1 (suc k) && ltb limit (headers + suc k * fl))) [
      | inl e ↦ rw e (
          fit_smaller fl limit k (fit_frames fl limit k) (ground arith)
            (fit_frames_lem fl limit k (ground arith)))
      | inr e ↦ rw e (omega arith, omega arith, ground arith, inl refl)
    ]

-- What `new` returns: a packetizer whose full packet fits the smaller of the MTU and 672 bytes, of
-- one to five frames, and as many of them as fit up to five.
pub record IsSized (peer_mtu : ℕ) (p : StreamPacketizer) : Type 0 where
  pub some_frames : 1 ≤ p.frames_per_packet
  pub at_most_five : p.frames_per_packet ≤ max_frames_per_packet
  pub fits : headers + p.frames_per_packet * p.frame_length ≤ min peer_mtu max_tx_sdu
  pub maximal :
      (p.frames_per_packet ≡ max_frames_per_packet)
      ⊎ (min peer_mtu max_tx_sdu < headers + (p.frames_per_packet + 1) * p.frame_length)

sized_lem :
    (peer_mtu bitpool fl : ℕ)
    → let limit = min peer_mtu max_tx_sdu in
      ((p : StreamPacketizer) × (sized bitpool limit fl ≡ ok p)
        × IsSized peer_mtu p
        × (p.frame_length ≡ fl)
        × (headers + fl ≤ limit))
      ⊎ ((sized bitpool limit fl ≡ err mtu) × (limit < headers + fl))
sized_lem peer_mtu bitpool fl =
    let limit : ℕ = min peer_mtu max_tx_sdu in
    let (lo, hi, fit, most) = fit_frames_lem fl limit max_frames_per_packet (omega arith) in
    elim (Bool-cases (ltb limit (headers + fl))) [
      | inl e ↦ inr (rw e refl, ground arith)
      | inr e ↦ inl (
        fresh bitpool (fit_frames fl limit max_frames_per_packet) fl,
        rw e refl,
        record {
          some_frames = lo;
          at_most_five = hi;
          fits = elim fit [ inl one ↦ rw one (ground arith) | inr h ↦ h ];
          maximal = most;
        },
        refl,
        ground arith,
      )
    ]

stream_frame_length-none :
    (bitpool : ℕ) (joint : Bool)
    → (ltb bitpool 27 || ltb 53 bitpool) ≡ true
    → stream_frame_length bitpool joint ≡ none
unfolding stream_frame_length
stream_frame_length-none bitpool joint h = rw h refl

stream_frame_length-some :
    (bitpool : ℕ) (joint : Bool)
    → (ltb bitpool 27 || ltb 53 bitpool) ≡ false
    → stream_frame_length bitpool joint ≡ some ((if joint then 13 else 12) + 2 * bitpool)
unfolding stream_frame_length
stream_frame_length-some bitpool true h = rw h refl
stream_frame_length-some bitpool false h = rw h refl

-- `new` fails with Codec exactly when the bit pool lies outside 27 to 53, else with Mtu exactly
-- when one frame does not fit the smaller of the MTU and 672 bytes, and else returns a packetizer
-- whose full packet fits that limit, with as many frames as fit it up to five.
pub new_outcome :
    (peer_mtu bitpool : ℕ) (joint : Bool)
    → let frame = (if joint then 13 else 12) + 2 * bitpool in
      ((27 ≤ bitpool)
        × (bitpool ≤ 53)
        × (headers + frame ≤ min peer_mtu max_tx_sdu)
        × ((p : StreamPacketizer) × (new peer_mtu bitpool joint ≡ ok p)
            × IsSized peer_mtu p
            × (p.frame_length ≡ frame)))
      ⊎ ((27 ≤ bitpool)
          × (bitpool ≤ 53)
          × (min peer_mtu max_tx_sdu < headers + frame)
          × (new peer_mtu bitpool joint ≡ err mtu))
      ⊎ (((bitpool < 27) ⊎ (53 < bitpool)) × (new peer_mtu bitpool joint ≡ err codec))
unfolding new
new_outcome peer_mtu bitpool joint = elim (Bool-cases (ltb bitpool 27 || ltb 53 bitpool)) [
  | inl outside ↦
      inr (inr (ground arith, rw (stream_frame_length-none bitpool joint outside, new) refl))
  | inr inside ↦
      let frame : ℕ = (if joint then 13 else 12) + 2 * bitpool in
      let known : stream_frame_length bitpool joint ≡ some frame =
        stream_frame_length-some bitpool joint inside in
      let lo : 27 ≤ bitpool = ground arith in
      let hi : bitpool ≤ 53 = ground arith in
      elim (sized_lem peer_mtu bitpool frame) [
        | inl (p, made, good, len, fits) ↦ inl (lo, hi, fits, (p, rw (known, new) made, good, len))
        | inr (failed, over) ↦ inr (inl (lo, hi, over, rw (known, new) failed))
      ]
]
