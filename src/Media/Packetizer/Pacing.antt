-- ===== src/Media/Packetizer/Pacing.antt =====
-- Delays and counters over a whole stream.
use canopus_module_bluetooth.Base.{
  ℕ, ◌+◌, ◌*◌, ◌%◌, ◌≤◌, ◌<◌, ◌≡◌, refl, List, [], ◌∷◌, arith, All, Bool,
}
use canopus_module_bluetooth.Base.Words.{u16_mod, u32_mod}
use canopus_module_bluetooth.Media.{sample_rate, frame_samples}
use canopus_module_bluetooth.Media.Packetizer.{
  StreamPacketizer, next_delay_ms, write_header, packet_length,
}

abbrev pub sum : List ℕ → ℕ
sum [] = 0
sum (x ∷ xs) = x + sum xs

-- The delays of a run of packets, by their frame counts.
abbrev pub delays : StreamPacketizer → List ℕ → ℕ
delays p [] = 0
delays p (f ∷ fs) = (next_delay_ms p f).0 + delays (next_delay_ms p f).1 fs

abbrev pub after_delays : StreamPacketizer → List ℕ → StreamPacketizer
after_delays p [] = p
after_delays p (f ∷ fs) = after_delays (next_delay_ms p f).1 fs

next_delay_exact :
    (p : StreamPacketizer) (f : ℕ)
    → 1 ≤ f
    → let (d, p') = next_delay_ms p f in
      (d * sample_rate + p'.pace_remainder ≡ f * frame_samples * 1000 + p.pace_remainder)
      × (p'.pace_remainder < sample_rate)
unfolding next_delay_ms
next_delay_exact p f h = omega arith

-- Over any run of packets of one frame or more, the delays in milliseconds times the sample rate,
-- with the remainder carried, are exactly the samples times a thousand: the pace does not drift.
-- The remainder is below the sample rate before and after.
pub delays_exact :
    (p : StreamPacketizer) (fs : List ℕ)
    → All (λ f. 1 ≤ f) fs
    → p.pace_remainder < sample_rate
    → (delays p fs * sample_rate + (after_delays p fs).pace_remainder
        ≡ sum fs * frame_samples * 1000 + p.pace_remainder)
      × ((after_delays p fs).pace_remainder < sample_rate)
delays_exact p [] h r = (refl, r)
delays_exact p (f ∷ fs) h r =
    let (exact, small) = next_delay_exact p f h.0 in
    omega (arith, exact, delays_exact (next_delay_ms p f).1 fs h.1 small)

-- The counters agree: the sequence number runs one ahead of the packets, and the timestamp counts
-- 128 samples for each frame, all modulo their widths.
pub record IsCounting (p : StreamPacketizer) : Type 0 where
  pub sequence_counts : p.sequence ≡ (p.packets_sent + 1) % u16_mod
  pub timestamp_counts : p.timestamp ≡ p.frames_sent * frame_samples % u32_mod

-- `write_header` on any buffer keeps the RTP counters in step with the packets and frames sent.
pub write_header-IsCounting :
    (p : StreamPacketizer) (out : List ℕ) (frames : ℕ) (marker : Bool)
    → IsCounting p
    → IsCounting (write_header p out frames marker).2
unfolding write_header packet_length
write_header-IsCounting p out frames marker v = ground arith
