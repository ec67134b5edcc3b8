-- ===== src/Tests/Playback.antt =====
-- A packetizer for bit pool 35, and a clock with half a second of lead.
use canopus_module_bluetooth.Base.{
  ℕ, ◌+◌, ◌-◌, ◌*◌, ◌/◌, ◌≤◌, ◌<◌, ◌≡◌, ◌⊎◌, refl, min, true, false, [], ◌∷◌, replicate, arith, ok,
  err, if◌then◌else◌, ltb,
}
use canopus_module_bluetooth.Media.{sample_rate, frame_samples, headers, max_tx_sdu, mtu, codec}
use canopus_module_bluetooth.Media.Packetizer.{StreamPacketizer, fresh, new, write_header}
use canopus_module_bluetooth.Media.Packetizer.Sizing.{IsSized, new_outcome}
use canopus_module_bluetooth.Media.Packetizer.Pacing.{
  sum, delays, after_delays, delays_exact, IsCounting, write_header-IsCounting,
}
use canopus_module_bluetooth.Media.Clock.{PacketClock, send, wait, poll, sent, sent_us, target_us}
use canopus_module_bluetooth.Media.Clock.Schedule.{wait_exact, lead_bounded}

abbrev packetizer : StreamPacketizer
packetizer = fresh 35 5 83

delays_exact_example :
    (delays packetizer (5 ∷ 5 ∷ 2 ∷ []) * sample_rate
        + (after_delays packetizer (5 ∷ 5 ∷ 2 ∷ [])).pace_remainder
      ≡ sum (5 ∷ 5 ∷ 2 ∷ []) * frame_samples * 1000 + 0)
    × ((after_delays packetizer (5 ∷ 5 ∷ 2 ∷ [])).pace_remainder < sample_rate)
delays_exact_example =
    delays_exact packetizer (5 ∷ 5 ∷ 2 ∷ []) (omega arith, (omega arith, (omega arith, tt)))
      (omega arith)

new_outcome_example :
    let frame : ℕ = 83 in
    ((27 ≤ 35)
      × (35 ≤ 53)
      × (headers + frame ≤ min 400 max_tx_sdu)
      × ((p : StreamPacketizer) × (new 400 35 true ≡ ok p)
          × IsSized 400 p
          × (p.frame_length ≡ frame)))
    ⊎ ((27 ≤ 35) × (35 ≤ 53) × (min 400 max_tx_sdu < headers + frame) × (new 400 35 true ≡ err mtu))
    ⊎ (((35 < 27) ⊎ (53 < 35)) × (new 400 35 true ≡ err codec))
new_outcome_example = new_outcome 400 35 true

packetizer-IsCounting : IsCounting packetizer
packetizer-IsCounting = record { sequence_counts = refl; timestamp_counts = refl }

write_header-IsCounting_example : IsCounting (write_header packetizer (replicate 500 0) 5 false).2
write_header-IsCounting_example =
    write_header-IsCounting packetizer (replicate 500 0) 5 false packetizer-IsCounting

-- A quarter of a second after the start, 0.8 seconds of audio sent.
abbrev clock : PacketClock
clock = record {
  anchor_ms = 1000;
  sent_samples = 35280;
  lead_ms = 500;
  running = true;
  worst_lag_ms = 0;
}

clock_waits : (poll 1250 clock).0 ≡ wait 50
unfolding poll
clock_waits = refl

clock_sends : (poll 1300 clock).0 ≡ send
unfolding poll
clock_sends = refl

wait_exact_example : (poll 1270 clock).0 ≡ (if ltb 20 50 then wait (50 - 20) else send)
wait_exact_example =
    wait_exact clock 1250 1270 50 20 refl (omega arith) clock_waits refl (omega arith)

lead_bounded_example :
    let c' = sent 1300 640 (poll 1300 clock).1 in
    sent_us c' ≤ target_us c' 1300 + 640 * 1_000_000 / sample_rate + 1
lead_bounded_example = lead_bounded clock 1300 640 refl (omega arith) (omega arith) clock_sends
