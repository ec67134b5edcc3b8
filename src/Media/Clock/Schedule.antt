-- ===== src/Media/Clock/Schedule.antt =====
-- When a packet is due.
use canopus_module_bluetooth.Base.{
  ℕ, ◌+◌, ◌-◌, ◌*◌, ◌/◌, ◌%◌, ◌^◌, ◌≤◌, ◌<◌, ◌≡◌, ◌⊎◌, refl, ap, ◌∙◌, min, max, true, arith,
  Bool-cases, inl, inr, ltb, if◌then◌else◌,
}
use canopus_module_bluetooth.Base.Words.{wrapping_sub, u32_mod}
use canopus_module_bluetooth.Media.{sample_rate}
use canopus_module_bluetooth.Media.Clock.{
  PacketClock, send, wait, poll, sent, sent_us, target_us, u64_mod,
}

-- Some 36 days of audio in one run.
abbrev pub sample_limit : ℕ
sample_limit = 2 ^ 37

abbrev early_by : PacketClock → ℕ → ℕ
early_by c now_ms = sent_us c - target_us c now_ms

wait_ms :
    (s t : ℕ)
    → t < s
    → s < 4_000_000_000_000
    → max ((s - t + 1_000 - 1) / 1_000) 1 % u32_mod ≡ (s - t + 999) / 1_000
wait_ms s t early small = omega arith

sent_us-small : (c : PacketClock) → c.sent_samples < sample_limit → sent_us c < 4_000_000_000_000
sent_us-small c few = omega arith

poll_early :
    (c : PacketClock) (now : ℕ)
    → c.running ≡ true
    → c.sent_samples < sample_limit
    → target_us c now < sent_us c
    → poll now c ≡ (wait ((early_by c now + 999) / 1000), c)
unfolding poll
poll_early c now up few early =
    let test : ltb (target_us c now) (sent_us c) ≡ true = ground (arith, early) in
    rw (up, test, wait_ms (sent_us c) (target_us c now) early (sent_us-small c few)) refl

poll_due :
    (c : PacketClock) (now : ℕ)
    → c.running ≡ true
    → sent_us c ≤ target_us c now
    → (poll now c).0 ≡ send
unfolding poll
poll_due c now up due = ground arith

waits_then_sends :
    (c : PacketClock) (now later d k : ℕ)
    → c.running ≡ true
    → c.sent_samples < sample_limit
    → (poll now c).0 ≡ wait d
    → wrapping_sub later c.anchor_ms ≡ wrapping_sub now c.anchor_ms + k
    → (k < d → (poll later c).0 ≡ wait (d - k)) × (k ≡ d → (poll later c).0 ≡ send)
waits_then_sends c now later d k up few asked apart =
    elim (Bool-cases (ltb (target_us c now) (sent_us c))) [
      | inl e ↦
          let early : target_us c now < sent_us c = ground arith in
          let first = poll_early c now up few early in
          let same : d ≡ (early_by c now + 999) / 1_000 = ground (arith, asked, first) in
          (
            λ sooner.
                let still : target_us c later < sent_us c = omega arith in
                let shorter : (early_by c later + 999) / 1_000 ≡ d - k = omega arith in
                ap (λ p. p.0) (poll_early c later up few still) ∙ ap wait shorter,
            λ there. poll_due c later up (omega arith),
          )
      | inr e ↦
          let due : sent_us c ≤ target_us c now = ground arith in
          absurd (cc (poll_due c now up due, asked))
    ]

-- The answer `Wait(d)` names the first moment at which a packet is due: polled `k` milliseconds
-- later, for `k` up to `d`, the clock still waits the rest of `d` while `k` is less than `d`, and
-- sends when `k` is `d`. The stream is running and no longer than 2 ^ 37 samples, and the u32 clock
-- has not wrapped past the anchor in between.
pub wait_exact :
    (c : PacketClock) (now later d k : ℕ)
    → c.running ≡ true
    → c.sent_samples < sample_limit
    → (poll now c).0 ≡ wait d
    → wrapping_sub later c.anchor_ms ≡ wrapping_sub now c.anchor_ms + k
    → k ≤ d
    → (poll later c).0 ≡ (if ltb k d then wait (d - k) else send)
wait_exact c now later d k up few asked apart within =
    let (sooner, there) = waits_then_sends c now later d k up few asked apart in
    elim (Bool-cases (ltb k d)) [
      | inl e ↦ rw e (sooner (ground arith))
      | inr e ↦ rw e (there (ground arith))
    ]

sent_due :
    (c : PacketClock) (now : ℕ)
    → c.running ≡ true
    → (poll now c).0 ≡ send
    → c.sent_samples < sample_limit
    → sent_us c ≤ target_us c now
sent_due c now up ok few = elim (Bool-cases (ltb (target_us c now) (sent_us c))) [
  | inl e ↦ absurd (cc (poll_early c now up few (ground arith), ok))
  | inr e ↦ ground arith
]

-- A poll keeps the anchor and the count, or starts both anew.
poll_kept :
    (c : PacketClock) (now : ℕ)
    → c.running ≡ true
    → sent_us c ≤ target_us c now
    → let c' = (poll now c).1 in
      (c'.running ≡ true)
      × (c'.lead_ms ≡ c.lead_ms)
      × (((c'.anchor_ms ≡ c.anchor_ms) × (c'.sent_samples ≡ c.sent_samples))
          ⊎ ((c'.anchor_ms ≡ now) × (c'.sent_samples ≡ 0)))
unfolding poll
poll_kept c now up due = ground arith

sent_lem :
    (c : PacketClock) (now samples : ℕ)
    → c.running ≡ true
    → c.sent_samples < sample_limit
    → samples < 2 ^ 16
    → sent now samples c ≡ record c { sent_samples = c.sent_samples + samples }
unfolding sent
sent_lem c now samples up few small =
    let e : min (c.sent_samples + samples) (u64_mod - 1) ≡ c.sent_samples + samples = omega arith in
    rw (up, e) refl

grown :
    (s n : ℕ)
    → s < sample_limit
    → n < 2 ^ 16
    → (s + n) * 1_000_000 % u64_mod / sample_rate
      ≤ s * 1_000_000 % u64_mod / sample_rate + n * 1_000_000 / sample_rate + 1
grown s n few small = omega arith

-- A poll that lets a packet of at most `n` samples go leaves the running stream ahead of real time
-- by no more than the lead and that packet, rounded up to a microsecond. The stream is no longer than
-- 2 ^ 37 samples, and `n` is below 2 ^ 16.
pub lead_bounded :
    (c : PacketClock) (now samples : ℕ)
    → c.running ≡ true
    → c.sent_samples < sample_limit
    → samples < 2 ^ 16
    → (poll now c).0 ≡ send
    → let c' = sent now samples (poll now c).1 in
      sent_us c' ≤ target_us c' now + samples * 1_000_000 / sample_rate + 1
lead_bounded c now samples up few small ok =
    let c1 : PacketClock = (poll now c).1 in
    let due = sent_due c now up ok few in
    let (up1, lead, kept) = poll_kept c now up due in
    elim kept [
      | inl (anchor, count) ↦
          rw (sent_lem c1 now samples up1 (omega arith) small, lead, anchor, count)
            (omega (arith, grown c.sent_samples samples few small, due))
      | inr (anchor, count) ↦
          rw (sent_lem c1 now samples up1 (omega arith) small, lead, anchor, count)
            (omega (arith, grown 0 samples (omega arith) small))
    ]
