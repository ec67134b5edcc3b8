-- ===== src/Media/Tone/Packets.antt =====
-- The packets of the tone: each is written, and there are as many as five seconds take.
use canopus_module_bluetooth.Base.{
  ℕ, zero, suc, ◌+◌, ◌-◌, ◌*◌, ◌≤◌, ◌<◌, ◌≡◌, refl, ap, ◌∙◌, min, true, false, Option, none, some,
  List, ◌++◌, length, replicate, splice, take, drop, leb, ltb, arith, Result, ok, err, inl, inr,
  ==_refl, length-append, length-take, length-drop, length-splice,
}
use canopus_module_bluetooth.Base.Words.{div_ceil}
use canopus_module_bluetooth.Media.{
  MediaError, complete, headers, frame_length, sample_rate, frame_samples, max_tx_sdu,
}
use canopus_module_bluetooth.Media.Packetizer.{fit_frames}
use canopus_module_bluetooth.Media.Packetizer.Sizing.{fit_frames_lem}
use canopus_module_bluetooth.Media.Tone.{
  TonePacketizer, new, sized_tone, after_frame, write_chunks, write_packet, advanced, tone_length,
  tone_header, is_complete, tone_seconds,
}
use canopus_module_bluetooth.Media.Tone.Table.{write_frame-IsFrame}

-- Every chunk takes a frame.
write_chunks_lem :
    (bitpool frames : ℕ) (out : List ℕ)
    → 27 ≤ bitpool
    → bitpool ≤ 53
    → frames * (12 + 2 * bitpool) ≤ length out
    → let r = write_chunks bitpool (12 + 2 * bitpool) frames out in
      (r.0 ≡ true) × (length r.1 ≡ length out)
unfolding write_chunks after_frame
write_chunks_lem bitpool zero out low high room = (refl, refl)
write_chunks_lem bitpool (suc frames) out low high room =
    let len : ℕ = 12 + 2 * bitpool in
    let split : suc frames * len ≡ len + frames * len = grind arith in
    let front : length (take len out) ≡ len = omega (arith, length-take len out, room, split) in
    let rest : length (drop len out) ≡ length out - len = length-drop len out in
    let frame = write_frame-IsFrame bitpool (take len out) low high (omega (arith, front)) in
    let further =
      write_chunks_lem bitpool frames (drop len out) low high (omega (arith, rest, room, split)) in
    let size = length-splice 0 frame.0 (take len out) in
    rw (frame.1, ==_refl len)
      (
        further.0,
        length-append (splice 0 frame.0 (take len out)) _
            ∙ omega (arith, size, front, further.1, rest, room, split),
      )

framed_chunks :
    (bitpool len frames : ℕ) (out : List ℕ)
    → len ≡ 12 + 2 * bitpool
    → 27 ≤ bitpool
    → bitpool ≤ 53
    → frames * len ≤ length out
    → let r = write_chunks bitpool len frames out in (r.0 ≡ true) × (length r.1 ≡ length out)
framed_chunks bitpool len frames out framed low high room =
    let same : frames * len ≡ frames * (12 + 2 * bitpool) = ap (λ n. frames * n) framed in
    rw framed (write_chunks_lem bitpool frames out low high (omega (arith, room, same)))

pub record IsTone (p : TonePacketizer) : Type 0 where
  pub low : 27 ≤ p.bitpool
  pub high : p.bitpool ≤ 53
  pub framed : p.frame_length ≡ 12 + 2 * p.bitpool
  pub some_frames : 1 ≤ p.frames_per_packet
  pub fits : tone_length p ≤ max_tx_sdu

advanced-IsTone : (p : TonePacketizer) → IsTone p → IsTone (advanced p)
unfolding advanced
advanced-IsTone p v = record {
  low = v.low;
  high = v.high;
  framed = v.framed;
  some_frames = v.some_frames;
  fits = v.fits;
}

-- A packet that is due and has room is written.
write_packet_lem :
    (p : TonePacketizer) (out : List ℕ)
    → IsTone p
    → p.packets_sent < p.packets_target
    → tone_length p ≤ length out
    → (out' : List ℕ) × (write_packet p out ≡ (ok (tone_length p), out', advanced p))
      × (length out' ≡ length out)
unfolding write_packet is_complete
write_packet_lem p out v due room =
    let len : ℕ = tone_length p in
    let headed : List ℕ = splice 0 (tone_header p) (splice 0 (replicate len 0) out) in
    let size : length headed ≡ length out =
      length-splice 0 (tone_header p) (splice 0 (replicate len 0) out)
      ∙ length-splice 0 (replicate len 0) out in
    let chunk : ℕ = len - headers in
    let body : List ℕ = take chunk (drop headers headed) in
    let body_size : length body ≡ chunk =
      omega
        (arith, length-take chunk (drop headers headed), length-drop headers headed, size, room) in
    let chunks =
      framed_chunks p.bitpool p.frame_length p.frames_per_packet body v.framed v.low v.high
        (omega (arith, body_size)) in
    let open_yet : leb p.packets_target p.packets_sent ≡ false = ground arith in
    let roomy : ltb (length out) len ≡ false = ground arith in
    let whole = write_chunks p.bitpool p.frame_length p.frames_per_packet body in
    (
      take headers headed ++ (whole.1 ++ drop len headed),
      rw (open_yet, roomy, chunks.0) refl,
      length-append (take headers headed) (whole.1 ++ drop len headed)
          ∙ omega (
            arith,
            length-append whole.1 (drop len headed),
            length-take headers headed,
            length-drop len headed,
            size,
            chunks.1,
            body_size,
            room,
          ),
    )

-- `n` packets written one after the other to the same buffer, if each of them is.
unfoldable pub after_packet : Result MediaError ℕ → (Option TonePacketizer) → Option TonePacketizer
after_packet (ok len) further = further
after_packet (err e) further = none

unfoldable pub plays : ℕ → TonePacketizer → List ℕ → Option TonePacketizer
plays zero p out = some p
plays (suc n) p out = let r = write_packet p out in after_packet r.0 (plays n r.2 r.1)

-- What is left of a tone after `n` more of its packets.
record HasPlayed (n : ℕ) (p : TonePacketizer) (out : List ℕ) : Type 0 where
  pub last : TonePacketizer
  pub played : plays n p out ≡ some last
  pub sent : last.packets_sent ≡ p.packets_sent + n
  pub frames : last.frames_sent ≡ p.frames_sent + n * p.frames_per_packet
  pub target : last.packets_target ≡ p.packets_target

plays-HasPlayed :
    (n : ℕ) (p : TonePacketizer) (out : List ℕ)
    → IsTone p
    → p.packets_sent + n ≤ p.packets_target
    → max_tx_sdu ≤ length out
    → HasPlayed n p out
unfolding plays after_packet advanced
plays-HasPlayed zero p out v due room = record {
  last = p;
  played = refl;
  sent = omega arith;
  frames = omega arith;
  target = refl;
}
plays-HasPlayed (suc n) p out v due room =
    let written = write_packet_lem p out v (omega arith) (omega (arith, v.fits)) in
    let later =
      plays-HasPlayed n (advanced p) written.0 (advanced-IsTone p v) (omega arith)
        (omega (arith, written.2)) in
    record {
      last = later.last;
      played = rw written.1 later.played;
      sent = omega (arith, later.sent);
      frames = grind (arith, later.frames);
      target = later.target;
    }

-- The samples of the least number of packets of `f` frames that last five seconds.
Covers : ℕ → ℕ → Type 0
Covers f target =
    (tone_seconds * sample_rate ≤ target * f * frame_samples)
    × (target * f * frame_samples < tone_seconds * sample_rate + f * frame_samples)

div_ceil-Covers :
    (f : ℕ) → 1 ≤ f → f ≤ 5 → Covers f (div_ceil (tone_seconds * sample_rate) (f * frame_samples))
unfolding Covers
div_ceil-Covers zero low high = absurd (omega arith)
div_ceil-Covers (suc zero) low high = (omega arith, omega arith)
div_ceil-Covers (suc (suc zero)) low high = (omega arith, omega arith)
div_ceil-Covers (suc (suc (suc zero))) low high = (omega arith, omega arith)
div_ceil-Covers (suc (suc (suc (suc zero)))) low high = (omega arith, omega arith)
div_ceil-Covers (suc (suc (suc (suc (suc zero))))) low high = (omega arith, omega arith)
div_ceil-Covers (suc (suc (suc (suc (suc (suc f)))))) low high = absurd (omega arith)

-- A tone at its start.
record IsFresh (p : TonePacketizer) : Type 0 where
  pub tone : IsTone p
  pub none_sent : p.packets_sent ≡ 0
  pub no_frames : p.frames_sent ≡ 0
  pub covers : Covers p.frames_per_packet p.packets_target

new-IsFresh :
    (peer_mtu bitpool : ℕ)
    → 27 ≤ bitpool
    → bitpool ≤ 53
    → headers + (12 + 2 * bitpool) ≤ min peer_mtu max_tx_sdu
    → (p : TonePacketizer) × (new peer_mtu bitpool ≡ ok p) × IsFresh p
unfolding new sized_tone frame_length
new-IsFresh peer_mtu bitpool low high room =
    let limit : ℕ = min peer_mtu max_tx_sdu in
    let fl : ℕ = 12 + 2 * bitpool in
    let f : ℕ = fit_frames fl limit 5 in
    let (some_frames, at_most, fit, most) = fit_frames_lem fl limit 5 (omega arith) in
    let above : ltb bitpool 27 ≡ false = ground arith in
    let below : ltb 53 bitpool ≡ false = ground arith in
    let roomy : ltb limit (headers + fl) ≡ false = ground arith in
    let fitting : headers + f * fl ≤ limit = elim fit [
      | inl one ↦ rw one (omega arith)
      | inr h ↦ h
    ] in
    (
      record {
        sequence = 1;
        timestamp = 0;
        packets_sent = 0;
        frames_sent = 0;
        packets_target = div_ceil (tone_seconds * sample_rate) (f * frame_samples);
        frames_per_packet = f;
        bitpool = bitpool;
        frame_length = fl;
        pace_remainder = 0;
      },
      rw (above, below, roomy) refl,
      record {
        tone = record {
          low = low;
          high = high;
          framed = refl;
          some_frames = some_frames;
          fits = omega (arith, fitting);
        };
        none_sent = refl;
        no_frames = refl;
        covers = div_ceil-Covers f some_frames at_most;
      },
    )

-- For a bit pool from 27 to 53 with one frame within the MTU and 672 bytes, and a buffer of 672
-- bytes or more, the packetizer is made, every one of its packets is written, the next call says
-- Complete whatever its buffer, and the samples sent last five seconds and less than a packet
-- more.
pub tone_completes :
    (peer_mtu bitpool : ℕ) (out out' : List ℕ)
    → 27 ≤ bitpool
    → bitpool ≤ 53
    → headers + (12 + 2 * bitpool) ≤ min peer_mtu max_tx_sdu
    → max_tx_sdu ≤ length out
    → (p q : TonePacketizer) × (new peer_mtu bitpool ≡ ok p)
      × (plays p.packets_target p out ≡ some q)
      × ((write_packet q out').0 ≡ err complete)
      × (tone_seconds * sample_rate ≤ q.frames_sent * frame_samples)
      × (q.frames_sent * frame_samples
          < tone_seconds * sample_rate + p.frames_per_packet * frame_samples)
unfolding write_packet is_complete Covers
tone_completes peer_mtu bitpool out out' low high room size =
    let (p, made, v) = new-IsFresh peer_mtu bitpool low high room in
    let all = plays-HasPlayed p.packets_target p out v.tone (omega (arith, v.none_sent)) size in
    let finished : leb all.last.packets_target all.last.packets_sent ≡ true =
      ground (arith, all.sent, all.target, v.none_sent) in
    let frames : all.last.frames_sent ≡ p.packets_target * p.frames_per_packet =
      omega (arith, all.frames, v.no_frames) in
    (p, all.last, made, all.played, rw finished refl, rw frames v.covers.0, rw frames v.covers.1)
