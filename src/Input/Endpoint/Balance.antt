-- ===== src/Input/Endpoint/Balance.antt =====
-- The byte counters against the ring: what was accepted is what was consumed and what is pending.
use canopus_module_bluetooth.Base.{
  ℕ, ◌+◌, ◌%◌, ◌<◌, ◌≡◌, ◌≢◌, refl, Bool, true, List, length, length-append, length-take,
  length-drop, arith,
}
use canopus_module_bluetooth.Base.Words.{u32_mod}
use canopus_module_bluetooth.Base.{inl, inr}
use canopus_module_bluetooth.Base.Int.{ℤ, pos}
use canopus_module_bluetooth.Input.Ring.Slots.{IsCapacity}
use canopus_module_bluetooth.Input.Ring.Queue.{
  IsValid, accepted, delivered, contents, read-contents, reset-contents,
}
use canopus_module_bluetooth.Input.Endpoint.{
  AudioInput, FormatV1, open_input, set_format, start, pause, resume, drain, write, set_volume,
  restore_volume,
}
use canopus_module_bluetooth.Input.Endpoint.Worker.{
  consume, mark_playing, add_pcm_frames, add_rtp_packets, mark_underrun, mark_drained, fail_input,
}
use canopus_module_bluetooth.Input.Endpoint.Soundness.{
  Call, opens, closes, starts, pauses, resumes, stops, flushes, drains, sets_format, writes,
  sets_volume, restores_volume, consumes, plays, adds_pcm_frames, adds_rtp_packets, underruns,
  drained, fails, step,
}
use canopus_module_bluetooth.Input.Endpoint.Sessions.{write_outcome}

-- Modulo 2 ^ 32, as the counters wrap.
pub record IsBalanced (n : ℕ) (s : AudioInput) : Type 0 where
  pub accepted_u32 : s.bytes_accepted < u32_mod
  pub even : s.bytes_accepted ≡ (s.bytes_consumed + length (contents n s.ring)) % u32_mod

module _ (n : ℕ) (c : IsCapacity n) where
  write-IsBalanced :
      (s : AudioInput) (input : List ℕ)
      → IsValid n s.ring
      → IsBalanced n s
      → IsBalanced n (write n input s).1
  write-IsBalanced s input v b = elim (write_outcome n input s c v b.accepted_u32) [
    | inl (_, ring, _, count, kept) ↦ record {
      accepted_u32 = omega arith;
      even =
          rw (ring, count, kept, length-append)
            (omega (arith, b.even, length-take (accepted n input s.ring) input));
    }
    | inr (_, same, _) ↦ rw same b
  ]

  consume-IsBalanced :
      (s : AudioInput) (room : ℕ)
      → IsValid n s.ring
      → IsBalanced n s
      → IsBalanced n (consume n room s).2
  unfolding consume
  consume-IsBalanced s room v b =
      let (_, count, left, _) = read-contents n c s.ring v room in
      let k : ℕ = delivered n room s.ring in
      let shorter = length-drop k (contents n s.ring) in
      record {
        accepted_u32 = b.accepted_u32;
        even = rw (left, count, shorter) (omega (arith, b.even));
      }

  set_format-IsBalanced :
      (s : AudioInput) (f : FormatV1)
      → IsValid n s.ring
      → IsBalanced n s
      → IsBalanced n (set_format n f s).1
  unfolding set_format
  set_format-IsBalanced s f v b = ground (arith, reset-contents n c s.ring v)

  control-IsBalanced :
      (s : AudioInput)
      → IsBalanced n s
      → IsBalanced n (start s).1
        × IsBalanced n (pause s).1
        × IsBalanced n (resume s).1
        × IsBalanced n (drain s).1
  unfolding start pause resume drain
  control-IsBalanced s b = (ground arith, ground arith, ground arith, ground arith)

  volume-IsBalanced :
      (s : AudioInput) (p : ℕ)
      → IsBalanced n s
      → IsBalanced n (set_volume p s).1 × IsBalanced n (restore_volume p s).1
  unfolding set_volume restore_volume
  volume-IsBalanced s p b = (ground arith, ground arith)

  open-IsBalanced :
      (s : AudioInput) → IsValid n s.ring → IsBalanced n s → IsBalanced n (open_input n s).1
  unfolding open_input
  open-IsBalanced s v b = ground (arith, reset-contents n c s.ring v)

  worker-IsBalanced :
      (s : AudioInput) (g a b k : ℕ) (empty : Bool) (error : ℤ)
      → IsBalanced n s
      → IsBalanced n (mark_playing g a b k s).1
        × IsBalanced n (add_pcm_frames g k s)
        × IsBalanced n (add_rtp_packets g k s)
        × IsBalanced n (mark_underrun g s)
        × IsBalanced n (mark_drained n g empty s)
        × IsBalanced n (fail_input g error s)
  unfolding mark_playing add_pcm_frames add_rtp_packets mark_underrun mark_drained fail_input
  worker-IsBalanced s g a b k empty error h =
      (ground arith, ground arith, ground arith, ground arith, ground arith, ground arith)

  -- On a valid ring, every call but close, stop and flush, which drop pending bytes and keep the counters, keeps
  -- the bytes accepted equal, modulo 2 ^ 32, to the bytes consumed and those pending in the ring.
  pub step-IsBalanced :
      (s : AudioInput) (call : Call)
      → call ≢ closes
      → call ≢ stops
      → call ≢ flushes
      → IsValid n s.ring
      → IsBalanced n s
      → IsBalanced n (step n s call)
  step-IsBalanced s opens p q r v b = open-IsBalanced s v b
  step-IsBalanced s closes p q r v b = absurd (p refl)
  step-IsBalanced s starts p q r v b = (control-IsBalanced s b).0
  step-IsBalanced s pauses p q r v b = (control-IsBalanced s b).1
  step-IsBalanced s resumes p q r v b = (control-IsBalanced s b).2
  step-IsBalanced s stops p q r v b = absurd (q refl)
  step-IsBalanced s flushes p q r v b = absurd (r refl)
  step-IsBalanced s drains p q r v b = (control-IsBalanced s b).3
  step-IsBalanced s (sets_format f) p q r v b = set_format-IsBalanced s f v b
  step-IsBalanced s (writes input) p q r v b = write-IsBalanced s input v b
  step-IsBalanced s (sets_volume k) p q r v b = (volume-IsBalanced s k b).0
  step-IsBalanced s (restores_volume k) p q r v b = (volume-IsBalanced s k b).1
  step-IsBalanced s (consumes room) p q r v b = consume-IsBalanced s room v b
  step-IsBalanced s (plays g a d k) p q r v b = (worker-IsBalanced s g a d k true (pos 0) b).0
  step-IsBalanced s (adds_pcm_frames g k) p q r v b = (worker-IsBalanced s g 0 0 k true (pos 0) b).1
  step-IsBalanced s (adds_rtp_packets g k) p q r v b =
      (worker-IsBalanced s g 0 0 k true (pos 0) b).2
  step-IsBalanced s (underruns g) p q r v b = (worker-IsBalanced s g 0 0 0 true (pos 0) b).3
  step-IsBalanced s (drained g empty) p q r v b = (worker-IsBalanced s g 0 0 0 empty (pos 0) b).4
  step-IsBalanced s (fails g error) p q r v b = (worker-IsBalanced s g 0 0 0 true error b).5
