-- ===== src/Input/Endpoint/Soundness.antt =====
-- What holds of the endpoint after any sequence of calls from both sides.
use canopus_module_bluetooth.Base.{ℕ, ◌≤◌, ◌<◌, ◌≡◌, refl, Bool, false, List, [], ◌∷◌, arith}
use canopus_module_bluetooth.Base.Words.{u32_mod}
use canopus_module_bluetooth.Base.Int.{ℤ}
use canopus_module_bluetooth.Input.Ring
use canopus_module_bluetooth.Input.Ring.Slots.{IsCapacity}
use canopus_module_bluetooth.Input.Ring.Queue.{
  IsValid, write-IsValid, read-contents, reset-contents,
}
use canopus_module_bluetooth.Input.Endpoint.{
  AudioInput, FormatV1, new, open_input, close_input, set_format, start, pause, resume, stop, flush,
  drain, write, set_volume, restore_volume,
}
use canopus_module_bluetooth.Input.Endpoint.Worker.{
  consume, mark_playing, add_pcm_frames, add_rtp_packets, mark_underrun, mark_drained, fail_input,
}

pub data Call : Type 0 where
  opens closes starts pauses resumes stops flushes drains : Call
  sets_format : FormatV1 → Call
  writes : List ℕ → Call
  sets_volume restores_volume consumes : ℕ → Call
  plays : ℕ → ℕ → ℕ → ℕ → Call
  adds_pcm_frames adds_rtp_packets : ℕ → ℕ → Call
  underruns : ℕ → Call
  drained : ℕ → Bool → Call
  fails : ℕ → ℤ → Call

abbrev pub step : ℕ → AudioInput → Call → AudioInput
step n s opens = (open_input n s).1
step n s closes = (close_input n s).1
step n s starts = (start s).1
step n s pauses = (pause s).1
step n s resumes = (resume s).1
step n s stops = (stop n s).1
step n s flushes = (flush n s).1
step n s drains = (drain s).1
step n s (sets_format f) = (set_format n f s).1
step n s (writes input) = (write n input s).1
step n s (sets_volume v) = (set_volume v s).1
step n s (restores_volume v) = (restore_volume v s).1
step n s (consumes room) = (consume n room s).2
step n s (plays g rate channels bitpool) = (mark_playing g rate channels bitpool s).1
step n s (adds_pcm_frames g k) = add_pcm_frames g k s
step n s (adds_rtp_packets g k) = add_rtp_packets g k s
step n s (underruns g) = mark_underrun g s
step n s (drained g empty) = mark_drained n g empty s
step n s (fails g error) = fail_input g error s

abbrev pub run : ℕ → AudioInput → List Call → AudioInput
run n s [] = s
run n s (c ∷ cs) = run n (step n s c) cs

-- The state is one of the nine, the format none or MP3 and none while closed, the volume a
-- percentage, the lock free, the generation a u32 and the ring's cursors in order.
pub record IsSound (n : ℕ) (s : AudioInput) : Type 0 where
  pub ring_valid : IsValid n s.ring
  pub state_known : s.state ≤ 8
  pub format_known : s.format ≤ 1
  pub closed_formatless : s.opened ≡ false → s.format ≡ 0
  pub volume_percentage : s.volume_percent ≤ 100
  pub unlocked : s.control_lock ≡ false
  pub generation_u32 : s.generation < u32_mod

module _ (n : ℕ) (c : IsCapacity n) where
  new-IsSound : IsSound n new
  new-IsSound = record {
    ring_valid = omega arith;
    state_known = omega arith;
    format_known = omega arith;
    closed_formatless = λ e. refl;
    volume_percentage = omega arith;
    unlocked = refl;
    generation_u32 = omega arith;
  }

  open-IsSound : (s : AudioInput) → IsSound n s → IsSound n (open_input n s).1
  unfolding open_input
  open-IsSound s v = ground (arith, reset-contents n c s.ring v.ring_valid)

  close-IsSound : (s : AudioInput) → IsSound n s → IsSound n (close_input n s).1
  unfolding close_input
  close-IsSound s v = ground (arith, reset-contents n c s.ring v.ring_valid)

  set_format-IsSound :
      (s : AudioInput) (f : FormatV1) → IsSound n s → IsSound n (set_format n f s).1
  unfolding set_format
  set_format-IsSound s f v = ground (arith, reset-contents n c s.ring v.ring_valid)

  start-IsSound : (s : AudioInput) → IsSound n s → IsSound n (start s).1
  unfolding start
  start-IsSound s v = ground (arith, v.closed_formatless)

  pause-IsSound : (s : AudioInput) → IsSound n s → IsSound n (pause s).1
  unfolding pause
  pause-IsSound s v = ground (arith, v.closed_formatless)

  resume-IsSound : (s : AudioInput) → IsSound n s → IsSound n (resume s).1
  unfolding resume
  resume-IsSound s v = ground (arith, v.closed_formatless)

  stop-IsSound : (s : AudioInput) → IsSound n s → IsSound n (stop n s).1
  unfolding stop
  stop-IsSound s v = ground (arith, v.closed_formatless, reset-contents n c s.ring v.ring_valid)

  flush-IsSound : (s : AudioInput) → IsSound n s → IsSound n (flush n s).1
  unfolding flush
  flush-IsSound s v = ground (arith, v.closed_formatless, reset-contents n c s.ring v.ring_valid)

  drain-IsSound : (s : AudioInput) → IsSound n s → IsSound n (drain s).1
  unfolding drain
  drain-IsSound s v = ground (arith, v.closed_formatless)

  write-IsSound : (s : AudioInput) (input : List ℕ) → IsSound n s → IsSound n (write n input s).1
  unfolding write
  write-IsSound s input v =
      let ring = write-IsValid n c s.ring v.ring_valid input in
      ground
        (arith, v.closed_formatless, ring, reset-contents n c (Ring.write n input s.ring).1 ring)

  set_volume-IsSound : (s : AudioInput) (p : ℕ) → IsSound n s → IsSound n (set_volume p s).1
  unfolding set_volume
  set_volume-IsSound s p v = ground (arith, v.closed_formatless)

  restore_volume-IsSound : (s : AudioInput) (p : ℕ) → IsSound n s → IsSound n (restore_volume p s).1
  unfolding restore_volume
  restore_volume-IsSound s p v = ground (arith, v.closed_formatless)

  consume-IsSound : (s : AudioInput) (room : ℕ) → IsSound n s → IsSound n (consume n room s).2
  unfolding consume
  consume-IsSound s room v =
      ground (arith, v.closed_formatless, read-contents n c s.ring v.ring_valid room)

  mark_playing-IsSound :
      (s : AudioInput) (g rate channels bitpool : ℕ)
      → IsSound n s
      → IsSound n (mark_playing g rate channels bitpool s).1
  unfolding mark_playing
  mark_playing-IsSound s g rate channels bitpool v = ground (arith, v.closed_formatless)

  mark_underrun-IsSound : (s : AudioInput) (g : ℕ) → IsSound n s → IsSound n (mark_underrun g s)
  unfolding mark_underrun
  mark_underrun-IsSound s g v = ground (arith, v.closed_formatless)

  counters-IsSound :
      (s : AudioInput) (g k : ℕ)
      → IsSound n s
      → IsSound n (add_pcm_frames g k s) × IsSound n (add_rtp_packets g k s)
  unfolding add_pcm_frames add_rtp_packets
  counters-IsSound s g k v =
      (ground (arith, v.closed_formatless), ground (arith, v.closed_formatless))

  mark_drained-IsSound :
      (s : AudioInput) (g : ℕ) (empty : Bool) → IsSound n s → IsSound n (mark_drained n g empty s)
  unfolding mark_drained
  mark_drained-IsSound s g empty v = ground (arith, v.closed_formatless)

  fail_input-IsSound :
      (s : AudioInput) (g : ℕ) (error : ℤ) → IsSound n s → IsSound n (fail_input g error s)
  unfolding fail_input
  fail_input-IsSound s g error v = ground (arith, v.closed_formatless)

  pub step-IsSound : (s : AudioInput) (call : Call) → IsSound n s → IsSound n (step n s call)
  step-IsSound s opens v = open-IsSound s v
  step-IsSound s closes v = close-IsSound s v
  step-IsSound s starts v = start-IsSound s v
  step-IsSound s pauses v = pause-IsSound s v
  step-IsSound s resumes v = resume-IsSound s v
  step-IsSound s stops v = stop-IsSound s v
  step-IsSound s flushes v = flush-IsSound s v
  step-IsSound s drains v = drain-IsSound s v
  step-IsSound s (sets_format f) v = set_format-IsSound s f v
  step-IsSound s (writes input) v = write-IsSound s input v
  step-IsSound s (sets_volume p) v = set_volume-IsSound s p v
  step-IsSound s (restores_volume p) v = restore_volume-IsSound s p v
  step-IsSound s (consumes room) v = consume-IsSound s room v
  step-IsSound s (plays g rate channels bitpool) v =
      mark_playing-IsSound s g rate channels bitpool v
  step-IsSound s (adds_pcm_frames g k) v = (counters-IsSound s g k v).0
  step-IsSound s (adds_rtp_packets g k) v = (counters-IsSound s g k v).1
  step-IsSound s (underruns g) v = mark_underrun-IsSound s g v
  step-IsSound s (drained g empty) v = mark_drained-IsSound s g empty v
  step-IsSound s (fails g error) v = fail_input-IsSound s g error v

  run-IsSound : (s : AudioInput) (cs : List Call) → IsSound n s → IsSound n (run n s cs)
  run-IsSound s [] v = v
  run-IsSound s (call ∷ cs) v = run-IsSound (step n s call) cs (step-IsSound s call v)

  -- After any sequence of calls from a new endpoint, made one after another, the endpoint is
  -- sound: `IsSound` holds of it.
  pub endpoint-IsSound : (cs : List Call) → IsSound n (run n new cs)
  endpoint-IsSound cs = run-IsSound new cs new-IsSound
