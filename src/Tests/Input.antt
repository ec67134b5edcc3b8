-- ===== src/Tests/Input.antt =====
-- The ring with a capacity of four, its cursors about to wrap, and an endpoint over it.
use canopus_module_bluetooth.Base.{
  ◌≡◌, ◌≢◌, ◌⊎◌, refl, true, List, [], ◌∷◌, ◌++◌, take, drop, arith, ok, err, if◌then◌else◌, ◌&&◌,
  not, ◌==◌,
}
use canopus_module_bluetooth.Base.Words.{wrapping_add}
use canopus_module_bluetooth.Base.Int.{pos}
use canopus_module_bluetooth.Input.Ring.{
  InputRing, write, read, claim_write, claim_read, commit_write, commit_read,
}
use canopus_module_bluetooth.Input.Ring.Slots.{IsCapacity}
use canopus_module_bluetooth.Input.Ring.Queue.{
  IsValid, contents, accepted, delivered, contents-write, read-contents,
}
use canopus_module_bluetooth.Input.Ring.Stream.{
  Transfer, writes, reads, run, sent, received, stream_conserved,
}
use canopus_module_bluetooth.Input.Ring.Races.{resets, stale_claims_lost, write_around_read}
use canopus_module_bluetooth.Input.Endpoint
use canopus_module_bluetooth.Input.Endpoint.{
  AudioInput, FormatV1, InputError, open_input, close_input, set_format, stop, flush, write_between,
  is_nil, again, io, pipe, state_error, state_idle, state_closed, state_configured, state_stopped,
}
use canopus_module_bluetooth.Input.Endpoint.Soundness
use canopus_module_bluetooth.Input.Endpoint.Soundness.{
  IsSound, endpoint-IsSound, step, Call, opens, starts, adds_pcm_frames, drained, fails,
  sets_format, consumes, closes, flushes,
}
use canopus_module_bluetooth.Input.Endpoint.Sessions.{
  Boundary, boundaries_are_fresh, IsWritable, at_last_check, interrupted_write, write_outcome,
}
use canopus_module_bluetooth.Input.Endpoint.Balance.{IsBalanced, step-IsBalanced}

four-IsCapacity : IsCapacity 4
four-IsCapacity = record { positive = omega arith; fits = omega arith; divides = refl }

abbrev wrapping_ring : InputRing
wrapping_ring = record { bytes = λ _. 7; head = 0; tail = 4294967294 }

wrapping_ring-IsValid : IsValid 4 wrapping_ring
wrapping_ring-IsValid = record {
  head_u32 = omega arith;
  tail_u32 = omega arith;
  bounded = omega arith;
}

abbrev history : List Transfer
history = writes (1 ∷ 2 ∷ 3 ∷ []) ∷ reads 3 ∷ writes (4 ∷ []) ∷ reads 8 ∷ []

stream_conserved_example :
    contents 4 wrapping_ring ++ sent 4 wrapping_ring history
    ≡ received 4 wrapping_ring history ++ contents 4 (run 4 wrapping_ring history)
stream_conserved_example =
    stream_conserved 4 four-IsCapacity wrapping_ring history wrapping_ring-IsValid

contents-write_example :
    contents 4 (write 4 (1 ∷ 2 ∷ 3 ∷ []) wrapping_ring).1
    ≡ contents 4 wrapping_ring ++ take (accepted 4 (1 ∷ 2 ∷ 3 ∷ []) wrapping_ring) (1 ∷ 2 ∷ 3 ∷ [])
contents-write_example =
    contents-write 4 four-IsCapacity wrapping_ring wrapping_ring-IsValid (1 ∷ 2 ∷ 3 ∷ [])

read-contents_example :
    ((read 4 1 wrapping_ring).0 ≡ take (delivered 4 1 wrapping_ring) (contents 4 wrapping_ring))
    × ((read 4 1 wrapping_ring).1 ≡ delivered 4 1 wrapping_ring)
    × (contents 4 (read 4 1 wrapping_ring).2
        ≡ drop (delivered 4 1 wrapping_ring) (contents 4 wrapping_ring))
    × IsValid 4 (read 4 1 wrapping_ring).2
read-contents_example = read-contents 4 four-IsCapacity wrapping_ring wrapping_ring-IsValid 1

stale_claims_lost_example :
    let (w, r') = claim_write 4 (1 ∷ []) wrapping_ring in
    let after = resets 2 4 r' in
    let reader = (claim_read 4 8 wrapping_ring).0 in
    (commit_write w after ≡ (0, after))
    × (commit_read reader after ≡ (0, after))
    × (contents 4 after ≡ [])
stale_claims_lost_example =
    stale_claims_lost 4 four-IsCapacity wrapping_ring wrapping_ring-IsValid 1 (1 ∷ []) 8
      (omega arith)

write_around_read_example :
    let (w, r1) = claim_write 4 (1 ∷ 2 ∷ 3 ∷ []) wrapping_ring in
    let (out, count, r2) = read 4 1 r1 in
    let (written, r3) = commit_write w r2 in
    (out ≡ take (delivered 4 1 wrapping_ring) (contents 4 wrapping_ring))
    × (count ≡ delivered 4 1 wrapping_ring)
    × (written ≡ accepted 4 (1 ∷ 2 ∷ 3 ∷ []) wrapping_ring)
    × (contents 4 r3
        ≡ drop (delivered 4 1 wrapping_ring) (contents 4 wrapping_ring)
          ++ take (accepted 4 (1 ∷ 2 ∷ 3 ∷ []) wrapping_ring) (1 ∷ 2 ∷ 3 ∷ []))
    × IsValid 4 r3
write_around_read_example =
    write_around_read 4 four-IsCapacity wrapping_ring wrapping_ring-IsValid (1 ∷ 2 ∷ 3 ∷ []) 1

-- Opened and configured, with two pending bytes.
abbrev endpoint : AudioInput
endpoint = record Endpoint.new {
  ring = wrapping_ring;
  opened = true;
  state = state_configured;
  format = 1;
  generation = 5;
  bytes_accepted = 2;
}

endpoint-IsWritable : IsWritable endpoint
endpoint-IsWritable = record {
  is_open = refl;
  has_format = omega arith;
  not_draining = omega arith;
  not_closed = omega arith;
  not_idle = omega arith;
  not_failed = omega arith;
}

abbrev mp3_format : FormatV1
mp3_format = record {
  struct_size = 32;
  format = 1;
  sample_rate_hint = 44100;
  channels_hint = 2;
  flags = 0;
  reserved = (0, 0, 0);
}

endpoint-IsSound_example : IsSound 4 (
    Soundness.run 4 Endpoint.new
      (opens ∷ sets_format mp3_format ∷ Soundness.writes (1 ∷ 2 ∷ []) ∷ consumes 1 ∷ []))
endpoint-IsSound_example =
    endpoint-IsSound 4 four-IsCapacity
      (opens ∷ sets_format mp3_format ∷ Soundness.writes (1 ∷ 2 ∷ []) ∷ consumes 1 ∷ [])

-- A stop, then a new session into which the old one's work still reaches.
abbrev new_session : List Call
new_session =
    fails endpoint.generation (pos 3)
    ∷ starts
    ∷ adds_pcm_frames endpoint.generation 1152
    ∷ Soundness.writes (1 ∷ 2 ∷ [])
    ∷ drained endpoint.generation true
    ∷ []

boundaries_are_fresh_example :
    Boundary 4 state_idle endpoint (open_input 4 endpoint)
    × Boundary 4 state_closed endpoint (close_input 4 endpoint)
    × Boundary 4 state_configured endpoint (set_format 4 mp3_format endpoint)
    × Boundary 4 state_stopped endpoint (stop 4 endpoint)
    × Boundary 4 state_configured endpoint (flush 4 endpoint)
boundaries_are_fresh_example =
    boundaries_are_fresh 4 four-IsCapacity endpoint wrapping_ring-IsValid (omega arith) mp3_format

-- A `stop` between the writer's first check and its ring write.
abbrev stopped_first : AudioInput → AudioInput
stopped_first s = (stop 4 s).1

moved :
    (at_last_check 4 stopped_first (λ s. s) (1 ∷ 2 ∷ []) endpoint).generation ≢ endpoint.generation
unfolding stop write
moved = λ e. omega arith

still-IsValid : IsValid 4 (at_last_check 4 stopped_first (λ s. s) (1 ∷ 2 ∷ []) endpoint).ring
unfolding stop write canopus_module_bluetooth.Input.Ring.reset
still-IsValid = record { head_u32 = omega arith; tail_u32 = omega arith; bounded = omega arith }

interrupted_write_example :
    let (result, s3) = write_between 4 stopped_first (λ s. s) (1 ∷ 2 ∷ []) endpoint in
    let s2 = at_last_check 4 stopped_first (λ s. s) (1 ∷ 2 ∷ []) endpoint in
    (result ≡ err pipe)
    × (contents 4 s3.ring ≡ [])
    × (s3.generation ≡ s2.generation)
    × (s3.bytes_accepted ≡ s2.bytes_accepted)
interrupted_write_example =
    interrupted_write 4 stopped_first (λ s. s) (1 ∷ 2 ∷ []) endpoint four-IsCapacity
      endpoint-IsWritable moved still-IsValid

write_outcome_example :
    let k = accepted 4 (1 ∷ 2 ∷ 3 ∷ []) wrapping_ring in
    let (result, s') = Endpoint.write 4 (1 ∷ 2 ∷ 3 ∷ []) endpoint in
    (IsWritable endpoint
      × (contents 4 s'.ring ≡ contents 4 wrapping_ring ++ take k (1 ∷ 2 ∷ 3 ∷ []))
      × (result ≡ (if k == 0 && not (is_nil (1 ∷ 2 ∷ 3 ∷ [])) then err again else ok k))
      × (s'.bytes_accepted ≡ wrapping_add 2 k)
      × (s'.bytes_consumed ≡ 0))
    ⊎ (¬ IsWritable endpoint
        × (s' ≡ endpoint)
        × ((result ≡ err pipe) ⊎ ((result ≡ err io) × (endpoint.state ≡ state_error))))
write_outcome_example =
    write_outcome 4 (1 ∷ 2 ∷ 3 ∷ []) endpoint four-IsCapacity wrapping_ring-IsValid (omega arith)

endpoint-IsBalanced : IsBalanced 4 endpoint
unfolding contents canopus_module_bluetooth.Input.Ring.copy_out
endpoint-IsBalanced = record { accepted_u32 = omega arith; even = refl }

step-IsBalanced_example : IsBalanced 4 (step 4 endpoint (consumes 1))
step-IsBalanced_example =
    step-IsBalanced 4 four-IsCapacity endpoint (consumes 1) (λ e. cc) (λ e. cc) (λ e. cc)
      wrapping_ring-IsValid endpoint-IsBalanced
