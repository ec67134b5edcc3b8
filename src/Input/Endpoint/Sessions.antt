-- ===== src/Input/Endpoint/Sessions.antt =====
-- Generations: what separates one session of the writer from the next.
use canopus_module_bluetooth.Base.{
  ℕ, ◌<◌, ◌≡◌, ◌≢◌, refl, Bool, true, List, take, ◌++◌, [], arith, Result, ok, err, Bool-cases, inl,
  inr, ◌==◌, not, ◌&&◌, ◌||◌, if◌then◌else◌, ◌⊎◌,
}
use canopus_module_bluetooth.Base.Words.{u32_mod, wrapping_add}
use canopus_module_bluetooth.Base.Int.{pos}
use canopus_module_bluetooth.Input.Ring
use canopus_module_bluetooth.Input.Ring.Slots.{IsCapacity}
use canopus_module_bluetooth.Input.Ring.Queue.{
  IsValid, accepted, contents, write_lem, contents-write, reset-contents,
}
use canopus_module_bluetooth.Input.Endpoint.{
  AudioInput, FormatV1, InputError, open_input, close_input, state_closed, state_idle,
  state_draining, state_error, set_format, stop, flush, write, write_between, pipe, again, io,
  is_nil, state_configured, state_stopped,
}

-- What a session boundary leaves: another generation, nothing pending, no error, and the state
-- `next`.
pub record IsFresh (n next : ℕ) (before after : AudioInput) : Type 0 where
  pub moved : after.generation ≢ before.generation
  pub emptied : contents n after.ring ≡ []
  pub ring_valid : IsValid n after.ring
  pub error_cleared : after.last_error ≡ pos 0
  pub entered : after.state ≡ next

abbrev pub Boundary : ℕ → ℕ → AudioInput → Result InputError (Unit {0}) × AudioInput → Type 0
Boundary n next s r = ((r.0 ≡ ok tt) × IsFresh n next s r.1) ⊎ ((e : InputError) × (r.0 ≡ err e))

boundary :
    (n next : ℕ) (s : AudioInput) (r : Result InputError (Unit {0}) × AudioInput)
    → (r.0 ≡ ok tt → IsFresh n next s r.1)
    → Boundary n next s r
boundary n next s (ok tt, s') h = inl (refl, h refl)
boundary n next s (err e, s') h = inr (e, refl)

module _ (n : ℕ) (c : IsCapacity n) (s : AudioInput) (v : IsValid n s.ring)
    (g : s.generation < u32_mod) where
  open-IsFresh : (open_input n s).0 ≡ ok tt → IsFresh n state_idle s (open_input n s).1
  unfolding open_input
  open-IsFresh h = ground (arith, reset-contents n c s.ring v)

  close-IsFresh : (close_input n s).0 ≡ ok tt → IsFresh n state_closed s (close_input n s).1
  unfolding close_input
  close-IsFresh h = ground (arith, reset-contents n c s.ring v)

  set_format-IsFresh :
      (f : FormatV1)
      → (set_format n f s).0 ≡ ok tt
      → IsFresh n state_configured s (set_format n f s).1
  unfolding set_format
  set_format-IsFresh f h = ground (arith, reset-contents n c s.ring v)

  stop-IsFresh : (stop n s).0 ≡ ok tt → IsFresh n state_stopped s (stop n s).1
  unfolding stop
  stop-IsFresh h = ground (arith, reset-contents n c s.ring v)

  flush-IsFresh : (flush n s).0 ≡ ok tt → IsFresh n state_configured s (flush n s).1
  unfolding flush
  flush-IsFresh h = ground (arith, reset-contents n c s.ring v)

  -- Whatever `open`, `close`, `set_format`, `stop` or `flush` answers, on a valid ring and a u32
  -- generation: Ok, with another generation, an empty valid ring, no last error and the state that
  -- it enters (idle, closed, configured, stopped, configured), or an error.
  pub boundaries_are_fresh :
      (f : FormatV1)
      → Boundary n state_idle s (open_input n s)
        × Boundary n state_closed s (close_input n s)
        × Boundary n state_configured s (set_format n f s)
        × Boundary n state_stopped s (stop n s)
        × Boundary n state_configured s (flush n s)
  boundaries_are_fresh f = (
    boundary n state_idle s (open_input n s) open-IsFresh,
    boundary n state_closed s (close_input n s) close-IsFresh,
    boundary n state_configured s (set_format n f s) (set_format-IsFresh f),
    boundary n state_stopped s (stop n s) stop-IsFresh,
    boundary n state_configured s (flush n s) flush-IsFresh,
  )

-- The conditions under which `write` reaches the ring.
pub record IsWritable (s : AudioInput) : Type 0 where
  pub is_open : s.opened ≡ true
  pub has_format : s.format ≢ 0
  pub not_draining : s.state ≢ state_draining
  pub not_closed : s.state ≢ state_closed
  pub not_idle : s.state ≢ state_idle
  pub not_failed : s.state ≢ state_error

-- The endpoint at the writer's last check of the generation: `before` runs between its first check
-- and its ring write, `after` between that and the last check.
abbrev pub at_last_check :
    ℕ → (AudioInput → AudioInput) → (AudioInput → AudioInput) → List ℕ → AudioInput → AudioInput
at_last_check n before after input s =
    after (record (before s) { ring = (Ring.write n input (before s).ring).1 })

-- A writable endpoint's writer that finds another generation at its last check, over a valid ring,
-- is told Pipe; the ring is empty afterwards, the bytes that the writer may have put there gone,
-- and it leaves the generation and the count of accepted bytes as it found them.
pub interrupted_write :
    (n : ℕ) (before after : AudioInput → AudioInput) (input : List ℕ) (s : AudioInput)
    → IsCapacity n
    → IsWritable s
    → (at_last_check n before after input s).generation ≢ s.generation
    → IsValid n (at_last_check n before after input s).ring
    → let (result, s3) = write_between n before after input s in
      let s2 = at_last_check n before after input s in
      (result ≡ err pipe)
      × (contents n s3.ring ≡ [])
      × (s3.generation ≡ s2.generation)
      × (s3.bytes_accepted ≡ s2.bytes_accepted)
unfolding write_between
interrupted_write n before after input s c w moved v = ground (
  arith,
  w.is_open,
  w.has_format,
  w.not_draining,
  w.not_closed,
  w.not_idle,
  w.not_failed,
  moved,
  reset-contents n c (at_last_check n before after input s).ring v,
)

abbrev blocked : AudioInput → Bool
blocked s =
    not s.opened
    || s.format == 0
    || s.state == state_draining
    || s.state == state_closed
    || s.state == state_idle
    || s.state == state_error

IsWritable-or_blocked : (s : AudioInput) → IsWritable s ⊎ (blocked s ≡ true)
IsWritable-or_blocked s = elim (Bool-cases (blocked s)) [
  | inl e ↦ inr e
  | inr e ↦ inl (record {
    is_open = ground arith;
    has_format = ground arith;
    not_draining = ground arith;
    not_closed = ground arith;
    not_idle = ground arith;
    not_failed = ground arith;
  })
]

blocked-write :
    (n : ℕ) (input : List ℕ) (s : AudioInput)
    → blocked s ≡ true
    → ((write n input s).1 ≡ s)
      × (((write n input s).0 ≡ err pipe)
          ⊎ (((write n input s).0 ≡ err io) × (s.state ≡ state_error)))
unfolding write
blocked-write n input s h = ground arith

writable_write :
    (n : ℕ) (input : List ℕ) (s : AudioInput)
    → IsCapacity n
    → IsValid n s.ring
    → s.bytes_accepted < u32_mod
    → IsWritable s
    → let k = accepted n input s.ring in
      let (result, s') = write n input s in
      (s'.ring ≡ (Ring.write n input s.ring).1)
      × (result ≡ (if k == 0 && not (is_nil input) then err again else ok k))
      × (s'.bytes_accepted ≡ wrapping_add s.bytes_accepted k)
      × (s'.bytes_consumed ≡ s.bytes_consumed)
unfolding write
writable_write n input s c v b w = rw (write_lem n c s.ring v input) (
    ground (arith, w.is_open, w.has_format, w.not_draining, w.not_closed, w.not_idle, w.not_failed))

-- With nobody interfering, a writable endpoint appends what fits of the input to the ring, counts
-- it in the accepted bytes alone, and returns that count, or Again where nothing fits of an input
-- that is not empty. An endpoint that is not writable is left as it is, and the answer is Pipe or,
-- in the error state, Io. The ring is valid and the count of accepted bytes a u32.
pub write_outcome :
    (n : ℕ) (input : List ℕ) (s : AudioInput)
    → IsCapacity n
    → IsValid n s.ring
    → s.bytes_accepted < u32_mod
    → let k = accepted n input s.ring in
      let (result, s') = write n input s in
      (IsWritable s
        × (contents n s'.ring ≡ contents n s.ring ++ take k input)
        × (result ≡ (if k == 0 && not (is_nil input) then err again else ok k))
        × (s'.bytes_accepted ≡ wrapping_add s.bytes_accepted k)
        × (s'.bytes_consumed ≡ s.bytes_consumed))
      ⊎ (¬ IsWritable s
          × (s' ≡ s)
          × ((result ≡ err pipe) ⊎ ((result ≡ err io) × (s.state ≡ state_error))))
write_outcome n input s c v b = elim (IsWritable-or_blocked s) [
  | inl w ↦
      let (ring, result, count, kept) = writable_write n input s c v b w in
      inl (w, rw ring (contents-write n c s.ring v input), result, count, kept)
  | inr h ↦
      let (same, result) = blocked-write n input s h in
      inr (
        λ w. ground (
          arith, w.is_open, w.has_format, w.not_draining, w.not_closed, w.not_idle, w.not_failed,
        ),
        same,
        result,
      )
]
