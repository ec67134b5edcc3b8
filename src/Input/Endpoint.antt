-- ===== src/Input/Endpoint.antt =====
-- `AudioInput<N>`: the endpoint's atomics are the fields of a record, and each method is a function
-- of it. `ControlGuard` is `with_control`, which takes the lock, runs the body and drops the lock
-- on every path.
pub mod Worker
pub mod Status
pub mod Soundness
pub mod Sessions
pub mod Balance
pub mod Late
use canopus_module_bluetooth.Base.{
  ℕ, ◌+◌, ◌-◌, ◌<◌, Bool, true, false, not, ◌&&◌, ◌||◌, List, [], ◌∷◌, ◌==◌, leb, ltb,
  if◌then◌else◌, Result, ok, err, Method, ◌>>=◌, ◌>>◌, pure, fail, update, then_on_ok, length,
}
use canopus_module_bluetooth.Base.Words.{wrapping_add, u32_mod}
use canopus_module_bluetooth.Base.Int.{ℤ, pos, negsuc}
use canopus_module_bluetooth.Input.Ring.{InputRing}
use canopus_module_bluetooth.Input.Ring

abbrev pub format_mp3 : ℕ
format_mp3 = 1

abbrev pub volume_default : ℕ
volume_default = 100

abbrev pub volume_max : ℕ
volume_max = 100

abbrev pub state_closed : ℕ
state_closed = 0

abbrev pub state_idle : ℕ
state_idle = 1

abbrev pub state_configured : ℕ
state_configured = 2

abbrev pub state_buffering : ℕ
state_buffering = 3

abbrev pub state_playing : ℕ
state_playing = 4

abbrev pub state_paused : ℕ
state_paused = 5

abbrev pub state_draining : ℕ
state_draining = 6

abbrev pub state_stopped : ℕ
state_stopped = 7

abbrev pub state_error : ℕ
state_error = 8

pub data InputError : Type 0 where
  busy invalid again pipe io : InputError

unfoldable pub errno : InputError → ℤ
errno busy = negsuc 15
errno invalid = negsuc 21
errno again = negsuc 10
errno pipe = negsuc 31
errno io = negsuc 4

-- `FormatV1`; `size_of::<FormatV1>()` is eight u32 fields, 32 bytes.
pub record FormatV1 : Type 0 where
  pub struct_size : ℕ
  pub format : ℕ
  pub sample_rate_hint : ℕ
  pub channels_hint : ℕ
  pub flags : ℕ
  pub reserved : ℕ × ℕ × ℕ

abbrev pub format_size : ℕ
format_size = 32

pub record AudioInput : Type 0 where
  pub ring : InputRing
  pub opened : Bool
  pub control_lock : Bool
  pub state : ℕ
  pub format : ℕ
  pub sample_rate_hint : ℕ
  pub channels_hint : ℕ
  pub last_error : ℤ
  pub generation : ℕ
  pub decoded_sample_rate : ℕ
  pub decoded_channels : ℕ
  pub negotiated_bitpool : ℕ
  pub bytes_accepted : ℕ
  pub bytes_consumed : ℕ
  pub pcm_frames : ℕ
  pub rtp_packets : ℕ
  pub underruns : ℕ
  pub volume_percent : ℕ

abbrev pub new : AudioInput
new = record {
  ring = Ring.new;
  opened = false;
  control_lock = false;
  state = state_closed;
  format = 0;
  sample_rate_hint = 0;
  channels_hint = 0;
  last_error = pos 0;
  generation = 1;
  decoded_sample_rate = 0;
  decoded_channels = 0;
  negotiated_bitpool = 0;
  bytes_accepted = 0;
  bytes_consumed = 0;
  pcm_frames = 0;
  rtp_packets = 0;
  underruns = 0;
  volume_percent = volume_default;
}

-- Dropping the guard stores `false` into the lock, whatever the body returned.
abbrev pub drop_guard :
    {A : Type 0} → Result InputError A × AudioInput → Result InputError A × AudioInput
drop_guard (r, s) = (r, record s { control_lock = false })

abbrev pub with_control :
    {A : Type 0} → Method AudioInput InputError A → Method AudioInput InputError A
with_control body s =
    if s.control_lock then (err busy, s) else drop_guard (body (record s { control_lock = true }))

unfoldable pub reset_counters : AudioInput → AudioInput
reset_counters s = record s {
  bytes_accepted = 0;
  bytes_consumed = 0;
  pcm_frames = 0;
  rtp_packets = 0;
  underruns = 0;
}

unfoldable pub invalidate_and_reset : ℕ → ℕ → AudioInput → AudioInput
invalidate_and_reset n next_state s = record s {
  generation = wrapping_add s.generation 1;
  ring = Ring.reset n s.ring;
  last_error = pos 0;
  decoded_sample_rate = 0;
  decoded_channels = 0;
  negotiated_bitpool = 0;
  state = next_state;
}

abbrev clear_format : AudioInput → AudioInput
clear_format s = record s { format = 0; sample_rate_hint = 0; channels_hint = 0 }

-- `opened` is taken first, and given back where the lock is held.
unfoldable pub open_input : ℕ → Method AudioInput InputError (Unit {0})
unfolding reset_counters invalidate_and_reset
open_input n s = if s.opened then (err busy, s) else if s.control_lock then (err busy, s) else (
  ok tt,
  invalidate_and_reset n state_idle (reset_counters (clear_format (record s { opened = true }))),
)

unfoldable pub close_input : ℕ → Method AudioInput InputError (Unit {0})
unfolding invalidate_and_reset
close_input n =
    with_control
      λ s. (ok tt, record (clear_format (invalidate_and_reset n state_closed s)) { opened = false })

abbrev rejects_format : AudioInput → FormatV1 → Bool
rejects_format s f =
    not s.opened
    || not (f.struct_size == format_size)
    || not (f.format == format_mp3)
    || not (f.channels_hint == 0) && not (f.channels_hint == 1) && not (f.channels_hint == 2)
    || not (f.flags == 0)
    || not ((f.reserved).0 == 0 && (f.reserved).1 == 0 && (f.reserved).2 == 0)

unfoldable pub set_format : ℕ → FormatV1 → Method AudioInput InputError (Unit {0})
unfolding reset_counters invalidate_and_reset
set_format n f = with_control λ s.
    if rejects_format s f
    then (err invalid, s)
    else if not (s.state == state_idle)
        && not (s.state == state_configured)
        && not (s.state == state_stopped)
    then (err busy, s)
    else (
      ok tt,
      record (invalidate_and_reset n state_configured (reset_counters s)) {
        format = f.format;
        sample_rate_hint = f.sample_rate_hint;
        channels_hint = f.channels_hint;
      },
    )

unfoldable pub start : Method AudioInput InputError (Unit {0})
start = with_control λ s.
    if not (s.format == format_mp3)
      || not (s.state == state_configured) && not (s.state == state_stopped)
    then (err invalid, s)
    else (
      ok tt,
      record s {
        generation = wrapping_add s.generation 1;
        last_error = pos 0;
        decoded_sample_rate = 0;
        decoded_channels = 0;
        negotiated_bitpool = 0;
        state = state_buffering;
      },
    )

unfoldable pub pause : Method AudioInput InputError (Unit {0})
pause = with_control λ s.
    if not (s.state == state_buffering) && not (s.state == state_playing)
    then (err invalid, s)
    else (ok tt, record s { state = state_paused })

unfoldable pub resume : Method AudioInput InputError (Unit {0})
resume = with_control λ s.
    if not (s.state == state_paused)
    then (err invalid, s)
    else (ok tt, record s { state = state_buffering })

unfoldable pub stop : ℕ → Method AudioInput InputError (Unit {0})
unfolding invalidate_and_reset
stop n =
    with_control
      λ s. if not s.opened then (err pipe, s) else (ok tt, invalidate_and_reset n state_stopped s)

unfoldable pub flush : ℕ → Method AudioInput InputError (Unit {0})
unfolding invalidate_and_reset
flush n =
    with_control λ s.
      if s.format == 0 then (err pipe, s) else (ok tt, invalidate_and_reset n state_configured s)

unfoldable pub drain : Method AudioInput InputError (Unit {0})
drain = with_control λ s.
    if not (s.state == state_buffering)
      && not (s.state == state_playing)
      && not (s.state == state_paused)
    then (err invalid, s)
    else (ok tt, record s { state = state_draining })

abbrev pub is_nil : List ℕ → Bool
is_nil [] = true
is_nil (x ∷ xs) = false

-- The end of `write`, once the ring has answered: the generation is read again.
abbrev finish_write : ℕ → ℕ → List ℕ → ℕ → Method AudioInput InputError ℕ
finish_write n generation input count s =
    if not (s.generation == generation)
    then (err pipe, record s { ring = Ring.reset n s.ring })
    else if count == 0 && not (is_nil input)
    then (err again, s)
    else (ok count, record s { bytes_accepted = wrapping_add s.bytes_accepted count })

-- `write`, with what other threads do to the endpoint between its first check and the ring's
-- write (`before`), and between that and the second look at the generation (`after`).
unfoldable pub write_between :
    ℕ
    → (AudioInput → AudioInput)
    → (AudioInput → AudioInput)
    → List ℕ
    → Method AudioInput InputError ℕ
write_between n before after input s =
    if not s.opened || s.format == 0
    then (err pipe, s)
    else if s.state == state_draining || s.state == state_closed || s.state == state_idle
    then (err pipe, s)
    else if s.state == state_error
    then (err io, s)
    else let s1 = before s in
      let (count, ring) = Ring.write n input s1.ring in
      finish_write n s.generation input count (after (record s1 { ring = ring }))

unfoldable pub write : ℕ → List ℕ → Method AudioInput InputError ℕ
unfolding write_between
write n = write_between n (λ s. s) (λ s. s)

unfoldable pub set_volume : ℕ → Method AudioInput InputError (Unit {0})
set_volume volume_percent s =
    if not s.opened || ltb volume_max volume_percent
    then (err invalid, s)
    else (ok tt, record s { volume_percent = volume_percent })

unfoldable pub restore_volume : ℕ → Method AudioInput InputError (Unit {0})
restore_volume volume_percent s =
    if ltb volume_max volume_percent
    then (err invalid, s)
    else (ok tt, record s { volume_percent = volume_percent })
