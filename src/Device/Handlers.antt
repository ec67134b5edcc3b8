-- ===== src/Device/Handlers.antt =====
-- The file operations of the character device (audio_device.rs), and the volume that its ioctl sets
-- (`set_absolute_volume` of transport.rs). `n` is the capacity of the input's ring. What the firmware does
-- with an AVRCP packet is the parameter `send`, and a null pointer is an argument that is none.
use canopus_module_bluetooth.Base.{
  ℕ, min, Bool, not, ◌||◌, List, take, length, ltb, ◌==◌, if◌then◌else◌, Result, ok, err, Option,
  none, some,
}
use canopus_module_bluetooth.Base.Int.{ℤ, pos, negsuc}
use canopus_module_bluetooth.Avrcp
use canopus_module_bluetooth.Avrcp.{Error, max_volume, percent_to_absolute, absolute_to_percent}
use canopus_module_bluetooth.Storage.Volume.{mark_target_pending}
use canopus_module_bluetooth.Input.Endpoint.{
  AudioInput, InputError, invalid, errno, FormatV1, open_input, close_input, set_format, start,
  pause, resume, stop, drain, flush, write, volume_max,
}
use canopus_module_bluetooth.Input.Endpoint.Status.{StatusV1, status, abi_version}
use canopus_module_bluetooth.Input.Endpoint.Worker.{fail_input}
use canopus_module_bluetooth.Device.Controls.{ControlEventV1, pop, clear, event_size}
use canopus_module_bluetooth.Device.Schedule.{
  Device, Firmware, Outcome, Scheduler, schedule_start, schedule_pause, schedule_resume,
  schedule_stop, schedule_drain, schedule_flush, schedule_close, schedule_wake,
}

abbrev pub avrcp_connected : ℕ
avrcp_connected = 2

abbrev pub err_avrcp_state : ℤ
err_avrcp_state = negsuc 1300

abbrev pub ioc_get_abi : ℕ
ioc_get_abi = 0x304

abbrev pub ioc_get_status : ℕ
ioc_get_status = 0x30f

abbrev pub ioc_get_volume : ℕ
ioc_get_volume = 0x311

abbrev pub ioc_set_format : ℕ
ioc_set_format = 0x305

abbrev pub ioc_start : ℕ
ioc_start = 0x306

abbrev pub ioc_pause : ℕ
ioc_pause = 0x307

abbrev pub ioc_resume : ℕ
ioc_resume = 0x308

abbrev pub ioc_stop : ℕ
ioc_stop = 0x309

abbrev pub ioc_drain : ℕ
ioc_drain = 0x30d

abbrev pub ioc_flush : ℕ
ioc_flush = 0x30e

abbrev pub ioc_set_volume : ℕ
ioc_set_volume = 0x310

-- `input().fail(input().generation(), error)`.
unfoldable pub fail_now : ℤ → Device → Device
fail_now error d = record d { input = fail_input d.input.generation error d.input }

unfoldable pub after_schedule : Outcome → ℤ × Device
after_schedule (ok tt, d) = (pos 0, d)
after_schedule (err error, d) = (error, fail_now error d)

-- `schedule_control`, given what the call of the input returned.
unfoldable pub schedule_control :
    Result InputError (Unit {0}) × AudioInput → Scheduler → Firmware → Device → ℤ × Device
schedule_control (ok tt, input) schedule f d =
    after_schedule (schedule f (record d { input = input }))
schedule_control (err error, input) schedule f d = (errno error, record d { input = input })

unfoldable pub opened : Result InputError (Unit {0}) × AudioInput → Device → ℤ × Device
opened (ok tt, input) d = (pos 0, record d { input = input; controls = clear d.controls })
opened (err error, input) d = (errno error, record d { input = input })

unfoldable pub audio_open : ℕ → Device → ℤ × Device
audio_open n d = opened (open_input n d.input) d

unfoldable pub result_of : Outcome → ℤ × Device
result_of (ok tt, d) = (pos 0, d)
result_of (err error, d) = (error, d)

unfoldable pub closed : Result InputError (Unit {0}) × AudioInput → Firmware → Device → ℤ × Device
closed (ok tt, input) f d = result_of (schedule_close f (record d { input = input }))
closed (err error, input) f d = (errno error, record d { input = input })

unfoldable pub audio_close : ℕ → Firmware → Device → ℤ × Device
audio_close n f d = closed (close_input n d.input) f (record d { controls = clear d.controls })

-- The event, if there is one, is what is written to the caller's buffer.
unfoldable pub read_event : Option ControlEventV1 → Device → ℤ × Option ControlEventV1 × Device
read_event none d = (negsuc 10, none, d)
read_event (some event) d = (pos event_size, some event, d)

unfoldable pub audio_read : Bool → ℕ → Device → ℤ × Option ControlEventV1 × Device
audio_read null count d =
    let r = pop d.controls in
    if null || ltb count event_size
    then (errno invalid, none, d)
    else read_event r.0 (record d { controls = r.1 })

-- A wake that cannot be queued fails the input, and the write still counts.
unfoldable pub after_wake : Outcome → Device
after_wake (ok tt, d) = d
after_wake (err error, d) = fail_now error d

unfoldable pub after_write : Result InputError ℕ × AudioInput → Firmware → Device → ℤ × Device
after_write (ok written, input) f d =
    (pos written, after_wake (schedule_wake f (record d { input = input })))
after_write (err error, input) f d = (errno error, record d { input = input })

unfoldable pub audio_write : ℕ → Bool → List ℕ → Firmware → Device → ℤ × Device
audio_write n null bytes f d =
    if length bytes == 0
    then (pos 0, d)
    else if null
    then (errno invalid, d)
    else if d.test_owns_input
    then (negsuc 15, d)
    else after_write (write n bytes d.input) f d

unfoldable pub absolute_volume_percent : Device → ℕ
absolute_volume_percent d = absolute_to_percent (min d.avrcp_volume max_volume)

unfoldable pub result_of_send : ℤ → Result ℤ (Unit {0})
result_of_send (pos ℕ.zero) = ok tt
result_of_send error = err error

-- What an ioctl's argument is and points to, and what the ioctl writes there.
pub record Argument : Type 0 where
  pub null : Bool
  pub format : FormatV1
  pub volume : ℕ

pub data Answer : Type 0 where
  abi : ℕ → Answer
  current : StatusV1 → Answer
  percent : ℕ → Answer

module _ (send : List ℕ → ℤ) where
  unfoldable pub sent_volume : Result Error ℕ × Avrcp.Port → Device → Outcome
  sent_volume (ok len, port) d =
      (result_of_send (send (take len port.out)), record d { avrcp = port })
  sent_volume (err error, port) d = (err err_avrcp_state, record d { avrcp = port })

  unfoldable pub set_absolute_volume : ℕ → Device → Outcome
  set_absolute_volume volume_percent d =
      let volume : ℕ = percent_to_absolute volume_percent in
      let marked : Device = record d {
        avrcp_volume = volume;
        volumes = mark_target_pending d.target volume d.volumes;
      } in
      if not (d.avrcp_state == avrcp_connected)
      then (ok tt, marked)
      else sent_volume (Avrcp.set_absolute_volume volume d.avrcp) marked

  unfoldable pub set_local_volume : ℕ → Device → ℤ × Device
  set_local_volume volume d =
      if ltb volume_max volume then (errno invalid, d) else result_of (set_absolute_volume volume d)

  unfoldable pub plain : ℤ × Device → ℤ × Option Answer × Device
  plain (code, d) = (code, none, d)

  -- An ioctl with its argument. The tests are on the command first, and each command that has an argument
  -- tests it for null.
  unfoldable pub audio_ioctl : ℕ → ℕ → Argument → Firmware → Device → ℤ × Option Answer × Device
  audio_ioctl n command argument f d =
      let called : Device = record d { last_command = command } in
      let refused : ℤ × Option Answer × Device = (errno invalid, none, called) in
      let input : AudioInput = d.input in
      if command == ioc_get_abi
      then (if argument.null then refused else (pos 0, some (abi abi_version), called))
      else if command == ioc_set_format
      then (if argument.null
          then refused
          else plain
              (schedule_control (set_format n argument.format input) schedule_flush f called))
      else if command == ioc_start
      then plain (schedule_control (start input) schedule_start f called)
      else if command == ioc_pause
      then plain (schedule_control (pause input) schedule_pause f called)
      else if command == ioc_resume
      then plain (schedule_control (resume input) schedule_resume f called)
      else if command == ioc_stop
      then plain (schedule_control (stop n input) schedule_stop f called)
      else if command == ioc_drain
      then plain (schedule_control (drain input) schedule_drain f called)
      else if command == ioc_flush
      then plain (schedule_control (flush n input) schedule_flush f called)
      else if command == ioc_get_status
      then (if argument.null then refused else (pos 0, some (current (status n input)), called))
      else if command == ioc_set_volume
      then (if argument.null then refused else plain (set_local_volume argument.volume called))
      else if command == ioc_get_volume
      then (if argument.null
          then refused
          else (pos 0, some (percent (absolute_volume_percent called)), called))
      else refused
