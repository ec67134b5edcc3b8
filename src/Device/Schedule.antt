-- ===== src/Device/Schedule.antt =====
-- How the device hands work to the Bluetooth owner (crates/bluetooth-audio-device/src/target/
-- audio_stream.rs). The firmware decides whether there is memory and whether there is an owner.
use canopus_module_bluetooth.Base.{
  ℕ, Bool, true, not, ◌&&◌, List, [], ◌∷◌, ◌++◌, if◌then◌else◌, Result, ok, err, ◌==◌, Option,
}
use canopus_module_bluetooth.Base.Int.{ℤ, negsuc}
use canopus_module_bluetooth.Input.Endpoint.{AudioInput}
use canopus_module_bluetooth.Input.Endpoint.Worker.{mark_underrun}
use canopus_module_bluetooth.Device.Controls.{ControlQueue}
use canopus_module_bluetooth.Avrcp.{Port}
use canopus_module_bluetooth.Discovery.{Address}
use canopus_module_bluetooth.Storage.Volume.{Statics}

abbrev pub err_media_alloc : ℤ
err_media_alloc = negsuc 1201

abbrev pub err_audio_queue : ℤ
err_audio_queue = negsuc 1207

abbrev pub work_start : ℕ
work_start = 1

abbrev pub work_wake : ℕ
work_wake = 2

abbrev pub work_pause : ℕ
work_pause = 3

abbrev pub work_resume : ℕ
work_resume = 4

abbrev pub work_stop : ℕ
work_stop = 5

abbrev pub work_drain : ℕ
work_drain = 6

abbrev pub work_flush : ℕ
work_flush = 7

abbrev pub work_close : ℕ
work_close = 8

abbrev pub stage_avdtp_start : ℕ
stage_avdtp_start = 3

abbrev pub stage_draining : ℕ
stage_draining = 8

abbrev pub stage_failed : ℕ
stage_failed = 10

abbrev pub media_streaming : ℕ
media_streaming = 4

abbrev pub media_complete : ℕ
media_complete = 6

pub record WorkToken : Type 0 where
  pub runtime_generation : ℕ
  pub audio_generation : ℕ
  pub command : ℕ
  pub attempts : ℕ

-- What waits for the owner: `audio_work` with its token, or `audio_wake_work`.
pub data Work : Type 0 where
  audio_work : WorkToken → Work
  wake_work : Work

-- `bt_queue_external` takes the work that it is given, as a comment of the source says of the entry
-- point behind it, and its result is dropped there.
pub record Firmware : Type 0 where
  pub has_memory : Bool
  pub has_owner : Bool

-- The statics of audio_stream.rs and audio_device.rs that the device's calls use.
pub record Device : Type 0 where
  pub input : AudioInput
  pub controls : ControlQueue
  pub last_command : ℕ
  pub stage : ℕ
  pub wake_queued : Bool
  pub wake_runtime_generation : ℕ
  pub wake_audio_generation : ℕ
  pub runtime_generation : ℕ
  pub media_state : ℕ
  pub test_owns_input : Bool
  pub avrcp : Port
  pub avrcp_state : ℕ
  pub avrcp_volume : ℕ
  pub volumes : Statics
  pub target : Option Address
  pub works : List Work

abbrev pub Outcome : Type 0
Outcome = Result ℤ (Unit {0}) × Device

abbrev pub Scheduler : Type 0
Scheduler = Firmware → Device → Outcome

unfoldable pub queue : ℕ → Scheduler
queue command f d =
    if not f.has_memory
    then (err err_media_alloc, d)
    else if not f.has_owner
    then (err err_audio_queue, d)
    else (
      ok tt,
      record d {
        works =
            d.works
            ++ (audio_work (record {
              runtime_generation = d.runtime_generation;
              audio_generation = d.input.generation;
              command = command;
              attempts = 0;
            })
                ∷ []);
      },
    )

-- The stage that a failed `queue` leaves.
unfoldable pub failing : Outcome → Outcome
failing (ok tt, d) = (ok tt, d)
failing (err e, d) = (err e, record d { stage = stage_failed })

unfoldable pub schedule_start : Scheduler
schedule_start f d = failing (queue work_start f (record d { stage = stage_avdtp_start }))

unfoldable pub schedule_pause : Scheduler
schedule_pause f d = queue work_pause f d

unfoldable pub schedule_resume : Scheduler
schedule_resume f d = queue work_resume f d

unfoldable pub schedule_stop : Scheduler
schedule_stop f d = queue work_stop f d

unfoldable pub schedule_drain : Scheduler
schedule_drain f d = failing (queue work_drain f (record d { stage = stage_draining }))

unfoldable pub schedule_flush : Scheduler
schedule_flush f d = queue work_flush f d

unfoldable pub schedule_close : Scheduler
schedule_close f d = queue work_close f d

-- The generations are stored before the test of the flag.
unfoldable pub schedule_wake : Scheduler
schedule_wake f d =
    let marked : Device = record d {
      wake_runtime_generation = d.runtime_generation;
      wake_audio_generation = d.input.generation;
    } in
    if d.wake_queued
    then (ok tt, marked)
    else if not f.has_owner
    then (err err_audio_queue, marked)
    else (ok tt, record marked { wake_queued = true; works = d.works ++ (wake_work ∷ []) })

-- What the acceptance of a SUSPEND does here, `external` where the stream is the writer's. The
-- timers and the flags of the transport are left out.
unfoldable pub suspend_accepted : Bool → Firmware → Device → Device
suspend_accepted external f d =
    let woken : Device =
      (schedule_wake f (record d { input = mark_underrun d.input.generation d.input })).1 in
    record (if external then woken else d) { media_state = media_complete }

unfoldable pub media_flow_credit : Firmware → Device → Device
media_flow_credit f d = if d.media_state == media_streaming then (schedule_wake f d).1 else d

-- The test of `audio_wake_work` on the generations, after the flag is cleared.
unfoldable pub wake_is_current : Device → Bool
wake_is_current d =
    d.wake_runtime_generation == d.runtime_generation
    && d.wake_audio_generation == d.input.generation
