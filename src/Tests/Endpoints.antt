-- ===== src/Tests/Endpoints.antt =====
-- The character device, its queue of controls, and the test tone.
use canopus_module_bluetooth.Base.{
  ℕ, ◌+◌, ◌*◌, ◌≡◌, ◌≢◌, ◌≤◌, ◌<◌, refl, true, false, List, [], ◌∷◌, length, replicate,
  length-replicate, some, none, ok, err, arith,
}
use canopus_module_bluetooth.Base.Int.{ℤ, pos}
use canopus_module_bluetooth.Media.{complete, max_tx_sdu, sample_rate, frame_samples}
use canopus_module_bluetooth.Media.Tone.{TonePacketizer, write_packet, tone_seconds}
use canopus_module_bluetooth.Media.Tone
use canopus_module_bluetooth.Media.Tone.Packets.{plays, tone_completes}
use canopus_module_bluetooth.Avrcp
use canopus_module_bluetooth.Input.Endpoint
use canopus_module_bluetooth.Input.Ring
use canopus_module_bluetooth.Input.Endpoint.{state_configured, format_mp3}
use canopus_module_bluetooth.Device.Controls
use canopus_module_bluetooth.Device.Controls.{ControlQueue, push}
use canopus_module_bluetooth.Device.Controls.Queue.{IsValid, Pushed, push-Pushed}
use canopus_module_bluetooth.Device.Schedule.{Device, Firmware, schedule_wake}
use canopus_module_bluetooth.Device.Handlers.{audio_write, after_write, after_wake}
use canopus_module_bluetooth.Device.Wakes.{IsMatched, wakes, count_of}
use canopus_module_bluetooth.Device.Runs.{
  Call, opens, writes, credits, suspends, run, IsAwake, wakes_follow_flag, audio_write-IsAwake,
}

-- One control waits, and the counters are about to wrap.
abbrev queue : ControlQueue
queue = record { head = 0; tail = 0xffffffff; dropped = 0; slots = λ _. 3 }

queue_valid : IsValid queue
queue_valid = record { head_word = omega arith; tail_word = omega arith; bounded = omega arith }

push-Pushed_example : Pushed 4 queue (push 4 queue) × IsValid (push 4 queue).1
push-Pushed_example = push-Pushed 4 queue queue_valid

abbrev device : Device
device = record {
  input = record Endpoint.new { opened = true; state = state_configured; format = format_mp3 };
  controls = Controls.new;
  last_command = 0;
  stage = 0;
  wake_queued = false;
  wake_runtime_generation = 0;
  wake_audio_generation = 0;
  runtime_generation = 1;
  media_state = 0;
  test_owns_input = false;
  avrcp = record { controller = Avrcp.new; out = [] };
  avrcp_state = 0;
  avrcp_volume = 0;
  volumes = record {
    selected_address = [];
    selected_volume = 0x7f;
    selected_valid = false;
    pending_address = [];
    pending_volume = 0;
    pending_dirty = false;
  };
  target = none;
  works = [];
}

abbrev firmware : Firmware
firmware = record { has_memory = true; has_owner = true }

device-IsMatched : IsMatched device
unfolding wakes
device-IsMatched = refl

abbrev bytes : List ℕ
bytes = 7 ∷ 8 ∷ []

some_bytes : bytes ≢ []
some_bytes e = cc

two_written : (audio_write 16 false bytes firmware device).0 ≡ pos 2
unfolding audio_write after_write after_wake schedule_wake Endpoint.write Endpoint.write_between
    Ring.write Ring.claim_write Ring.commit_write Ring.free Ring.used Ring.copy_in
two_written = refl

audio_write-IsAwake_example : IsAwake (audio_write 16 false bytes firmware device).1
audio_write-IsAwake_example =
    audio_write-IsAwake 16 bytes firmware device 2 some_bytes refl device-IsMatched two_written

-- Two writes, an open that is refused, a SUSPEND and a flow event, with no work taken up between them.
abbrev history : List Call
history =
    writes false bytes firmware
    ∷ opens
    ∷ suspends true firmware
    ∷ writes false bytes firmware
    ∷ credits firmware
    ∷ []

abbrev no_send : List ℕ → ℤ
no_send packet = pos 0

wakes_follow_flag_example :
    (wakes (run 16 no_send device history).works + count_of device.wake_queued
      ≡ wakes device.works + count_of (run 16 no_send device history).wake_queued)
    × (count_of device.wake_queued ≤ count_of (run 16 no_send device history).wake_queued)
wakes_follow_flag_example = wakes_follow_flag 16 no_send device history

buffer_room : max_tx_sdu ≤ length (replicate {A = ℕ} max_tx_sdu 0)
buffer_room = omega (arith, length-replicate {A = ℕ} max_tx_sdu 0)

tone_completes_example :
    (p q : TonePacketizer) × (Tone.new 672 27 ≡ ok p)
    × (plays p.packets_target p (replicate max_tx_sdu 0) ≡ some q)
    × ((write_packet q []).0 ≡ err complete)
    × (tone_seconds * sample_rate ≤ q.frames_sent * frame_samples)
    × (q.frames_sent * frame_samples
        < tone_seconds * sample_rate + p.frames_per_packet * frame_samples)
tone_completes_example =
    tone_completes 672 27 (replicate max_tx_sdu 0) [] (omega arith) (omega arith) (omega arith)
      buffer_room
