-- ===== src/Device/Controls.antt =====
-- `ControlQueue` of audio_device.rs: the media controls of the headset, for the reader of the device. A
-- slot's index is `% 8`; `head` and `tail` are u32 counters.
pub mod Queue
use canopus_module_bluetooth.Base.{
  ℕ, ◌+◌, ◌%◌, Bool, true, false, Option, some, none, ltb, leb, ◌==◌, if◌then◌else◌,
}
use canopus_module_bluetooth.Base.Words.{wrapping_add, wrapping_sub}
use canopus_module_bluetooth.Avrcp.Receive.{MediaControl, play, pause, next, previous}

abbrev pub control_capacity : ℕ
control_capacity = 8

-- `size_of::<ControlEventV1>()`: four u32 fields.
abbrev pub event_size : ℕ
event_size = 16

pub record ControlEventV1 : Type 0 where
  pub struct_size : ℕ
  pub kind : ℕ
  pub sequence : ℕ
  pub reserved : ℕ

pub record ControlQueue : Type 0 where
  pub head : ℕ
  pub tail : ℕ
  pub dropped : ℕ
  pub slots : ℕ → ℕ

abbrev pub new : ControlQueue
new = record { head = 0; tail = 0; dropped = 0; slots = λ _. 0 }

abbrev pub stored : (ℕ → ℕ) → ℕ → ℕ → ℕ → ℕ
stored slots at kind i = if i == at then kind else slots i

unfoldable pub push : ℕ → ControlQueue → Bool × ControlQueue
push kind q =
    if leb control_capacity (wrapping_sub q.head q.tail)
    then (false, record q { dropped = wrapping_add q.dropped 1 })
    else (
      true,
      record q {
        slots = stored q.slots (q.head % control_capacity) kind;
        head = wrapping_add q.head 1;
      },
    )

unfoldable pub pop : ControlQueue → Option ControlEventV1 × ControlQueue
pop q =
    let sequence : ℕ = wrapping_add q.tail 1 in
    if q.tail == q.head then (none, q) else (
      some (record {
        struct_size = event_size;
        kind = q.slots (q.tail % control_capacity);
        sequence = sequence;
        reserved = 0;
      }),
      record q { tail = sequence },
    )

unfoldable pub clear : ControlQueue → ControlQueue
clear q = record q { tail = q.head }

unfoldable pub kind_of : MediaControl → ℕ
kind_of play = 1
kind_of pause = 2
kind_of next = 3
kind_of previous = 4

unfoldable pub enqueue_media_control : MediaControl → ControlQueue → Bool × ControlQueue
enqueue_media_control control q = push (kind_of control) q
