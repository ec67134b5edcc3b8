-- ===== src/Device/Wakes.antt =====
-- The wake flag of the device and the wakes that wait for the owner: `WAKE_QUEUED` lets one wake be
-- queued at a time.
pub mod Ioctl
use canopus_module_bluetooth.Base.{
  ℕ, suc, ◌+◌, ◌≤◌, ◌≡◌, refl, sym, ap, ◌∙◌, Bool, true, false, not, ◌||◌, List, [], ◌∷◌, ◌++◌,
  length, ltb, ◌==◌, if-elim, arith, Result, ok, err, Option, none, some,
}
use canopus_module_bluetooth.Base.Int.{ℤ}
use canopus_module_bluetooth.Avrcp
use canopus_module_bluetooth.Avrcp.{Error, percent_to_absolute}
use canopus_module_bluetooth.Device.Controls.{ControlEventV1, event_size, pop, clear}
use canopus_module_bluetooth.Input.Endpoint.{
  AudioInput, InputError, write, open_input, close_input, set_format, start, pause, resume, stop,
  drain, flush, volume_max,
}
use canopus_module_bluetooth.Device.Schedule.{
  Device, Work, audio_work, wake_work, Firmware, Outcome, Scheduler, queue, failing, schedule_start,
  schedule_pause, schedule_resume, schedule_stop, schedule_drain, schedule_flush, schedule_close,
  schedule_wake, work_close, work_flush, work_start, work_pause, work_resume, work_stop, work_drain,
  stage_avdtp_start, stage_draining,
}
use canopus_module_bluetooth.Device.Handlers.{
  Argument, Answer, fail_now, after_schedule, schedule_control, opened, audio_open, result_of,
  closed, audio_close, read_event, audio_read, after_wake, after_write, audio_write, sent_volume,
  set_absolute_volume, set_local_volume, plain, audio_ioctl, ioc_get_abi, ioc_set_format, ioc_start,
  ioc_pause, ioc_resume, ioc_stop, ioc_drain, ioc_flush, ioc_get_status, ioc_set_volume,
  ioc_get_volume, avrcp_connected,
}

unfoldable pub wakes : List Work → ℕ
wakes [] = 0
wakes (audio_work token ∷ works) = wakes works
wakes (wake_work ∷ works) = suc (wakes works)

pub wakes-append : (xs ys : List Work) → wakes (xs ++ ys) ≡ wakes xs + wakes ys
unfolding wakes
wakes-append [] ys = omega arith
wakes-append (audio_work token ∷ xs) ys = wakes-append xs ys
wakes-append (wake_work ∷ xs) ys = omega (arith, wakes-append xs ys)

abbrev pub count_of : Bool → ℕ
count_of true = 1
count_of false = 0

abbrev pub IsMatched : Device → Type 0
IsMatched d = wakes d.works ≡ count_of d.wake_queued

-- `a` stands for the flag before some run of calls, and `b` for the wakes that waited: the wakes
-- and the flag have grown alike, and the flag has not been cleared.
module _ (a b : ℕ) where
  abbrev pub IsBacked : Device → Type 0
  IsBacked d = (wakes d.works + a ≡ b + count_of d.wake_queued) × (a ≤ count_of d.wake_queued)

  pub queue-IsBacked :
      (command : ℕ) (f : Firmware) (d : Device) → IsBacked d → IsBacked (queue command f d).1
  unfolding queue wakes
  queue-IsBacked command f d v =
      let P : Outcome → Type 0 = λ r. IsBacked r.1 in
      if-elim P (not f.has_memory) (λ _. v)
        (λ _.
          if-elim P (not f.has_owner) (λ _. v)
            (λ _. (ap (λ k. k + a) (wakes-append d.works _) ∙ omega (arith, v.0), v.1)))

  pub failing-IsBacked : (r : Outcome) → IsBacked r.1 → IsBacked (failing r).1
  unfolding failing
  failing-IsBacked (ok tt, d) v = v
  failing-IsBacked (err e, d) v = v

  pub schedule_wake-IsBacked :
      (f : Firmware) (d : Device) → IsBacked d → IsBacked (schedule_wake f d).1
  unfolding schedule_wake wakes
  schedule_wake-IsBacked f d v =
      let P : Outcome → Type 0 = λ r. IsBacked r.1 in
      if-elim P d.wake_queued (λ _. v)
        (λ idle.
          if-elim P (not f.has_owner) (λ _. v)
            (λ _.
              let still : wakes d.works + a ≡ b + 0 = v.0 ∙ ap (λ c. b + count_of c) idle in
              let bound : a ≤ 0 = rw (sym (ap count_of idle)) v.1 in
              (
                ap (λ k. k + a) (wakes-append d.works _) ∙ omega (arith, still),
                omega (arith, bound),
              )))

  -- What the calls of the device and of the owner's queue do.
  abbrev pub KeepsBacked : Scheduler → Type 0
  KeepsBacked schedule = (f : Firmware) (d : Device) → IsBacked d → IsBacked (schedule f d).1

  fail_now-IsBacked : (error : ℤ) (d : Device) → IsBacked d → IsBacked (fail_now error d)
  unfolding fail_now
  fail_now-IsBacked error d v = v

  after_schedule-IsBacked : (r : Outcome) → IsBacked r.1 → IsBacked (after_schedule r).1
  unfolding after_schedule fail_now
  after_schedule-IsBacked (ok tt, d) v = v
  after_schedule-IsBacked (err error, d) v = v

  pub control-IsBacked :
      (r : Result InputError (Unit {0}) × AudioInput) (schedule : Scheduler) (f : Firmware)
      (d : Device)
      → KeepsBacked schedule
      → IsBacked d
      → IsBacked (schedule_control r schedule f d).1
  unfolding schedule_control
  control-IsBacked (ok tt, input) schedule f d keeps v =
      after_schedule-IsBacked (schedule f (record d { input = input }))
        (keeps f (record d { input = input }) v)
  control-IsBacked (err error, input) schedule f d keeps v = v

  opens :
      (r : Result InputError (Unit {0}) × AudioInput) (d : Device)
      → IsBacked d
      → IsBacked (opened r d).1
  unfolding opened
  opens (ok tt, input) d v = v
  opens (err error, input) d v = v

  pub open-IsBacked : (n : ℕ) (d : Device) → IsBacked d → IsBacked (audio_open n d).1
  unfolding audio_open
  open-IsBacked n d v = opens (open_input n d.input) d v

  pub result_of-IsBacked : (r : Outcome) → IsBacked r.1 → IsBacked (result_of r).1
  unfolding result_of
  result_of-IsBacked (ok tt, d) v = v
  result_of-IsBacked (err error, d) v = v

  closes :
      (r : Result InputError (Unit {0}) × AudioInput) (f : Firmware) (d : Device)
      → IsBacked d
      → IsBacked (closed r f d).1
  unfolding closed schedule_close
  closes (ok tt, input) f d v =
      result_of-IsBacked _ (queue-IsBacked work_close f (record d { input = input }) v)
  closes (err error, input) f d v = v

  pub close-IsBacked :
      (n : ℕ) (f : Firmware) (d : Device) → IsBacked d → IsBacked (audio_close n f d).1
  unfolding audio_close
  close-IsBacked n f d v =
      closes (close_input n d.input) f (record d { controls = clear d.controls }) v

  after_wake-IsBacked : (r : Outcome) → IsBacked r.1 → IsBacked (after_wake r)
  unfolding after_wake fail_now
  after_wake-IsBacked (ok tt, d) v = v
  after_wake-IsBacked (err error, d) v = v

  writes :
      (r : Result InputError ℕ × AudioInput) (f : Firmware) (d : Device)
      → IsBacked d
      → IsBacked (after_write r f d).1
  unfolding after_write
  writes (ok written, input) f d v =
      after_wake-IsBacked _ (schedule_wake-IsBacked f (record d { input = input }) v)
  writes (err error, input) f d v = v

  pub write-IsBacked :
      (n : ℕ) (null : Bool) (bytes : List ℕ) (f : Firmware) (d : Device)
      → IsBacked d
      → IsBacked (audio_write n null bytes f d).1
  unfolding audio_write
  write-IsBacked n null bytes f d v =
      let P : ℤ × Device → Type 0 = λ r. IsBacked r.1 in
      if-elim P (length bytes == 0) (λ _. v)
        (λ _.
          if-elim P null (λ _. v)
            (λ _. if-elim P d.test_owns_input (λ _. v) (λ _. writes (write n bytes d.input) f d v)))

  reads :
      (event : Option ControlEventV1) (d : Device) → IsBacked d → IsBacked (read_event event d).2
  unfolding read_event
  reads none d v = v
  reads (some event) d v = v

  pub read-IsBacked :
      (null : Bool) (count : ℕ) (d : Device) → IsBacked d → IsBacked (audio_read null count d).2
  unfolding audio_read
  read-IsBacked null count d v =
      let P : ℤ × Option ControlEventV1 × Device → Type 0 = λ r. IsBacked r.2 in
      if-elim P (null || ltb count event_size) (λ _. v)
        (λ _. reads (pop d.controls).0 (record d { controls = (pop d.controls).1 }) v)
