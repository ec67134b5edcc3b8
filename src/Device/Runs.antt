-- ===== src/Device/Runs.antt =====
-- Any run of the device's calls, while the owner takes up none of the work that waits. Each call is
-- one step.
use canopus_module_bluetooth.Base.{
  ℕ, ◌+◌, ◌≤◌, ◌≡◌, ◌≢◌, refl, ap, ◌∙◌, Bool, true, false, not, ◌&&◌, List, [], ◌∷◌, length, ◌==◌,
  ==_refl, if-elim, arith, Result, ok, err,
}
use canopus_module_bluetooth.Base.Int.{ℤ, pos}
use canopus_module_bluetooth.Input.Endpoint.{AudioInput, InputError, write, errno}
use canopus_module_bluetooth.Input.Endpoint.Worker.{mark_underrun}
use canopus_module_bluetooth.Device.Schedule.{
  Device, wake_work, Firmware, Outcome, schedule_wake, media_flow_credit, wake_is_current,
  suspend_accepted, media_streaming,
}
use canopus_module_bluetooth.Device.Handlers.{
  Argument, audio_open, audio_close, audio_read, audio_write, audio_ioctl, after_write, after_wake,
}
use canopus_module_bluetooth.Device.Wakes.{
  wakes, wakes-append, count_of, IsMatched, IsBacked, schedule_wake-IsBacked, open-IsBacked,
  close-IsBacked, write-IsBacked, read-IsBacked,
}
use canopus_module_bluetooth.Device.Wakes.Ioctl.{ioctl-IsBacked}

-- The calls of the device, a flow event and the acceptance of a SUSPEND.
pub data Call : Type 0 where
  opens : Call
  closes : Firmware → Call
  reads : Bool → ℕ → Call
  writes : Bool → List ℕ → Firmware → Call
  controls : ℕ → Argument → Firmware → Call
  credits : Firmware → Call
  suspends : Bool → Firmware → Call

module _ (n : ℕ) (send : List ℕ → ℤ) where
  abbrev pub step : Device → Call → Device
  step d opens = (audio_open n d).1
  step d (closes f) = (audio_close n f d).1
  step d (reads null count) = (audio_read null count d).2
  step d (writes null bytes f) = (audio_write n null bytes f d).1
  step d (controls command argument f) = (audio_ioctl send n command argument f d).2
  step d (credits f) = media_flow_credit f d
  step d (suspends external f) = suspend_accepted external f d

  abbrev pub run : Device → List Call → Device
  run d [] = d
  run d (call ∷ calls) = run (step d call) calls

  step-IsBacked : (a b : ℕ) (d : Device) (call : Call) → IsBacked a b d → IsBacked a b (step d call)
  unfolding media_flow_credit suspend_accepted
  step-IsBacked a b d opens v = open-IsBacked a b n d v
  step-IsBacked a b d (closes f) v = close-IsBacked a b n f d v
  step-IsBacked a b d (reads null count) v = read-IsBacked a b null count d v
  step-IsBacked a b d (writes null bytes f) v = write-IsBacked a b n null bytes f d v
  step-IsBacked a b d (controls command argument f) v =
      ioctl-IsBacked a b send n command argument f d v
  step-IsBacked a b d (credits f) v =
      if-elim (IsBacked a b) (d.media_state == media_streaming)
        (λ _. schedule_wake-IsBacked a b f d v) (λ _. v)
  step-IsBacked a b d (suspends external f) v =
      let marked : Device = record d { input = mark_underrun d.input.generation d.input } in
      if-elim (IsBacked a b) external (λ _. schedule_wake-IsBacked a b f marked v) (λ _. v)

  run-IsBacked :
      (a b : ℕ) (d : Device) (calls : List Call) → IsBacked a b d → IsBacked a b (run d calls)
  run-IsBacked a b d [] v = v
  run-IsBacked a b d (call ∷ calls) v =
      run-IsBacked a b (step d call) calls (step-IsBacked a b d call v)

  -- Over any run of the device's calls, flow events and accepted SUSPENDs, none of the waiting work
  -- taken up meanwhile, with any firmware, from any device, whatever its flag and its queue: the flag
  -- is not cleared, and as many wakes join those that wait for the owner as the flag goes from clear
  -- to set, so at most one, and none where the flag was set.
  pub wakes_follow_flag :
      (d : Device) (calls : List Call)
      → (wakes (run d calls).works + count_of d.wake_queued
          ≡ wakes d.works + count_of (run d calls).wake_queued)
        × (count_of d.wake_queued ≤ count_of (run d calls).wake_queued)
  wakes_follow_flag d calls =
      run-IsBacked (count_of d.wake_queued) (wakes d.works) d calls (refl, omega arith)

errno_fails : (error : InputError) (count : ℕ) → errno error ≢ pos count
unfolding errno
errno_fails InputError.busy count e = cc
errno_fails InputError.invalid count e = cc
errno_fails InputError.again count e = cc
errno_fails InputError.pipe count e = cc
errno_fails InputError.io count e = cc

-- One wake waits, and it will not be taken for stale.
abbrev pub IsAwake : Device → Type 0
IsAwake d = (d.wake_queued ≡ true) × (wakes d.works ≡ 1) × (wake_is_current d ≡ true)

schedule_wake_lem :
    (f : Firmware) (d : Device)
    → f.has_owner ≡ true
    → IsMatched d
    → (d' : Device) × (schedule_wake f d ≡ (ok tt, d')) × IsAwake d'
unfolding schedule_wake wake_is_current wakes
schedule_wake_lem f d owner v =
    let P : Outcome → Type 0 = λ r. (d' : Device) × (r ≡ (ok tt, d')) × IsAwake d' in
    let current : (d.runtime_generation == d.runtime_generation
          && d.input.generation == d.input.generation)
        ≡ true =
      rw (==_refl d.runtime_generation, ==_refl d.input.generation) refl in
    if-elim P d.wake_queued (λ set. (_, refl, (set, v ∙ ap count_of set, current)))
      (λ idle.
        let none_yet : wakes d.works ≡ 0 = v ∙ ap count_of idle in
        if-elim P (not f.has_owner) (λ none. absurd (ground (arith, owner, none)))
          (λ _. (
            _,
            refl,
            (refl, wakes-append d.works (wake_work ∷ []) ∙ omega (arith, none_yet), current),
          )))

after_write-IsAwake :
    (r : Result InputError ℕ × AudioInput) (count : ℕ) (f : Firmware) (d : Device)
    → f.has_owner ≡ true
    → IsMatched d
    → (after_write r f d).0 ≡ pos count
    → IsAwake (after_write r f d).1
unfolding after_write after_wake
after_write-IsAwake (err error, input) count f d owner v h = absurd (errno_fails error count h)
after_write-IsAwake (ok written, input) count f d owner v h =
    let woken = schedule_wake_lem f (record d { input = input }) owner v in rw woken.1 woken.2

-- A write of one byte or more that returns a count, with an owner to queue to, on a device whose
-- flag matches the wakes that wait, leaves exactly one wake waiting, whose generations are the
-- current ones, so it is not taken for stale.
pub audio_write-IsAwake :
    (n : ℕ) (bytes : List ℕ) (f : Firmware) (d : Device) (count : ℕ)
    → bytes ≢ []
    → f.has_owner ≡ true
    → IsMatched d
    → (audio_write n false bytes f d).0 ≡ pos count
    → IsAwake (audio_write n false bytes f d).1
unfolding audio_write
audio_write-IsAwake n [] f d count some_bytes owner v = absurd (some_bytes refl)
audio_write-IsAwake n (b ∷ bytes) f d count some_bytes owner v =
    let P : ℤ × Device → Type 0 = λ r. r.0 ≡ pos count → IsAwake r.1 in
    if-elim P (length (b ∷ bytes) == 0) (λ e. absurd (ground (arith, e)))
      (λ _.
        if-elim P d.test_owns_input (λ _ h. absurd cc)
          (λ _ h. after_write-IsAwake (write n (b ∷ bytes) d.input) count f d owner v h))
