-- ===== src/Device/Wakes/Ioctl.antt =====
-- The wake flag across the ioctls and the volume.
use canopus_module_bluetooth.Base.{ℕ, not, List, ltb, ◌==◌, if-elim, Result, ok, err, Option}
use canopus_module_bluetooth.Base.Int.{ℤ}
use canopus_module_bluetooth.Avrcp
use canopus_module_bluetooth.Avrcp.{Error, percent_to_absolute}
use canopus_module_bluetooth.Input.Endpoint.{
  AudioInput, InputError, set_format, start, pause, resume, stop, drain, flush, volume_max,
}
use canopus_module_bluetooth.Device.Schedule.{
  Device, Firmware, Outcome, Scheduler, queue, schedule_start, schedule_pause, schedule_resume,
  schedule_stop, schedule_drain, schedule_flush, work_flush, work_start, work_pause, work_resume,
  work_stop, work_drain, stage_avdtp_start, stage_draining,
}
use canopus_module_bluetooth.Device.Handlers.{
  Argument, Answer, schedule_control, sent_volume, set_absolute_volume, set_local_volume, plain,
  audio_ioctl, ioc_get_abi, ioc_set_format, ioc_start, ioc_pause, ioc_resume, ioc_stop, ioc_drain,
  ioc_flush, ioc_get_status, ioc_set_volume, ioc_get_volume, avrcp_connected,
}
use canopus_module_bluetooth.Device.Wakes.{
  IsBacked, KeepsBacked, queue-IsBacked, failing-IsBacked, control-IsBacked, result_of-IsBacked,
}

module _ (a b : ℕ) where
  module _ (send : List ℕ → ℤ) where
    sends :
        (r : Result Error ℕ × Avrcp.Port) (d : Device)
        → IsBacked a b d
        → IsBacked a b (sent_volume send r d).1
    unfolding sent_volume
    sends (ok len, port) d v = v
    sends (err error, port) d v = v

    volume-IsBacked :
        (volume : ℕ) (d : Device) → IsBacked a b d → IsBacked a b (set_local_volume send volume d).1
    unfolding set_local_volume set_absolute_volume
    volume-IsBacked volume d v =
        let P : ℤ × Device → Type 0 = λ r. IsBacked a b r.1 in
        let Q : Outcome → Type 0 = λ r. IsBacked a b r.1 in
        if-elim P (ltb volume_max volume) (λ _. v)
          (λ _. result_of-IsBacked a b _ (
            if-elim Q (not (d.avrcp_state == avrcp_connected)) (λ _. v)
              (λ _. sends (Avrcp.set_absolute_volume (percent_to_absolute volume) d.avrcp) _ v)))

    plain-IsBacked : (r : ℤ × Device) → IsBacked a b r.1 → IsBacked a b (plain send r).2
    unfolding plain
    plain-IsBacked (code, d) v = v

    pub ioctl-IsBacked :
        (n command : ℕ) (argument : Argument) (f : Firmware) (d : Device)
        → IsBacked a b d
        → IsBacked a b (audio_ioctl send n command argument f d).2
    unfolding audio_ioctl schedule_start schedule_pause schedule_resume schedule_stop schedule_drain
        schedule_flush
    ioctl-IsBacked n command argument f d v =
        let called : Device = record d { last_command = command } in
        let P : ℤ × Option Answer × Device → Type 0 = λ r. IsBacked a b r.2 in
        let control : (r : Result InputError (Unit {0}) × AudioInput) (schedule : Scheduler)
            → KeepsBacked a b schedule
            → IsBacked a b (plain send (schedule_control r schedule f called)).2 =
          λ r schedule keeps. plain-IsBacked _ (control-IsBacked a b r schedule f called keeps v) in
        let queued : (work : ℕ) → KeepsBacked a b (queue work) = queue-IsBacked a b in
        let input : AudioInput = d.input in
        if-elim P (command == ioc_get_abi) (λ _. if-elim P argument.null (λ _. v) (λ _. v))
          (λ _.
            if-elim P (command == ioc_set_format)
              (λ _.
                if-elim P argument.null (λ _. v)
                  (λ _.
                    control (set_format n argument.format input) schedule_flush
                      (queued work_flush)))
              (λ _.
                if-elim P (command == ioc_start)
                  (λ _. control (start input) schedule_start (λ f' d' v'.
                    failing-IsBacked a b _
                      (queued work_start f' (record d' { stage = stage_avdtp_start }) v')))
                  (λ _.
                    if-elim P (command == ioc_pause)
                      (λ _. control (pause input) schedule_pause (queued work_pause))
                      (λ _.
                        if-elim P (command == ioc_resume)
                          (λ _. control (resume input) schedule_resume (queued work_resume))
                          (λ _.
                            if-elim P (command == ioc_stop)
                              (λ _. control (stop n input) schedule_stop (queued work_stop))
                              (λ _.
                                if-elim P (command == ioc_drain)
                                  (λ _. control (drain input) schedule_drain (λ f' d' v'.
                                    failing-IsBacked a b _ (
                                      queued work_drain f' (record d' { stage = stage_draining })
                                        v')))
                                  (λ _.
                                    if-elim P (command == ioc_flush)
                                      (λ _.
                                        control (flush n input) schedule_flush (queued work_flush))
                                      (λ _.
                                        if-elim P (command == ioc_get_status)
                                          (λ _. if-elim P argument.null (λ _. v) (λ _. v))
                                          (λ _.
                                            if-elim P (command == ioc_set_volume)
                                              (λ _.
                                                if-elim P argument.null (λ _. v)
                                                  (λ _.
                                                    plain-IsBacked _
                                                      (volume-IsBacked argument.volume called v)))
                                              (λ _.
                                                if-elim P (command == ioc_get_volume)
                                                  (λ _. if-elim P argument.null (λ _. v) (λ _. v))
                                                  (λ _. v)))))))))))
