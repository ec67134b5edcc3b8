-- ===== src/Avdtp/Soundness/Replying.antt =====
-- `remote_command`.
use canopus_module_bluetooth.Base.{
  ℕ, ◌≡◌, inl, inr, Bool, not, ◌&&◌, ◌||◌, Bool-cases, List, [], length, get_or, arith, ◌==◌,
}
use canopus_module_bluetooth.Avdtp.{
  Source, Port, State, signal_set_configuration, signal_open, signal_start, signal_suspend,
  signal_discover, signal_get_configuration, signal_close, signal_abort, signal_delay_report,
  signal_reconfigure, shifted, msg_accept, signal_get_capabilities, signal_get_all_capabilities,
  in_state,
}
use canopus_module_bluetooth.Avdtp.Answers.{is_nil}
use canopus_module_bluetooth.Avdtp.Remote.{remote_command, valid_local_seid, after_response, closed}
use canopus_module_bluetooth.Avdtp.Wire.{response}
use canopus_module_bluetooth.Avdtp.Soundness.{IsSound}
use canopus_module_bluetooth.Avdtp.Soundness.Answering.{enter-IsSound}

-- A method that keeps the fields which `IsSound` speaks of, but for the state.
response-source :
    (t signal m : ℕ) (payload : List ℕ) (p : Port)
    → (response t signal m payload p).1.source ≡ p.source
unfolding response
response-source t signal m payload p = ground arith

reply-IsSound :
    (t signal m : ℕ) (payload : List ℕ) (p : Port)
    → IsSound (p.source)
    → IsSound (response t signal m payload p).1.source
reply-IsSound t signal m payload p v = rw (response-source t signal m payload p) v

after-IsSound :
    (t signal : ℕ) (f : Source → Source) (p : Port)
    → IsSound (f (p.source))
    → IsSound (p.source)
    → IsSound (after_response (response t signal msg_accept []) f p).1.source
unfolding response
after-IsSound t signal f p w v = ground arith

closed-IsSound : (s : Source) → IsSound s → IsSound (closed s)
closed-IsSound s v = record {
  transactions = v.transactions;
  pending = v.pending;
  sink_limit = v.sink_limit;
  fragment_limit = v.fragment_limit;
  buffer_size = v.buffer_size;
  late_state = λ h. cc;
  late_pending = λ h. cc;
}

report-IsSound : (s : Source) (d : ℕ) → IsSound s → IsSound (record s { reported_delay_100us = d })
report-IsSound s d v = record {
  transactions = v.transactions;
  pending = v.pending;
  sink_limit = v.sink_limit;
  fragment_limit = v.fragment_limit;
  buffer_size = v.buffer_size;
  late_state = v.late_state;
  late_pending = v.late_pending;
}

pub remote_command-IsSound :
    (t signal : ℕ) (payload : List ℕ) (p : Port)
    → IsSound (p.source)
    → IsSound (remote_command t signal payload p).1.source
unfolding remote_command
remote_command-IsSound t signal payload p v =
    let s : Source = p.source in
    let valid : Bool = valid_local_seid payload s in
    elim (Bool-cases (signal == signal_discover)) [
      | inl e ↦ rw e (elim (Bool-cases (not (is_nil payload))) [
        | inl f ↦ rw f (reply-IsSound _ _ _ _ _ v)
        | inr f ↦ rw f (reply-IsSound _ _ _ _ _ v)
      ])
      | inr e ↦
          rw e
            (elim (Bool-cases
              (signal == signal_get_capabilities || signal == signal_get_all_capabilities)) [
                | inl e ↦ rw e (elim (Bool-cases (not valid)) [
                  | inl e ↦ rw e (reply-IsSound _ _ _ _ _ v)
                  | inr e ↦ rw e (reply-IsSound _ _ _ _ _ v)
                ])
                | inr e ↦ rw e (elim (Bool-cases (signal == signal_get_configuration)) [
                  | inl e ↦ rw e (elim (Bool-cases (not valid)) [
                    | inl e ↦ rw e (reply-IsSound _ _ _ _ _ v)
                    | inr e ↦ rw e (elim (Bool-cases (not s.local_in_use)) [
                      | inl e ↦ rw e (reply-IsSound _ _ _ _ _ v)
                      | inr e ↦ rw e (reply-IsSound _ _ _ _ _ v)
                    ])
                  ])
                  | inr e ↦
                      rw e (elim (Bool-cases (signal == signal_close || signal == signal_abort)) [
                        | inl e ↦ rw e (elim (Bool-cases (not valid)) [
                          | inl e ↦ rw e (reply-IsSound _ _ _ _ _ v)
                          | inr e ↦ rw e (after-IsSound t signal closed p (closed-IsSound s v) v)
                        ])
                        | inr e ↦ rw e (elim (Bool-cases (signal == signal_delay_report)) [
                          | inl e ↦
                              rw e
                                (elim (Bool-cases (
                                  not (length payload == 3)
                                  || not (get_or payload 0 0 == shifted s.local_seid))) [
                                    | inl e ↦ rw e (reply-IsSound _ _ _ _ _ v)
                                    | inr e ↦
                                        rw e
                                          (elim (Bool-cases
                                            (not s.local_in_use || not s.delay_reporting)) [
                                              | inl e ↦ rw e (reply-IsSound _ _ _ _ _ v)
                                              | inr e ↦
                                                  rw e
                                                    (reply-IsSound _ _ _ _ _ (report-IsSound s _ v))
                                            ])
                                  ])
                          | inr e ↦ rw e (elim (Bool-cases (signal == signal_start && valid)) [
                            | inl e ↦
                                rw e
                                  (elim (Bool-cases (
                                    not (in_state s.state State.opened) || not s.media_connected)) [
                                      | inl f ↦ rw f (reply-IsSound _ _ _ _ _ v)
                                      | inr f ↦ rw f (
                                          after-IsSound t signal _ p
                                            (enter-IsSound State.streaming _ s v
                                              (v.late_state (ground arith)))
                                            v)
                                    ])
                            | inr e ↦ rw e (elim (Bool-cases (signal == signal_suspend && valid)) [
                              | inl e ↦
                                  rw e (elim (Bool-cases (not (in_state s.state State.streaming))) [
                                    | inl f ↦ rw f (reply-IsSound _ _ _ _ _ v)
                                    | inr f ↦ rw f (
                                        after-IsSound t signal _ p
                                          (enter-IsSound State.opened _ s v
                                            (v.late_state (ground arith)))
                                          v)
                                  ])
                              | inr e ↦
                                  rw e
                                    (elim (Bool-cases
                                      (signal == signal_start || signal == signal_suspend)) [
                                        | inl e ↦ rw e (reply-IsSound _ _ _ _ _ v)
                                        | inr e ↦
                                            rw e
                                              (elim (Bool-cases
                                                (signal == signal_set_configuration)) [
                                                  | inl e ↦ rw e (reply-IsSound _ _ _ _ _ v)
                                                  | inr e ↦
                                                      rw e
                                                        (elim (Bool-cases
                                                          (signal == signal_reconfigure)) [
                                                            | inl e ↦
                                                              rw e (reply-IsSound _ _ _ _ _ v)
                                                            | inr e ↦
                                                              rw e
                                                              (elim (Bool-cases
                                                              (signal == signal_open)) [
                                                                | inl e ↦
                                                                  rw e (reply-IsSound _ _ _ _ _ v)
                                                                | inr e ↦
                                                                  rw e (reply-IsSound _ _ _ _ _ v)
                                                              ])
                                                          ])
                                                ])
                                      ])
                            ])
                          ])
                        ])
                      ])
                ])
              ])
    ]
