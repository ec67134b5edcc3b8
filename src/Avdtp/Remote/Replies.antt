-- ===== src/Avdtp/Remote/Replies.antt =====
-- Every command of the sink is answered.
use canopus_module_bluetooth.Base.{
  ℕ, ◌+◌, ◌≤◌, ◌<◌, ◌≡◌, ◌≢◌, refl, Bool, true, false, not, ◌&&◌, ◌||◌, get_or, List, [], length,
  take, splice, if◌then◌else◌, Bool-cases, inl, inr, Result, ok, arith, ◌==◌, then_on_ok,
}
use canopus_module_bluetooth.Avdtp.{
  State, SbcConfig, shifted, in_state, signal_get_capabilities, signal_get_all_capabilities,
  signal_get_configuration, signal_close, signal_abort, signal_delay_report, signal_start,
  signal_suspend, signal_set_configuration, signal_reconfigure, signal_open, Source, Port, Error,
  msg_accept, msg_command, signal_discover,
}
use canopus_module_bluetooth.Avdtp.Wire.{frame, response}
use canopus_module_bluetooth.Avdtp.Wire.Frames.{response_fits}
use canopus_module_bluetooth.Avdtp.Remote.{
  remote_command, valid_local_seid, capabilities, configuration, closed,
}
use canopus_module_bluetooth.Avdtp.Answers.{is_nil}

-- The answer is a frame with the command's own transaction and signal, of one of the three answer
-- types; where it is not an acceptance the source is left as it was.
pub record Replies (t signal : ℕ) (p : Port) (r : Result Error ℕ × Port) : Type 0 where
  pub message : ℕ
  pub payload : List ℕ
  pub is_answer : message ≢ msg_command
  pub known : message < 4
  pub short : length payload ≤ 12
  pub result : r.0 ≡ ok (2 + length payload)
  pub written : r.1.out ≡ splice 0 (frame t signal message payload) p.out
  pub unchanged : message ≢ msg_accept → r.1.source ≡ p.source

module _ (t signal : ℕ) (p : Port) (room : 14 ≤ length p.out) where
  reply :
      (m : ℕ) (payload : List ℕ)
      → m ≢ msg_command
      → m < 4
      → length payload ≤ 12
      → Replies t signal p (response t signal m payload p)
  reply m payload answer known short =
      rw (response_fits p t signal m payload (omega arith)) (record {
        message = m;
        payload = payload;
        is_answer = answer;
        known = known;
        short = short;
        result = refl;
        written = refl;
        unchanged = λ _. refl;
      })

  accepted :
      (payload : List ℕ) (s : Source)
      → length payload ≤ 12
      → Replies t signal p (response t signal msg_accept payload (record p { source = s }))
  accepted payload s short =
      rw (response_fits (record p { source = s }) t signal msg_accept payload (omega arith))
        (record {
          message = msg_accept;
          payload = payload;
          is_answer = omega arith;
          known = omega arith;
          short = short;
          result = refl;
          written = refl;
          unchanged = λ n. absurd (n refl);
        })

  accepted_after :
      (f : Source → Source)
      → Replies t signal p (
          then_on_ok
            (response t signal msg_accept [] p)
            λ len p'. (ok len, record p' { source = f (p'.source) }))
  accepted_after f = rw (response_fits p t signal msg_accept [] (omega arith)) (record {
    message = msg_accept;
    payload = [];
    is_answer = omega arith;
    known = omega arith;
    short = omega arith;
    result = refl;
    written = refl;
    unchanged = λ n. absurd (n refl);
  })

  refusal :
      (payload : List ℕ) → length payload ≤ 2 → Replies t signal p (response t signal 3 payload p)
  refusal payload short = reply 3 payload (omega arith) (omega arith) (omega arith)

  -- The two capability answers, the longer one with Delay Reporting.
  capabilities_reply :
      (b : Bool)
      → Replies t signal p
          (response t signal msg_accept (take (if b then 12 else 10) capabilities) p)
  capabilities_reply true = accepted _ (p.source) (omega arith)
  capabilities_reply false = accepted _ (p.source) (omega arith)

  configuration_reply :
      (c : SbcConfig) (delay : Bool)
      → Replies t signal p (response t signal msg_accept (configuration c delay) p)
  configuration_reply c true = accepted _ (p.source) (omega arith)
  configuration_reply c false = accepted _ (p.source) (omega arith)

  -- With 14 bytes of room in the output, every command of the sink, whatever its signal and
  -- payload, is answered by a frame with its own transaction and signal and the length returned:
  -- an acceptance, a rejection or a general rejection, of at most 12 bytes of payload. The source
  -- changes only with an acceptance.
  pub remote_command-Replies :
      (payload : List ℕ) → Replies t signal p (remote_command t signal payload p)
  unfolding remote_command
  remote_command-Replies payload =
      let s : Source = p.source in
      let valid : Bool = valid_local_seid payload s in
      elim (Bool-cases (signal == signal_discover)) [
        | inl e ↦ rw e (elim (Bool-cases (not (is_nil payload))) [
          | inl e ↦ rw e (refusal _ (omega arith))
          | inr e ↦ rw e (accepted _ s (omega arith))
        ])
        | inr e ↦
            rw e
              (elim (Bool-cases
                (signal == signal_get_capabilities || signal == signal_get_all_capabilities)) [
                  | inl e ↦ rw e (elim (Bool-cases (not valid)) [
                    | inl e ↦ rw e (refusal _ (omega arith))
                    | inr e ↦ rw e (capabilities_reply _)
                  ])
                  | inr e ↦ rw e (elim (Bool-cases (signal == signal_get_configuration)) [
                    | inl e ↦ rw e (elim (Bool-cases (not valid)) [
                      | inl e ↦ rw e (refusal _ (omega arith))
                      | inr e ↦ rw e (elim (Bool-cases (not s.local_in_use)) [
                        | inl e ↦ rw e (refusal _ (omega arith))
                        | inr e ↦ rw e (configuration_reply s.selected_sbc s.delay_reporting)
                      ])
                    ])
                    | inr e ↦
                        rw e (elim (Bool-cases (signal == signal_close || signal == signal_abort)) [
                          | inl e ↦ rw e (elim (Bool-cases (not valid)) [
                            | inl e ↦ rw e (refusal _ (omega arith))
                            | inr e ↦ rw e (accepted_after closed)
                          ])
                          | inr e ↦ rw e (elim (Bool-cases (signal == signal_delay_report)) [
                            | inl e ↦
                                rw e
                                  (elim (Bool-cases (
                                    not (length payload == 3)
                                    || not (get_or payload 0 0 == shifted s.local_seid))) [
                                      | inl e ↦ rw e (refusal _ (omega arith))
                                      | inr e ↦
                                          rw e
                                            (elim (Bool-cases
                                              (not s.local_in_use || not s.delay_reporting)) [
                                                | inl e ↦ rw e (refusal _ (omega arith))
                                                | inr e ↦ rw e (accepted [] _ (omega arith))
                                              ])
                                    ])
                            | inr e ↦ rw e (elim (Bool-cases (signal == signal_start && valid)) [
                              | inl e ↦
                                  rw e
                                    (elim (Bool-cases (
                                      not (in_state s.state State.opened)
                                      || not s.media_connected)) [
                                        | inl e ↦ rw e (refusal _ (omega arith))
                                        | inr e ↦ rw e (
                                            accepted_after
                                              (λ q. record q { state = State.streaming }))
                                      ])
                              | inr e ↦
                                  rw e (elim (Bool-cases (signal == signal_suspend && valid)) [
                                    | inl e ↦
                                        rw e
                                          (elim (Bool-cases
                                            (not (in_state s.state State.streaming))) [
                                              | inl e ↦ rw e (refusal _ (omega arith))
                                              | inr e ↦ rw e (
                                                  accepted_after
                                                    (λ q. record q { state = State.opened }))
                                            ])
                                    | inr e ↦
                                        rw e
                                          (elim (Bool-cases
                                            (signal == signal_start || signal == signal_suspend)) [
                                              | inl e ↦ rw e (refusal _ (omega arith))
                                              | inr e ↦
                                                  rw e
                                                    (elim (Bool-cases
                                                      (signal == signal_set_configuration)) [
                                                        | inl e ↦ rw e (refusal _ (omega arith))
                                                        | inr e ↦
                                                            rw e
                                                            (elim (Bool-cases
                                                            (signal == signal_reconfigure)) [
                                                              | inl e ↦
                                                                rw e (refusal _ (omega arith))
                                                              | inr e ↦
                                                                rw e
                                                                (elim (Bool-cases
                                                                (signal == signal_open)) [
                                                                  | inl e ↦
                                                                    rw e (refusal _ (omega arith))
                                                                  | inr e ↦ rw e (
                                                                    reply 1 [] (omega arith)
                                                                    (omega arith) (omega arith))
                                                                ])
                                                            ])
                                                      ])
                                            ])
                                  ])
                            ])
                          ])
                        ])
                  ])
                ])
      ]
