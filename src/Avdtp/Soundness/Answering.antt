-- ===== src/Avdtp/Soundness/Answering.antt =====
-- `accept` and `reject`.
use canopus_module_bluetooth.Base.{
  ℕ, ◌+◌, ◌/◌, ◌≤◌, ◌≡◌, inl, inr, refl, Bool, true, false, not, ◌&&◌, ◌||◌, Bool-cases, replicate,
  ltb, List, [], ◌∷◌, splice, if◌then◌else◌, arith, ◌==◌,
}
use canopus_module_bluetooth.Avdtp.{
  Source, Port, State, signal_set_configuration, signal_open, signal_start, signal_suspend,
  signal_discover, signal_get_capabilities, signal_get_all_capabilities, in_state,
}
use canopus_module_bluetooth.Avdtp.Answers.{
  is_nil, is_stale, usable_sink, collect_sinks, accept_discover, accept, reject, last_or_zero,
  forget_sink,
}
use canopus_module_bluetooth.Avdtp.Wire.{command, response}
use canopus_module_bluetooth.Avdtp.Soundness.{IsEncodable, IsSound, command-IsSound, is_late_signal}
use canopus_module_bluetooth.Avdtp.Soundness.Scanning.{choose_sbc-IsSound, next_sink-IsSound}

collect_sinks-count :
    (payload sinks : List ℕ) (count : ℕ) → count ≤ 8 → (collect_sinks payload sinks count).1 ≤ 8
unfolding collect_sinks
collect_sinks-count [] sinks count h = h
collect_sinks-count (a ∷ []) sinks count h = h
collect_sinks-count (a ∷ b ∷ rest) sinks count h =
    let keep : Bool = usable_sink a b && ltb count 8 in
    collect_sinks-count rest (if keep then splice count ((a / 4) ∷ []) sinks else sinks)
      (if keep then count + 1 else count) (ground arith)

accept_discover-IsSound :
    (payload : List ℕ) (p : Port)
    → IsSound (p.source)
    → IsSound (accept_discover payload p).1.source
unfolding accept_discover command response
accept_discover-IsSound payload p v =
    ground (arith, v.late_state, v.late_pending, collect_sinks-count payload (replicate 8 0) 0)

-- The states that an answer leads to, given that a configuration is selected.
pub enter-IsSound :
    (state : State) (in_use : Bool) (s : Source)
    → IsSound s
    → IsEncodable s.selected_sbc
    → IsSound (record s { state = state; local_in_use = in_use })
enter-IsSound state in_use s v c = record {
  transactions = v.transactions;
  pending = v.pending;
  sink_limit = v.sink_limit;
  fragment_limit = v.fragment_limit;
  buffer_size = v.buffer_size;
  late_state = λ _. c;
  late_pending = v.late_pending;
}

answered-IsSound :
    (s : Source) (code : ℕ × ℕ)
    → IsSound s
    → IsSound (record s { pending_signal = 0; last_reject = code })
answered-IsSound s code v = record {
  transactions = v.transactions;
  pending = v.pending;
  sink_limit = v.sink_limit;
  fragment_limit = v.fragment_limit;
  buffer_size = v.buffer_size;
  late_state = v.late_state;
  late_pending = λ e. cc;
}

-- An answer that is not stale answers the pending signal.
not_stale : (t signal : ℕ) (s : Source) → is_stale t signal s ≡ false → signal ≡ s.pending_signal
not_stale t signal s h = ground arith

pub accept-IsSound :
    (t signal : ℕ) (payload : List ℕ) (p : Port)
    → IsSound (p.source)
    → IsSound (accept t signal payload p).1.source
unfolding accept
accept-IsSound t signal payload p v = elim (Bool-cases (is_stale t signal (p.source))) [
  | inl stale ↦ rw stale v
  | inr fresh ↦
      let answers : signal ≡ p.source.pending_signal = not_stale t signal (p.source) fresh in
      let late : is_late_signal signal ≡ true → IsEncodable p.source.selected_sbc =
        λ e. v.late_pending (rw (← answers) e) in
      let v1 : IsSound (record (p.source) { pending_signal = 0 }) =
        answered-IsSound (p.source) (p.source.last_reject) v in
      rw fresh (elim (Bool-cases (signal == signal_discover)) [
        | inl e ↦ rw e (accept_discover-IsSound payload _ v1)
        | inr e ↦
            rw e
              (elim (Bool-cases
                (signal == signal_get_all_capabilities || signal == signal_get_capabilities)) [
                  | inl e ↦ rw e (choose_sbc-IsSound payload _ v1)
                  | inr e ↦ rw e (elim (Bool-cases (signal == signal_set_configuration)) [
                    | inl e ↦ rw e (elim (Bool-cases (not (is_nil payload))) [
                      | inl f ↦ rw f (v1)
                      | inr f ↦ rw f (
                          command-IsSound signal_open _ _
                            (enter-IsSound _ _ _ v1 (late (ground arith)))
                            (λ _. late (ground arith)))
                    ])
                    | inr e ↦ rw e (elim (Bool-cases (signal == signal_open)) [
                      | inl e ↦ rw e (elim (Bool-cases (not (is_nil payload))) [
                        | inl f ↦ rw f (v1)
                        | inr f ↦ rw f (enter-IsSound _ _ _ v1 (late (ground arith)))
                      ])
                      | inr e ↦ rw e (elim (Bool-cases (signal == signal_start)) [
                        | inl e ↦
                            rw e
                              (elim (Bool-cases (
                                not (in_state p.source.state State.starting)
                                || not (is_nil payload))) [
                                  | inl f ↦ rw f (v1)
                                  | inr f ↦ rw f (enter-IsSound _ _ _ v1 (late (ground arith)))
                                ])
                        | inr e ↦ rw e (elim (Bool-cases (signal == signal_suspend)) [
                          | inl e ↦
                              rw e
                                (elim (Bool-cases (
                                  not (in_state p.source.state State.suspending)
                                  || not (is_nil payload))) [
                                    | inl f ↦ rw f (v1)
                                    | inr f ↦ rw f (enter-IsSound _ _ _ v1 (late (ground arith)))
                                  ])
                          | inr e ↦ rw e (v1)
                        ])
                      ])
                    ])
                  ])
                ])
      ])
]

forget-IsSound : (s : Source) → IsSound s → s.pending_signal ≡ 0 → IsSound (forget_sink s)
forget-IsSound s v e = record {
  transactions = v.transactions;
  pending = v.pending;
  sink_limit = v.sink_limit;
  fragment_limit = v.fragment_limit;
  buffer_size = v.buffer_size;
  late_state = λ h. cc;
  late_pending = λ h. ground (arith, e, h);
}

pub reject-IsSound :
    (t signal : ℕ) (payload : List ℕ) (p : Port)
    → IsSound (p.source)
    → IsSound (reject t signal payload p).1.source
unfolding reject
reject-IsSound t signal payload p v = elim (Bool-cases (is_stale t signal (p.source))) [
  | inl stale ↦ rw stale v
  | inr fresh ↦
      let answers : signal ≡ p.source.pending_signal = not_stale t signal (p.source) fresh in
      let late : is_late_signal signal ≡ true → IsEncodable p.source.selected_sbc =
        λ e. v.late_pending (rw (← answers) e) in
      let v1 : IsSound
          (record (p.source) { pending_signal = 0; last_reject = (signal, last_or_zero payload) }) =
        answered-IsSound (p.source) (signal, last_or_zero payload) v in
      rw fresh (elim (Bool-cases (signal == signal_get_all_capabilities)) [
        | inl e ↦ rw e (command-IsSound signal_get_capabilities _ _ v1 (λ e. cc))
        | inr e ↦
            rw e
              (elim (Bool-cases (
                signal == signal_get_capabilities
                && in_state p.source.state State.reading_capabilities)) [
                  | inl e ↦ rw e (next_sink-IsSound _ v1)
                  | inr e ↦ rw e (elim (Bool-cases (signal == signal_open)) [
                    | inl e ↦ rw e (enter-IsSound _ _ _ v1 (late (ground arith)))
                    | inr e ↦ rw e (elim (Bool-cases (signal == signal_start)) [
                      | inl e ↦ rw e (enter-IsSound _ _ _ v1 (late (ground arith)))
                      | inr e ↦ rw e (elim (Bool-cases (signal == signal_suspend)) [
                        | inl e ↦ rw e (enter-IsSound _ _ _ v1 (late (ground arith)))
                        | inr e ↦
                            rw e
                              (elim (Bool-cases (
                                signal == signal_discover
                                || signal == signal_get_capabilities
                                || signal == signal_set_configuration)) [
                                  | inl e ↦ rw e (forget-IsSound _ v1 refl)
                                  | inr e ↦ rw e (v1)
                                ])
                      ])
                    ])
                  ])
                ])
      ])
]
