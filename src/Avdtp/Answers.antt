-- ===== src/Avdtp/Answers.antt =====
-- `accept` and `reject`: the sink's answers to this source's commands.
use canopus_module_bluetooth.Base.{
  ℕ, ◌+◌, ◌/◌, ◌%◌, Bool, true, false, not, ◌&&◌, ◌||◌, List, [], ◌∷◌, length, splice, get_or,
  replicate, ltb, leb, ◌==◌, if◌then◌else◌, ok, err,
}
use canopus_module_bluetooth.Avdtp.{
  Port, Source, Writer, State, bad_packet, unsupported, rejected, shifted, in_state, no_sbc,
  signal_discover, signal_get_capabilities, signal_set_configuration, signal_open, signal_start,
  signal_suspend, signal_get_all_capabilities,
}
use canopus_module_bluetooth.Avdtp.Wire.{command}
use canopus_module_bluetooth.Avdtp.Sbc.{choose_sbc, next_sink_capabilities}

abbrev pub is_nil : List ℕ → Bool
is_nil [] = true
is_nil (x ∷ xs) = false

-- An answer to a command that is no longer pending.
abbrev pub is_stale : ℕ → ℕ → Source → Bool
is_stale transaction signal s =
    not (signal == s.pending_signal) || not (transaction == s.pending_transaction)

-- The filter on one SEP of a DISCOVER answer: a free audio sink with well-formed bytes.
abbrev pub usable_sink : ℕ → ℕ → Bool
usable_sink a b =
    ltb 0 (a / 4)
    && leb (a / 4) 0x3e
    && a % 2 == 0
    && b % 8 == 0
    && a / 2 % 2 == 0
    && b / 16 == 0
    && b / 8 % 2 == 1

-- `sinks` and `sink_count` after the loop over pairs of bytes.
unfoldable pub collect_sinks : List ℕ → List ℕ → ℕ → List ℕ × ℕ
collect_sinks [] sinks count = (sinks, count)
collect_sinks (a ∷ []) sinks count = (sinks, count)
collect_sinks (a ∷ b ∷ rest) sinks count =
    let keep : Bool = usable_sink a b && ltb count 8 in
    collect_sinks rest (if keep then splice count ((a / 4) ∷ []) sinks else sinks)
      (if keep then count + 1 else count)

unfoldable pub accept_discover : List ℕ → Writer
unfolding collect_sinks
accept_discover payload p =
    if is_nil payload || length payload % 2 == 1
    then (err bad_packet, p)
    else let (sinks, count) = collect_sinks payload (replicate 8 0) 0 in
      let listed : Source = record (p.source) { sinks = sinks; sink_count = count; sink_pos = 0 } in
      if count == 0
      then (
        err unsupported,
        record p {
          source = record listed { last_codec_caps = splice 0 payload p.source.last_codec_caps };
        },
      )
      else let seid : ℕ = get_or sinks 0 0 in
        command signal_get_all_capabilities (shifted seid ∷ []) (record p {
          source = record listed { remote_seid = seid; state = State.reading_capabilities };
        })

abbrev enter : State → Port → Port
enter state p = record p { source = record (p.source) { state = state } }

unfoldable pub accept : ℕ → ℕ → List ℕ → Writer
unfolding accept_discover
accept transaction signal payload p =
    if is_stale transaction signal p.source
    then (ok 0, p)
    else let p1 : Port = record p { source = record (p.source) { pending_signal = 0 } } in
      if signal == signal_discover
      then accept_discover payload p1
      else if signal == signal_get_all_capabilities || signal == signal_get_capabilities
      then choose_sbc payload p1
      else if signal == signal_set_configuration
      then (if not (is_nil payload)
          then (err bad_packet, p1)
          else command signal_open (shifted p1.source.remote_seid ∷ []) (record p1 {
            source = record (p1.source) { local_in_use = true; state = State.opening };
          }))
      else if signal == signal_open
      then (if not (is_nil payload) then (err bad_packet, p1) else (ok 0, enter State.opened p1))
      else if signal == signal_start
      then (if not (in_state p1.source.state State.starting) || not (is_nil payload)
          then (err bad_packet, p1)
          else (ok 0, enter State.streaming p1))
      else if signal == signal_suspend
      then (if not (in_state p1.source.state State.suspending) || not (is_nil payload)
          then (err bad_packet, p1)
          else (ok 0, enter State.opened p1))
      else (err bad_packet, p1)

-- `payload.last().copied().unwrap_or(0)`
unfoldable pub last_or_zero : List ℕ → ℕ
last_or_zero [] = 0
last_or_zero (x ∷ []) = x
last_or_zero (x ∷ y ∷ ys) = last_or_zero (y ∷ ys)

-- The source after a refused DISCOVER, GET_CAPABILITIES or SET_CONFIGURATION.
abbrev pub forget_sink : Source → Source
forget_sink s = record s {
  state = State.idle;
  remote_seid = 0;
  local_in_use = false;
  delay_reporting = false;
  reported_delay_100us = 0;
  selected_sbc = no_sbc;
}

unfoldable pub reject : ℕ → ℕ → List ℕ → Writer
reject transaction signal payload p =
    if is_stale transaction signal p.source
    then (ok 0, p)
    else let code : ℕ = last_or_zero payload in
      let p1 : Port = record p {
        source = record (p.source) { pending_signal = 0; last_reject = (signal, code) };
      } in
      if signal == signal_get_all_capabilities
      then command signal_get_capabilities (shifted p1.source.remote_seid ∷ []) p1
      else if signal == signal_get_capabilities
          && in_state p1.source.state State.reading_capabilities
      then next_sink_capabilities p1
      else if signal == signal_open
      then (err (rejected code), enter State.configuring p1)
      else if signal == signal_start
      then (ok 0, enter State.opened p1)
      else if signal == signal_suspend
      then (ok 0, enter State.streaming p1)
      else if signal == signal_discover
          || signal == signal_get_capabilities
          || signal == signal_set_configuration
      then (err (rejected code), record p1 { source = forget_sink (p1.source) })
      else (err (rejected code), p1)
