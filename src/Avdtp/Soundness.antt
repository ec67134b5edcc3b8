-- ===== src/Avdtp/Soundness.antt =====
-- What holds of the source after any calls and any packets, and what its fields have to do with it.
pub mod Scanning
pub mod Answering
pub mod Replying
pub mod Receiving
pub mod Runs
use canopus_module_bluetooth.Base.{
  ℕ, zero, suc, ◌+◌, ◌*◌, ◌%◌, ◌/◌, ◌≤◌, ◌<◌, ◌≡◌, ◌≢◌, ◌⊎◌, inl, inr, refl, Bool, true, false, not,
  ◌&&◌, ◌||◌, Bool-cases, replicate, if-elim, ltb, Option, none, some, List, [], ◌∷◌, length, take,
  drop, splice, get_or, length-splice, ◌∙◌, if◌then◌else◌, Result, ok, err, arith, ◌==◌, All, leb,
}
use canopus_module_bluetooth.Avdtp.{
  Source, Port, Writer, Error, SbcConfig, packet_continue, packet_end, packet_single, packet_start,
  is_down, max_sdu, State, LinkState, no_sbc, new, signal_set_configuration, signal_open,
  signal_start, signal_suspend, signal_discover, signal_get_configuration, signal_close,
  signal_abort, signal_delay_report, signal_reconfigure, shifted, msg_accept,
  signal_get_capabilities, signal_get_all_capabilities, in_state, index, fragment_capacity,
}
use canopus_module_bluetooth.Avdtp.Answers.{
  is_nil, is_stale, usable_sink, collect_sinks, accept_discover, accept, reject, last_or_zero,
  forget_sink,
}
use canopus_module_bluetooth.Avdtp.Remote.{remote_command, valid_local_seid, after_response, closed}
use canopus_module_bluetooth.Avdtp.Receive.{
  dispatch, reset_fragment, receive_start, receive_more, finish_fragment, receive,
}
use canopus_module_bluetooth.Avdtp.Local.{connect, start, suspend}
use canopus_module_bluetooth.Avdtp.Wire.{command, response}
use canopus_module_bluetooth.Avdtp.Sbc.{
  Scan, Scanned, done, malformed, stuck, sbc_offer, scan_service, scan, next_sink_capabilities,
  finish_scan, choose_sbc, scan_start,
}

-- A configuration that the encoder supports: 44.1 kHz stereo or joint stereo, 16 blocks, 8
-- subbands, Loudness, and bit pools between 27 and 39.
pub record IsEncodable (c : SbcConfig) : Type 0 where
  pub channels : (c.frequency_channel ≡ 0x22) ⊎ (c.frequency_channel ≡ 0x21)
  pub shape : c.blocks_subbands_allocation ≡ 0x15
  pub lower : 27 ≤ c.minimum_bitpool
  pub ordered : c.minimum_bitpool ≤ c.maximum_bitpool
  pub upper : c.maximum_bitpool ≤ 39

-- From Configuring on, but for Failed, a configuration is selected.
abbrev is_late : State → Bool
is_late s = leb 3 (index s) && leb (index s) 8

-- The signals whose acceptance moves the stream on.
abbrev pub is_late_signal : ℕ → Bool
is_late_signal signal =
    signal == signal_set_configuration
    || signal == signal_open
    || signal == signal_start
    || signal == signal_suspend

pub record IsSound (s : Source) : Type 0 where
  pub transactions : s.next_transaction < 16
  pub pending : s.pending_transaction < 16
  pub sink_limit : s.sink_count ≤ 8
  pub fragment_limit : s.fragment_length ≤ fragment_capacity
  pub buffer_size : length s.fragment_payload ≡ fragment_capacity
  pub late_state : is_late s.state ≡ true → IsEncodable s.selected_sbc
  pub late_pending : is_late_signal s.pending_signal ≡ true → IsEncodable s.selected_sbc

pub new-IsSound : (g : ℕ) → IsSound (new g)
unfolding new
new-IsSound g = record {
  transactions = omega arith;
  pending = omega arith;
  sink_limit = omega arith;
  fragment_limit = omega arith;
  buffer_size = refl;
  late_state = λ e. cc;
  late_pending = λ e. cc;
}

pub command-IsSound :
    (signal : ℕ) (payload : List ℕ) (p : Port)
    → IsSound (p.source)
    → (is_late_signal signal ≡ true → IsEncodable p.source.selected_sbc)
    → IsSound (command signal payload p).1.source
unfolding command response
command-IsSound signal payload p v late = ground (arith, v.late_state, v.late_pending)
