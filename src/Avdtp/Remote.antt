-- ===== src/Avdtp/Remote.antt =====
-- `remote_command`: what this source answers to the sink's commands.
pub mod Replies
use canopus_module_bluetooth.Base.{
  ℕ, ◌+◌, ◌*◌, ◌/◌, ◌%◌, bit_and, bit_or, Bool, false, not, ◌&&◌, ◌||◌, List, [], ◌∷◌, length, take,
  get_or, ◌==◌, if◌then◌else◌, ok, then_on_ok,
}
use canopus_module_bluetooth.Avdtp.{
  Source, SbcConfig, Writer, State, shifted, in_state, msg_accept, msg_reject, msg_general_reject,
  signal_discover, signal_get_capabilities, signal_get_all_capabilities, signal_get_configuration,
  signal_close, signal_abort, signal_delay_report, signal_start, signal_suspend,
  signal_set_configuration, signal_reconfigure, signal_open, category_media_transport,
  category_media_codec, category_delay_reporting, error_bad_acp_seid, error_bad_state,
  error_bad_payload_format, error_sep_in_use,
}
use canopus_module_bluetooth.Avdtp.Wire.{response}
use canopus_module_bluetooth.Avdtp.Sbc.{min_bitpool, max_bitpool}
use canopus_module_bluetooth.Avdtp.Answers.{is_nil}

-- `u16::from_be_bytes`
abbrev pub from_be16 : ℕ → ℕ → ℕ
from_be16 hi lo = hi * 256 + lo

unfoldable pub valid_local_seid : List ℕ → Source → Bool
valid_local_seid payload s =
    length payload == 1 && get_or payload 0 0 % 4 == 0 && get_or payload 0 0 / 4 == s.local_seid

abbrev pub capabilities : List ℕ
capabilities =
    category_media_transport ∷ 0 ∷ category_media_codec ∷ 6 ∷ 0 ∷ 0 ∷ 0x22 ∷ 0x15 ∷ min_bitpool
    ∷ max_bitpool ∷ category_delay_reporting ∷ 0 ∷ []

abbrev pub configuration : SbcConfig → Bool → List ℕ
configuration c delay =
    category_media_transport
    ∷ 0
    ∷ category_media_codec
    ∷ 6
    ∷ 0
    ∷ 0
    ∷ c.frequency_channel
    ∷ c.blocks_subbands_allocation
    ∷ c.minimum_bitpool
    ∷ c.maximum_bitpool
    ∷ (if delay then category_delay_reporting ∷ 0 ∷ [] else [])

-- An answer, and the change of the source that follows where it was written.
abbrev pub after_response : Writer → (Source → Source) → Writer
after_response w f p = then_on_ok (w p) λ len p'. (ok len, record p' { source = f (p'.source) })

abbrev pub closed : Source → Source
closed s = record s {
  state = State.idle;
  local_in_use = false;
  remote_seid = 0;
  pending_signal = 0;
  delay_reporting = false;
  reported_delay_100us = 0;
  media_connected = false;
}

unfoldable pub remote_command : ℕ → ℕ → List ℕ → Writer
remote_command transaction signal payload p =
    let s : Source = p.source in
    let local : ℕ = shifted s.local_seid in
    let valid : Bool = valid_local_seid payload s in
    let refuse : List ℕ → Writer = λ code. response transaction signal msg_reject code in
    if signal == signal_discover
    then (if not (is_nil payload)
        then refuse (error_bad_payload_format ∷ []) p
        else response transaction signal msg_accept
            (bit_or local (if s.local_in_use then 2 else 0) ∷ 0 ∷ []) p)
    else if signal == signal_get_capabilities || signal == signal_get_all_capabilities
    then (if not valid
        then refuse (error_bad_acp_seid ∷ []) p
        else response transaction signal msg_accept
            (take (if signal == signal_get_all_capabilities then 12 else 10) capabilities) p)
    else if signal == signal_get_configuration
    then (if not valid
        then refuse (error_bad_acp_seid ∷ []) p
        else if not s.local_in_use
        then refuse (error_bad_state ∷ []) p
        else response transaction signal msg_accept (configuration s.selected_sbc s.delay_reporting)
            p)
    else if signal == signal_close || signal == signal_abort
    then (if not valid
        then refuse (error_bad_acp_seid ∷ []) p
        else after_response (response transaction signal msg_accept []) closed p)
    else if signal == signal_delay_report
    then (if not (length payload == 3) || not (get_or payload 0 0 == local)
        then refuse (error_bad_acp_seid ∷ []) p
        else if not s.local_in_use || not s.delay_reporting
        then refuse (error_bad_state ∷ []) p
        else response transaction signal msg_accept [] (record p {
          source = record s {
            reported_delay_100us = from_be16 (get_or payload 1 0) (get_or payload 2 0);
          };
        }))
    else if signal == signal_start && valid
    then (if not (in_state s.state State.opened) || not s.media_connected
        then refuse (local ∷ error_bad_state ∷ []) p
        else after_response (response transaction signal msg_accept [])
            (λ t. record t { state = State.streaming }) p)
    else if signal == signal_suspend && valid
    then (if not (in_state s.state State.streaming)
        then refuse (local ∷ error_bad_state ∷ []) p
        else after_response (response transaction signal msg_accept [])
            (λ t. record t { state = State.opened }) p)
    else if signal == signal_start || signal == signal_suspend
    then refuse (bit_and (get_or payload 0 0) 0xfc ∷ error_bad_acp_seid ∷ []) p
    else if signal == signal_set_configuration
    then refuse (0 ∷ error_sep_in_use ∷ []) p
    else if signal == signal_reconfigure
    then refuse (0 ∷ error_bad_state ∷ []) p
    else if signal == signal_open
    then refuse (error_bad_state ∷ []) p
    else response transaction signal msg_general_reject [] p
