-- ===== src/Avdtp.antt =====
-- crates/bluetooth-audio-core/src/avdtp.rs: the AVDTP source. A method of `Source` works on a
-- `Port`, the source together with the caller's output buffer `out`, and leaves both on the error
-- path too.
pub mod Wire
pub mod Local
pub mod Sbc
pub mod Answers
pub mod Remote
pub mod Receive
pub mod Soundness
use canopus_module_bluetooth.Base.{
  ℕ, ◌*◌, ◌%◌, Bool, false, not, List, [], ◌∷◌, ◌==◌, Method, replicate, bit_and,
}

abbrev pub msg_command : ℕ
msg_command = 0

abbrev pub msg_general_reject : ℕ
msg_general_reject = 1

abbrev pub msg_accept : ℕ
msg_accept = 2

abbrev pub msg_reject : ℕ
msg_reject = 3

abbrev pub signal_discover : ℕ
signal_discover = 0x01

abbrev pub signal_get_capabilities : ℕ
signal_get_capabilities = 0x02

abbrev pub signal_set_configuration : ℕ
signal_set_configuration = 0x03

abbrev pub signal_get_configuration : ℕ
signal_get_configuration = 0x04

abbrev pub signal_reconfigure : ℕ
signal_reconfigure = 0x05

abbrev pub signal_open : ℕ
signal_open = 0x06

abbrev pub signal_start : ℕ
signal_start = 0x07

abbrev pub signal_close : ℕ
signal_close = 0x08

abbrev pub signal_suspend : ℕ
signal_suspend = 0x09

abbrev pub signal_abort : ℕ
signal_abort = 0x0a

abbrev pub signal_get_all_capabilities : ℕ
signal_get_all_capabilities = 0x0c

abbrev pub signal_delay_report : ℕ
signal_delay_report = 0x0d

abbrev pub category_media_transport : ℕ
category_media_transport = 0x01

abbrev pub category_media_codec : ℕ
category_media_codec = 0x07

abbrev pub category_delay_reporting : ℕ
category_delay_reporting = 0x08

abbrev pub error_bad_acp_seid : ℕ
error_bad_acp_seid = 0x12

abbrev pub error_sep_in_use : ℕ
error_sep_in_use = 0x13

abbrev pub error_bad_payload_format : ℕ
error_bad_payload_format = 0x18

abbrev pub error_bad_state : ℕ
error_bad_state = 0x31

abbrev pub max_sdu : ℕ
max_sdu = 128

abbrev pub fragment_capacity : ℕ
fragment_capacity = 126

abbrev pub packet_single : ℕ
packet_single = 0

abbrev pub packet_start : ℕ
packet_start = 1

abbrev pub packet_continue : ℕ
packet_continue = 2

abbrev pub packet_end : ℕ
packet_end = 3

pub data LinkState : Type 0 where
  down connected : LinkState

pub data State : Type 0 where
  idle discovering reading_capabilities configuring opening opened starting streaming : State
  suspending failed : State

abbrev pub is_down : LinkState → Bool
is_down LinkState.down = Bool.true
is_down LinkState.connected = false

-- `==` of the derived `PartialEq`, by the position of the constructor.
abbrev pub index : State → ℕ
index State.idle = 0
index State.discovering = 1
index State.reading_capabilities = 2
index State.configuring = 3
index State.opening = 4
index State.opened = 5
index State.starting = 6
index State.streaming = 7
index State.suspending = 8
index State.failed = 9

abbrev pub in_state : State → State → Bool
in_state a b = index a == index b

pub record SbcConfig : Type 0 where
  pub frequency_channel : ℕ
  pub blocks_subbands_allocation : ℕ
  pub minimum_bitpool : ℕ
  pub maximum_bitpool : ℕ

abbrev pub no_sbc : SbcConfig
no_sbc = record {
  frequency_channel = 0;
  blocks_subbands_allocation = 0;
  minimum_bitpool = 0;
  maximum_bitpool = 0;
}

unfoldable pub joint : SbcConfig → Bool
joint c = not (bit_and c.frequency_channel 0x01 == 0)

pub data Error : Type 0 where
  bad_state bad_packet overflow unsupported : Error
  rejected : ℕ → Error

pub record Source : Type 0 where
  pub generation : ℕ
  pub link : LinkState
  pub state : State
  pub local_seid : ℕ
  pub remote_seid : ℕ
  pub selected_sbc : SbcConfig
  pub delay_reporting : Bool
  pub reported_delay_100us : ℕ
  pub local_in_use : Bool
  pub media_connected : Bool
  pub sinks : List ℕ
  pub sink_count : ℕ
  pub sink_pos : ℕ
  pub last_codec_caps : List ℕ
  pub last_reject : ℕ × ℕ
  pub next_transaction : ℕ
  pub pending_transaction : ℕ
  pub pending_signal : ℕ
  pub fragment_active : Bool
  pub fragment_length : ℕ
  pub fragment_transaction : ℕ
  pub fragment_message : ℕ
  pub fragment_signal : ℕ
  pub fragment_expected_packets : ℕ
  pub fragment_received_packets : ℕ
  pub fragment_payload : List ℕ

unfoldable pub new : ℕ → Source
new generation = record {
  generation = generation;
  link = LinkState.down;
  state = State.idle;
  local_seid = 1;
  remote_seid = 0;
  selected_sbc = no_sbc;
  delay_reporting = false;
  reported_delay_100us = 0;
  local_in_use = false;
  media_connected = false;
  sinks = replicate 8 0;
  sink_count = 0;
  sink_pos = 0;
  last_codec_caps = replicate 6 0;
  last_reject = (0, 0);
  next_transaction = 0;
  pending_transaction = 0;
  pending_signal = 0;
  fragment_active = false;
  fragment_length = 0;
  fragment_transaction = 0;
  fragment_message = 0;
  fragment_signal = 0;
  fragment_expected_packets = 0;
  fragment_received_packets = 0;
  fragment_payload = replicate fragment_capacity 0;
}

-- The source and the caller's output buffer.
pub record Port : Type 0 where
  pub source : Source
  pub out : List ℕ

-- What a method with an output buffer does: the length written, or an error.
abbrev pub Writer : Type 0
Writer = Method Port Error ℕ

-- `seid << 2` in a u8.
abbrev pub shifted : ℕ → ℕ
shifted seid = seid * 4 % 256
