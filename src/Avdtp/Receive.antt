-- ===== src/Avdtp/Receive.antt =====
-- `receive`, its reassembly of fragmented messages, and `dispatch`.
pub mod Fragments
use canopus_module_bluetooth.Base.{
  ℕ, ◌+◌, ◌/◌, ◌%◌, true, false, not, ◌&&◌, ◌||◌, List, length, take, drop, splice, get_or, ltb,
  leb, ◌==◌, if◌then◌else◌, ok, err,
}
use canopus_module_bluetooth.Avdtp.{
  Port, Source, Writer, bad_packet, overflow, is_down, max_sdu, fragment_capacity, packet_single,
  packet_start, packet_continue, packet_end, msg_accept, msg_reject, msg_general_reject,
  msg_command,
}
use canopus_module_bluetooth.Avdtp.Answers.{accept, reject, is_nil}
use canopus_module_bluetooth.Avdtp.Remote.{remote_command}

unfoldable pub dispatch : ℕ → ℕ → ℕ → List ℕ → Writer
dispatch transaction message signal payload p =
    if message == msg_accept
    then accept transaction signal payload p
    else if message == msg_reject || message == msg_general_reject
    then reject transaction signal payload p
    else if message == msg_command
    then remote_command transaction signal payload p
    else (err bad_packet, p)

unfoldable pub reset_fragment : Source → Source
reset_fragment s = record s {
  fragment_active = false;
  fragment_length = 0;
  fragment_transaction = 0;
  fragment_message = 0;
  fragment_signal = 0;
  fragment_expected_packets = 0;
  fragment_received_packets = 0;
}

abbrev reset_port : Port → Port
reset_port p = record p { source = reset_fragment (p.source) }

unfoldable pub receive_start : ℕ → ℕ → List ℕ → Writer
receive_start transaction message packet p =
    if p.source.fragment_active
    then (err bad_packet, reset_port p)
    else if ltb (length packet) 3 || ltb (get_or packet 1 0) 2 || not (get_or packet 2 0 / 64 == 0)
    then (err bad_packet, p)
    else let payload : List ℕ = drop 3 packet in
      if ltb fragment_capacity (length payload) then (err overflow, p) else (
        ok 0,
        record p {
          source = record (p.source) {
            fragment_active = true;
            fragment_length = length payload;
            fragment_transaction = transaction;
            fragment_message = message;
            fragment_signal = get_or packet 2 0 % 64;
            fragment_expected_packets = get_or packet 1 0;
            fragment_received_packets = 1;
            fragment_payload = splice 0 payload p.source.fragment_payload;
          };
        },
      )

-- The dispatch of an assembled message: its fields are read before the reset.
unfoldable pub finish_fragment : Writer
finish_fragment p =
    let s : Source = p.source in
    dispatch s.fragment_transaction s.fragment_message s.fragment_signal
      (take s.fragment_length s.fragment_payload) (reset_port p)

unfoldable pub receive_more : ℕ → ℕ → ℕ → List ℕ → Writer
receive_more packet_type transaction message packet p =
    let s : Source = p.source in
    if not s.fragment_active
      || not (transaction == s.fragment_transaction)
      || not (message == s.fragment_message)
    then (err bad_packet, reset_port p)
    else let next_packet : ℕ = s.fragment_received_packets + 1 in
      if packet_type == packet_continue && leb s.fragment_expected_packets next_packet
        || packet_type == packet_end && not (next_packet == s.fragment_expected_packets)
      then (err bad_packet, reset_port p)
      else let fragment : List ℕ = drop 1 packet in
        let new_length : ℕ = s.fragment_length + length fragment in
        if ltb fragment_capacity new_length
        then (err overflow, reset_port p)
        else let p1 : Port = record p {
          source = record s {
            fragment_payload = splice s.fragment_length fragment s.fragment_payload;
            fragment_length = new_length;
            fragment_received_packets = next_packet;
          };
        } in
          if packet_type == packet_continue
          then (ok 0, p1)
          else if not (packet_type == packet_end)
          then (err bad_packet, reset_port p1)
          else finish_fragment p1

unfoldable pub receive : List ℕ → Writer
receive packet p =
    if is_down p.source.link || is_nil packet || ltb max_sdu (length packet)
    then (err bad_packet, reset_port p)
    else let first : ℕ = get_or packet 0 0 in
      let transaction : ℕ = first / 16 in
      let packet_type : ℕ = first / 4 % 4 in
      let message : ℕ = first % 4 in
      if packet_type == packet_single
      then (if p.source.fragment_active
          then (err bad_packet, reset_port p)
          else if ltb (length packet) 2 || not (get_or packet 1 0 / 64 == 0)
          then (err bad_packet, p)
          else dispatch transaction message (get_or packet 1 0 % 64) (drop 2 packet) p)
      else if packet_type == packet_start
      then receive_start transaction message packet p
      else receive_more packet_type transaction message packet p
