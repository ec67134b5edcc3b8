-- ===== src/Tests/Link.antt =====
-- Signaling with a sink, and its remote control.
use canopus_module_bluetooth.Base.{
  ◌≤◌, ◌+◌, ℕ, ◌≡◌, refl, false, List, [], ◌∷◌, ◌++◌, length, replicate, arith, take, ok, All,
}
use canopus_module_bluetooth.Avdtp
use canopus_module_bluetooth.Avrcp
use canopus_module_bluetooth.Avrcp.Receive
use canopus_module_bluetooth.Avrcp.Receive.{peer_volume, volume_is, no_event}
use canopus_module_bluetooth.Avrcp.Handshake.{volume_exchange, late_response_ignored}
use canopus_module_bluetooth.Avrcp.Soundness
use canopus_module_bluetooth.Avrcp.Soundness.Runs
use canopus_module_bluetooth.Avrcp.Soundness.Runs.{remote-IsSound}
use canopus_module_bluetooth.Avrcp.Transactions.{
  Allocates, allocate_transaction-Allocates, percent_within_one,
}
use canopus_module_bluetooth.Avdtp.{
  Source, Port, LinkState, fragment_capacity, msg_accept, msg_command, signal_discover,
}
use canopus_module_bluetooth.Avdtp.Remote.{remote_command}
use canopus_module_bluetooth.Avdtp.Remote.Replies.{Replies, remote_command-Replies}
use canopus_module_bluetooth.Avdtp.Receive.{dispatch, receive}
use canopus_module_bluetooth.Avdtp.Receive.Fragments.{
  receive_all, fragmented, joined, whole, with_buffer, reassembly,
}
use canopus_module_bluetooth.Avdtp.Soundness.{IsSound}
use canopus_module_bluetooth.Avdtp.Soundness.Runs.{connects, receives, run, source-IsSound}

abbrev linked : Port
linked = record {
  source = record (Avdtp.new 3) { link = LinkState.connected };
  out = replicate 20 0;
}

linked_up : Avdtp.is_down linked.source.link ≡ false
linked_up = refl

linked_quiet : linked.source.fragment_active ≡ false
unfolding Avdtp.new
linked_quiet = refl

linked_size : length linked.source.fragment_payload ≡ fragment_capacity
unfolding Avdtp.new
linked_size = refl

-- DISCOVER in three packets.
reassembly_example :
    let payload = (9 ∷ []) ++ joined ((8 ∷ []) ∷ []) (7 ∷ []) in
    (buffer : List ℕ) × (length buffer ≡ fragment_capacity)
    × (receive_all
          (fragmented 2 msg_command signal_discover (9 ∷ []) ((8 ∷ []) ∷ []) (7 ∷ []))
          linked
        ≡ dispatch 2 msg_command signal_discover payload (with_buffer buffer linked))
    × (receive (whole 2 msg_command signal_discover payload) linked
        ≡ dispatch 2 msg_command signal_discover payload linked)
reassembly_example =
    reassembly 2 msg_command signal_discover (9 ∷ []) ((8 ∷ []) ∷ []) (7 ∷ []) linked (omega arith)
      (omega arith) (omega arith) (omega arith) (omega arith) (omega arith) linked_up linked_quiet
      linked_size

remote_command-Replies_example :
    Replies 5 signal_discover linked (remote_command 5 signal_discover [] linked)
remote_command-Replies_example = remote_command-Replies 5 signal_discover linked (omega arith) []

-- The sink's answer to DISCOVER lists one free audio sink.
source-IsSound_example : IsSound (
    run
      (Avdtp.new 3)
      (connects (replicate 20 0) ∷ receives (0x02 ∷ 0x01 ∷ 0x04 ∷ 0x08 ∷ []) (replicate 20 0) ∷ []))
source-IsSound_example =
    source-IsSound 3
      (connects (replicate 20 0) ∷ receives (0x02 ∷ 0x01 ∷ 0x04 ∷ 0x08 ∷ []) (replicate 20 0) ∷ [])

-- The next two labels are live.
abbrev busy_remote : Avrcp.Controller
busy_remote = record Avrcp.new {
  next_transaction = 15;
  control_transaction = 15;
  notification_transaction = 0;
}

allocate_transaction-Allocates_example :
    Allocates busy_remote (Avrcp.allocate_transaction busy_remote)
allocate_transaction-Allocates_example = allocate_transaction-Allocates busy_remote

percent_within_one_example :
    (7 ≤ Avrcp.absolute_to_percent (Avrcp.percent_to_absolute 7))
    × (Avrcp.absolute_to_percent (Avrcp.percent_to_absolute 7) ≤ 7 + 1)
percent_within_one_example = percent_within_one 7 (omega arith)

-- A remote that is connected, with room for a frame, and one that has nothing live.
abbrev near_remote : Avrcp.Port
near_remote = record {
  controller = record Avrcp.new { state = Avrcp.State.ready };
  out = replicate 14 0;
}

abbrev far_remote : Avrcp.Port
far_remote = record {
  controller = record Avrcp.new { state = Avrcp.State.registered };
  out = replicate 14 0;
}

near_on : Avrcp.is_off near_remote.controller.state ≡ false
unfolding Avrcp.is_off
near_on = refl

far_up : Avrcp.is_disconnected far_remote.controller.state ≡ false
unfolding Avrcp.is_disconnected
far_up = refl

volume_exchange_example :
    let sent = Avrcp.set_absolute_volume 40 near_remote in
    let heard = Receive.receive (take 14 sent.1.out) far_remote in
    let confirmed = Receive.receive (take 14 heard.1.out) sent.1 in
    (sent.0 ≡ ok 14)
    × (heard.0 ≡ ok (peer_volume 40 14))
    × (heard.1.controller.volume ≡ 40)
    × (confirmed.0 ≡ ok (volume_is 40))
    × (confirmed.1.controller.volume ≡ 40)
    × (confirmed.1.controller.control_transaction ≡ Avrcp.no_transaction)
volume_exchange_example =
    volume_exchange 40 near_remote far_remote (omega arith) near_on far_up (omega arith)
      (omega arith)

late_response_ignored_example :
    Receive.receive (Avrcp.frame 3 1 0x09 0x50 (40 ∷ [])) far_remote ≡ (ok no_event, far_remote)
unfolding Avrcp.new
late_response_ignored_example =
    late_response_ignored 3 0x09 0x50 (40 ∷ []) far_remote (omega arith) (omega arith) (omega arith)
      far_up (omega arith) (omega arith)

remote_bytes : All Runs.HasBytes (
    Runs.connects 20 (replicate 14 0)
    ∷ Runs.receives (0x02 ∷ 0x11 ∷ 0x0e ∷ 0x0a ∷ 0x48 ∷ 0x00 ∷ []) []
    ∷ [])
unfolding Runs.HasBytes
remote_bytes = (
  tt,
  (
    (omega arith, (omega arith, (omega arith, (omega arith, (omega arith, (omega arith, tt)))))),
    tt,
  ),
)

-- The peer refuses a volume that was never sent.
remote-IsSound_example : Avrcp.Soundness.IsSound (
    Runs.run Avrcp.new (
      Runs.connects 20 (replicate 14 0)
      ∷ Runs.receives (0x02 ∷ 0x11 ∷ 0x0e ∷ 0x0a ∷ 0x48 ∷ 0x00 ∷ []) []
      ∷ []))
remote-IsSound_example =
    remote-IsSound
      (Runs.connects 20 (replicate 14 0)
        ∷ Runs.receives (0x02 ∷ 0x11 ∷ 0x0e ∷ 0x0a ∷ 0x48 ∷ 0x00 ∷ []) []
        ∷ [])
      remote_bytes
