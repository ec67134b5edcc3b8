-- ===== src/Avrcp/Receive.antt =====
-- `receive`: the packets of the peer.
use canopus_module_bluetooth.Base.{
  ℕ, ◌+◌, ◌*◌, ◌/◌, ◌%◌, Bool, true, false, not, ◌&&◌, ◌||◌, List, [], ◌∷◌, Option, none, some,
  is_some, Result, ok, err, then_on_ok, length, get_or, take, drop, splice, ltb, leb, ◌==◌,
  bytes_eq, if◌then◌else◌,
}
use canopus_module_bluetooth.Avrcp.{
  Controller, Port, Error, packet_error, rejected, response, refresh_state, is_disconnected,
  profile_avrcp, avc_control, avc_notify, avc_not_implemented, avc_accepted, avc_rejected,
  avc_stable, avc_changed, avc_interim, avc_subunit_panel, opcode_vendor_dependent, company_id,
  pdu_get_capabilities, pdu_register_notification, pdu_set_absolute_volume, event_volume_changed,
  no_transaction, max_volume,
}

abbrev pub opcode_pass_through : ℕ
opcode_pass_through = 0x7c

abbrev pub operation_play : ℕ
operation_play = 0x44

abbrev pub operation_pause : ℕ
operation_pause = 0x46

abbrev pub operation_forward : ℕ
operation_forward = 0x4b

abbrev pub operation_backward : ℕ
operation_backward = 0x4c

abbrev pub capability_company_id : ℕ
capability_company_id = 0x02

abbrev pub capability_events_supported : ℕ
capability_events_supported = 0x03

pub data MediaControl : Type 0 where
  play : MediaControl
  pause : MediaControl
  next : MediaControl
  previous : MediaControl

pub data Event : Type 0 where
  no_event : Event
  volume_is : ℕ → Event
  reregister : Event
  peer_command : ℕ → Event
  peer_volume : ℕ → ℕ → Event
  peer_control : MediaControl → ℕ → Event

abbrev pub Reaction : Type 0
Reaction = Port → Result Error Event × Port

unfoldable pub control_of : ℕ → Option MediaControl
control_of operation =
    if operation == operation_play
    then some play
    else if operation == operation_pause
    then some pause
    else if operation == operation_forward
    then some next
    else if operation == operation_backward
    then some previous
    else none

-- The packet with its first byte and its type replaced.
unfoldable pub pass_through_response : ℕ → ℕ → List ℕ → Port → Result Error ℕ × Port
pass_through_response transaction ctype packet p =
    if ltb (length p.out) (length packet) then (err packet_error, p) else (
      ok (length packet),
      record p {
        out =
            splice 3 (ctype ∷ [])
              (splice 0 ((transaction * 16 % 256 + 2) ∷ []) (splice 0 packet p.out));
      },
    )

-- The event of a pass-through operation that was answered in `len` bytes.
unfoldable pub pass_through_event : Option MediaControl → Bool → ℕ → Event
pass_through_event (some control) false len = peer_control control len
pass_through_event (some control) true len = peer_command len
pass_through_event none released len = peer_command len

unfoldable pub receive_pass_through : ℕ → ℕ → List ℕ → Reaction
receive_pass_through transaction ctype packet p =
    let released : Bool = not (get_or packet 6 0 / 128 % 2 == 0) in
    let control : Option MediaControl = control_of (get_or packet 6 0 % 128) in
    let answer : ℕ = if is_some control then avc_accepted else avc_not_implemented in
    if not (ctype == avc_control) || ltb (length packet) 8
    then (err packet_error, p)
    else if not (length packet == 8 + get_or packet 7 0)
    then (err packet_error, p)
    else then_on_ok (pass_through_response transaction answer packet p)
        λ len q. (ok (pass_through_event control released len), q)

-- An answer to the peer that is no more than a command to send.
unfoldable pub answer_command : ℕ → ℕ → ℕ → List ℕ → Reaction
answer_command transaction ctype pdu parameters p =
    then_on_ok (response transaction ctype pdu parameters p) λ len q. (ok (peer_command len), q)

-- The volume is kept before the answer is written.
unfoldable pub accept_volume : ℕ → ℕ → ℕ → Reaction
accept_volume transaction pdu volume p =
    then_on_ok
      (response transaction avc_accepted pdu (volume ∷ [])
        (record p { controller = record p.controller { volume = volume } }))
      λ len q. (ok (peer_volume volume len), q)

unfoldable pub receive_command : ℕ → ℕ → ℕ → List ℕ → Reaction
receive_command transaction ctype pdu parameters p =
    let c : Controller = p.controller in
    let volume : ℕ = get_or parameters 0 0 in
    let refusal : ℕ =
      if pdu == pdu_get_capabilities
        || pdu == pdu_set_absolute_volume
        || pdu == pdu_register_notification
      then avc_rejected
      else avc_not_implemented in
    if ctype == 0x01
      && pdu == pdu_get_capabilities
      && bytes_eq parameters (capability_company_id ∷ [])
    then answer_command transaction avc_stable pdu (capability_company_id ∷ 1 ∷ company_id) p
    else if ctype == 0x01
        && pdu == pdu_get_capabilities
        && bytes_eq parameters (capability_events_supported ∷ [])
    then answer_command transaction avc_stable pdu
        (capability_events_supported ∷ 1 ∷ event_volume_changed ∷ []) p
    else if ctype == avc_control
        && pdu == pdu_set_absolute_volume
        && length parameters == 1
        && leb volume max_volume
    then accept_volume transaction pdu volume p
    else if ctype == avc_notify
        && pdu == pdu_register_notification
        && length parameters == 5
        && volume == event_volume_changed
    then answer_command transaction avc_interim pdu (event_volume_changed ∷ c.volume ∷ [])
        (record p { controller = record c { target_notification_transaction = transaction } })
    else answer_command transaction refusal pdu parameters p

-- A notification response with an event and a volume, for the transaction that is live.
unfoldable pub receive_notification : ℕ → ℕ → Reaction
receive_notification ctype volume p =
    let c : Controller = record p.controller { volume = volume } in
    if ctype == avc_interim && not c.notification_registered
    then (
      ok (volume_is volume),
      record p { controller = refresh_state (record c { notification_registered = true }) },
    )
    else if ctype == avc_changed && c.notification_registered
    then (
      ok reregister,
      record p {
        controller = refresh_state (record c {
          notification_transaction = no_transaction;
          notification_registered = false;
        });
      },
    )
    else (err rejected, record p { controller = c })

unfoldable pub is_refusal : ℕ → Bool
is_refusal ctype = ctype == avc_rejected || ctype == avc_not_implemented

-- An answer to the live SET ABSOLUTE VOLUME.
unfoldable pub receive_volume_answer : ℕ → List ℕ → Reaction
receive_volume_answer ctype parameters p =
    let c : Controller = record p.controller { control_transaction = no_transaction } in
    let volume : ℕ = get_or parameters 0 0 in
    if ctype == avc_accepted && length parameters == 1 && leb volume max_volume
    then (
      ok (volume_is volume),
      record p { controller = refresh_state (record c { volume = volume }) },
    )
    else if is_refusal ctype
    then (err rejected, record p { controller = refresh_state c })
    else (err rejected, p)

unfoldable pub receive_response : ℕ → ℕ → ℕ → List ℕ → Reaction
receive_response transaction ctype pdu parameters p =
    let c : Controller = p.controller in
    if pdu == pdu_register_notification
      && transaction == c.notification_transaction
      && length parameters == 2
      && get_or parameters 0 0 == event_volume_changed
    then receive_notification ctype (get_or parameters 1 0 % 128) p
    else if pdu == pdu_register_notification
        && transaction == c.notification_transaction
        && is_refusal ctype
    then (
      err rejected,
      record p {
        controller = refresh_state (record c {
          notification_transaction = no_transaction;
          notification_registered = false;
        });
      },
    )
    else if pdu == pdu_set_absolute_volume && transaction == c.control_transaction
    then receive_volume_answer ctype parameters p
    else (ok no_event, p)

-- The tests on the AVCTP header.
unfoldable pub bad_header : List ℕ → Bool
bad_header packet =
    not (get_or packet 0 0 / 4 % 4 == 0)
    || not (get_or packet 0 0 % 2 == 0)
    || not (get_or packet 1 0 * 256 + get_or packet 2 0 == profile_avrcp)
    || not (get_or packet 4 0 == avc_subunit_panel)

-- A vendor-dependent frame, past its opcode.
unfoldable pub receive_vendor : ℕ → ℕ → ℕ → List ℕ → Reaction
receive_vendor transaction direction ctype packet p =
    let pdu : ℕ = get_or packet 9 0 in
    let parameter_length : ℕ = get_or packet 11 0 * 256 + get_or packet 12 0 in
    if ltb (length packet) 13 || not (get_or packet 5 0 == opcode_vendor_dependent)
    then (err packet_error, p)
    else if not (length packet == 13 + parameter_length)
    then (err packet_error, p)
    else if not (bytes_eq (take 3 (drop 6 packet)) company_id) || not (get_or packet 10 0 % 4 == 0)
    then (err packet_error, p)
    else if direction == 0
    then receive_command transaction ctype pdu (drop 13 packet) p
    else receive_response transaction ctype pdu (drop 13 packet) p

unfoldable pub receive : List ℕ → Reaction
receive packet p =
    let transaction : ℕ = get_or packet 0 0 / 16 in
    let direction : ℕ = get_or packet 0 0 / 2 % 2 in
    let ctype : ℕ = get_or packet 3 0 % 16 in
    if ltb (length packet) 6 || is_disconnected p.controller.state
    then (err packet_error, p)
    else if bad_header packet
    then (err packet_error, p)
    else if get_or packet 5 0 == opcode_pass_through
    then (if direction == 0
        then receive_pass_through transaction ctype packet p
        else (ok no_event, p))
    else receive_vendor transaction direction ctype packet p
