-- ===== src/Avrcp/Handshake.antt =====
-- Two controllers that talk to each other.
use canopus_module_bluetooth.Base.{
  ℕ, ◌+◌, ◌*◌, ◌/◌, ◌%◌, ◌≤◌, ◌<◌, ◌≡◌, ◌≢◌, refl, true, false, List, [], ◌∷◌, some, ok, length,
  get_or, take, splice, take-splice, ltb, leb, ◌==◌, if◌then◌else◌, arith,
}
use canopus_module_bluetooth.Base.Words.{u16_mod}
use canopus_module_bluetooth.Avrcp.{
  Controller, Port, frame, no_room, refresh_state, is_disconnected, is_off, no_transaction,
  max_volume, response, command, send_command, set_absolute_volume, avc_control, avc_accepted,
  pdu_set_absolute_volume, allocate_transaction,
}
use canopus_module_bluetooth.Avrcp.Soundness.{never_refreshed_off}
use canopus_module_bluetooth.Avrcp.Transactions.{allocate_transaction-Allocates}
use canopus_module_bluetooth.Avrcp.Receive.{
  no_event, volume_is, peer_volume, receive, receive_command, receive_response, receive_vendor,
  receive_volume_answer, accept_volume, bad_header, Reaction,
}

-- What a controller makes of a vendor-dependent frame.
unfoldable pub handled : ℕ → ℕ → ℕ → ℕ → List ℕ → Reaction
handled t direction ctype pdu parameters p =
    if direction == 0
    then receive_command t ctype pdu parameters p
    else receive_response t ctype pdu parameters p

pub receive-frame :
    (t direction ctype pdu : ℕ) (parameters : List ℕ) (p : Port)
    → t < 16
    → direction < 2
    → ctype < 16
    → length parameters < u16_mod
    → is_disconnected p.controller.state ≡ false
    → receive (frame t direction ctype pdu parameters) p
      ≡ handled t direction ctype pdu parameters p
unfolding receive frame bad_header receive_vendor handled
receive-frame t direction ctype pdu parameters p small bit kind long up =
    let packet : List ℕ = frame t direction ctype pdu parameters in
    let n : ℕ = length parameters in
    let label : (t * 16 % 256 + direction * 2) / 16 ≡ t = omega arith in
    let way : (t * 16 % 256 + direction * 2) / 2 % 2 ≡ direction = omega arith in
    let single : (t * 16 % 256 + direction * 2) / 4 % 4 ≡ 0 = omega arith in
    let even : (t * 16 % 256 + direction * 2) % 2 ≡ 0 = omega arith in
    let kept : ctype % 16 ≡ ctype = omega arith in
    let long_enough : ltb (length packet) 6 ≡ false = ground arith in
    let whole_header : ltb (length packet) 13 ≡ false = ground arith in
    let same : (length packet == 13 + (get_or packet 11 0 * 256 + get_or packet 12 0)) ≡ true =
      ground arith in
    rw (up, label, way, single, even, kept, long_enough, whole_header, same) refl

-- The bytes of a SET ABSOLUTE VOLUME, as a command and as its answer.
abbrev volume_frame : ℕ → ℕ → ℕ → ℕ → List ℕ
volume_frame t direction ctype volume =
    frame t direction ctype pdu_set_absolute_volume (volume ∷ [])

accepted :
    (t volume : ℕ) (q : Port)
    → t < 16
    → volume ≤ max_volume
    → 14 ≤ length q.out
    → is_disconnected q.controller.state ≡ false
    → receive (volume_frame t 0 avc_control volume) q ≡ (
      ok (peer_volume volume 14),
      record {
        controller = record q.controller { volume = volume };
        out = splice 0 (volume_frame t 1 avc_accepted volume) q.out;
      },
    )
unfolding handled receive_command accept_volume response no_room
accepted t volume q small quiet room up =
    let fits : leb volume max_volume ≡ true = ground arith in
    let roomy : ltb (length q.out) 14 ≡ false = ground arith in
    rw
      (
        receive-frame t 0 avc_control pdu_set_absolute_volume (volume ∷ []) q small (omega arith)
            (omega arith) (omega arith) up,
        fits,
        roomy,
      )
      refl

answered :
    (t volume : ℕ) (p : Port)
    → t < 16
    → volume ≤ max_volume
    → is_disconnected p.controller.state ≡ false
    → p.controller.control_transaction ≡ t
    → receive (volume_frame t 1 avc_accepted volume) p ≡ (
      ok (volume_is volume),
      record p {
        controller =
            refresh_state
              (record p.controller { control_transaction = no_transaction; volume = volume });
      },
    )
unfolding handled receive_response receive_volume_answer
answered t volume p small quiet up live =
    let fits : leb volume max_volume ≡ true = ground arith in
    let ours : (t == p.controller.control_transaction) ≡ true = ground arith in
    rw
      (
        receive-frame t 1 avc_accepted pdu_set_absolute_volume (volume ∷ []) p small (omega arith)
            (omega arith) (omega arith) up,
        fits,
        ours,
      )
      refl

-- A command that has room is written at the front of the buffer.
command_lem :
    (ctype pdu : ℕ) (parameters : List ℕ) (p : Port)
    → no_room parameters p.out ≡ false
    → (t : ℕ) × (t < 16)
      × (command ctype pdu parameters p ≡ (
        ok (13 + length parameters, t),
        record {
          controller = (allocate_transaction p.controller).1;
          out = splice 0 (frame t 0 ctype pdu parameters) p.out;
        },
      ))
unfolding command send_command
command_lem ctype pdu parameters p room =
    let v = allocate_transaction-Allocates p.controller in
    let whole : allocate_transaction p.controller
        ≡ (some v.label, (allocate_transaction p.controller).1) =
      λ i. (v.allocated i, (allocate_transaction p.controller).1) in
    (v.label, v.in_range, rw (room, whole) refl)

-- The frame that was written is what a peer reads.
read_back :
    (t direction ctype volume : ℕ) (out : List ℕ)
    → 14 ≤ length out
    → take 14 (splice 0 (volume_frame t direction ctype volume) out)
      ≡ volume_frame t direction ctype volume
unfolding frame
read_back t direction ctype volume out h =
    take-splice 0 (volume_frame t direction ctype volume) out h

-- A volume of at most 127, set at a controller that is not off and received by another that is not
-- disconnected, both with 14 bytes of room: the peer reports it and keeps it, and its answer,
-- received back, is reported as that volume, which the first controller keeps with the control
-- transaction ended.
pub volume_exchange :
    (volume : ℕ) (p q : Port)
    → volume ≤ max_volume
    → is_off p.controller.state ≡ false
    → is_disconnected q.controller.state ≡ false
    → 14 ≤ length p.out
    → 14 ≤ length q.out
    → let sent = set_absolute_volume volume p in
      let heard = receive (take 14 sent.1.out) q in
      let confirmed = receive (take 14 heard.1.out) sent.1 in
      (sent.0 ≡ ok 14)
      × (heard.0 ≡ ok (peer_volume volume 14))
      × (heard.1.controller.volume ≡ volume)
      × (confirmed.0 ≡ ok (volume_is volume))
      × (confirmed.1.controller.volume ≡ volume)
      × (confirmed.1.controller.control_transaction ≡ no_transaction)
unfolding set_absolute_volume refresh_state no_room
volume_exchange volume p q quiet on up room room' =
    let fits : ltb max_volume volume ≡ false = ground arith in
    let roomy : ltb (length p.out) 14 ≡ false = ground arith in
    let sent = command_lem avc_control pdu_set_absolute_volume (volume ∷ []) p (rw roomy refl) in
    let t : ℕ = sent.0 in
    let c : Controller = record (allocate_transaction p.controller).1 {
      volume = volume;
      control_transaction = t;
    } in
    let p' : Port = record {
      controller = refresh_state c;
      out = splice 0 (volume_frame t 0 avc_control volume) p.out;
    } in
    rw
      (
        on,
        fits,
        sent.2,
        read_back t 0 avc_control volume p.out room,
        accepted t volume q sent.1 quiet room' up,
        read_back t 1 avc_accepted volume q.out room',
        answered t volume p' sent.1 quiet (never_refreshed_off c) refl,
      )
      (refl, refl, refl, refl, refl, refl)

-- A response frame of up to 65,535 parameter bytes for a label that neither live transaction has
-- changes nothing, and is no event, on a controller that is not disconnected.
pub late_response_ignored :
    (t ctype pdu : ℕ) (parameters : List ℕ) (p : Port)
    → t < 16
    → ctype < 16
    → length parameters < u16_mod
    → is_disconnected p.controller.state ≡ false
    → t ≢ p.controller.control_transaction
    → t ≢ p.controller.notification_transaction
    → receive (frame t 1 ctype pdu parameters) p ≡ (ok no_event, p)
unfolding handled receive_response
late_response_ignored t ctype pdu parameters p small kind long up not_control not_notification =
    let c : Controller = p.controller in
    let other : (t == c.control_transaction) ≡ false = ground (arith, not_control) in
    let another : (t == c.notification_transaction) ≡ false = ground (arith, not_notification) in
    rw (receive-frame t 1 ctype pdu parameters p small (omega arith) kind long up, other, another)
      (ground arith)
