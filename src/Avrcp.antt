-- ===== src/Avrcp.antt =====
-- crates/bluetooth-audio-core/src/avrcp.rs: the AVRCP controller. `Port` pairs it with the output
-- buffer. A transaction that is not live is `no_transaction`, as in the source.
pub mod Transactions
pub mod Receive
pub mod Soundness
pub mod Handshake
use canopus_module_bluetooth.Base.{
  ℕ, zero, suc, ◌+◌, ◌-◌, ◌*◌, ◌/◌, ◌%◌, ◌^◌, min, Bool, true, false, not, ◌&&◌, ◌||◌, List, [],
  ◌∷◌, ◌++◌, length, get_or, take, drop, splice, replicate, ltb, leb, ◌==◌, bytes_eq, if◌then◌else◌,
  Result, ok, err, then_on_ok, Option, none, some, is_some,
}
use canopus_module_bluetooth.Base.Words.{be16, div_ceil, u16_mod, u8_mod}

abbrev pub profile_avrcp : ℕ
profile_avrcp = 0x110e

abbrev pub avc_control : ℕ
avc_control = 0x00

abbrev pub avc_notify : ℕ
avc_notify = 0x03

abbrev pub avc_not_implemented : ℕ
avc_not_implemented = 0x08

abbrev pub avc_accepted : ℕ
avc_accepted = 0x09

abbrev pub avc_rejected : ℕ
avc_rejected = 0x0a

abbrev pub avc_stable : ℕ
avc_stable = 0x0c

abbrev pub avc_changed : ℕ
avc_changed = 0x0d

abbrev pub avc_interim : ℕ
avc_interim = 0x0f

abbrev pub avc_subunit_panel : ℕ
avc_subunit_panel = 0x48

abbrev pub opcode_vendor_dependent : ℕ
opcode_vendor_dependent = 0x00

abbrev pub company_id : List ℕ
company_id = 0x00 ∷ 0x19 ∷ 0x58 ∷ []

abbrev pub pdu_get_capabilities : ℕ
pdu_get_capabilities = 0x10

abbrev pub pdu_register_notification : ℕ
pdu_register_notification = 0x31

abbrev pub pdu_set_absolute_volume : ℕ
pdu_set_absolute_volume = 0x50

abbrev pub event_volume_changed : ℕ
event_volume_changed = 0x0d

abbrev pub no_transaction : ℕ
no_transaction = 0xff

abbrev pub max_volume : ℕ
max_volume = 0x7f

abbrev pub default_volume : ℕ
default_volume = 0x20

pub data State : Type 0 where
  disconnected : State
  ready : State
  waiting_set_volume : State
  waiting_interim : State
  registered : State
  failed : State

pub data Error : Type 0 where
  state_error : Error
  packet_error : Error
  rejected : Error

pub record Controller : Type 0 where
  pub state : State
  pub volume : ℕ
  pub next_transaction : ℕ
  pub control_transaction : ℕ
  pub notification_transaction : ℕ
  pub notification_registered : Bool
  pub target_notification_transaction : ℕ

unfoldable pub new : Controller
new = record {
  state = disconnected;
  volume = default_volume;
  next_transaction = 0;
  control_transaction = no_transaction;
  notification_transaction = no_transaction;
  notification_registered = false;
  target_notification_transaction = no_transaction;
}

pub record Port : Type 0 where
  pub controller : Controller
  pub out : List ℕ

unfoldable pub is_disconnected : State → Bool
is_disconnected disconnected = true
is_disconnected _ = false

-- `Disconnected | Failed`.
unfoldable pub is_off : State → Bool
is_off disconnected = true
is_off failed = true
is_off _ = false

unfoldable pub refresh_state : Controller → Controller
refresh_state c = record c {
  state =
      if not (c.control_transaction == no_transaction)
      then waiting_set_volume
      else if c.notification_transaction == no_transaction
      then ready
      else if c.notification_registered
      then registered
      else waiting_interim;
}

-- The loop of `allocate_transaction`, over the rounds that are left: none is the `unreachable!`.
unfoldable pub allocate : ℕ → Controller → Option ℕ × Controller
allocate zero c = (none, c)
allocate (suc rounds) c =
    let transaction : ℕ = c.next_transaction % 16 in
    let moved : Controller = record c {
      next_transaction = (c.next_transaction + 1) % u8_mod % 16;
    } in
    let rest = allocate rounds moved in
    if not (transaction == c.control_transaction) && not (transaction == c.notification_transaction)
    then (some transaction, moved)
    else rest

unfoldable pub allocate_transaction : Controller → Option ℕ × Controller
allocate_transaction c = allocate 16 c

-- The bytes of a vendor-dependent frame; `direction` is the first byte's command or response bit.
unfoldable pub frame : ℕ → ℕ → ℕ → ℕ → List ℕ → List ℕ
frame transaction direction ctype pdu parameters =
    (transaction * 16 % 256 + direction * 2)
    ∷ (be16 profile_avrcp
        ++ (ctype
            ∷ avc_subunit_panel
            ∷ opcode_vendor_dependent
            ∷ (company_id ++ (pdu ∷ 0 ∷ (be16 (length parameters) ++ parameters)))))

-- The test on the room and on the u16 length.
unfoldable pub no_room : List ℕ → List ℕ → Bool
no_room parameters out =
    ltb (length out) (13 + length parameters) || ltb (u16_mod - 1) (length parameters)

unfoldable pub response : ℕ → ℕ → ℕ → List ℕ → Port → Result Error ℕ × Port
response transaction ctype pdu parameters p =
    if no_room parameters p.out then (err packet_error, p) else (
      ok (13 + length parameters),
      record p { out = splice 0 (frame transaction 1 ctype pdu parameters) p.out },
    )

-- `command` after `allocate_transaction`. The first clause stands for the `unreachable!`, which
-- `allocate_transaction-Allocates` in Transactions is about.
unfoldable pub send_command :
    ℕ → ℕ → List ℕ → List ℕ → Option ℕ × Controller → Result Error (ℕ × ℕ) × Port
send_command ctype pdu parameters out (none, c) =
    (err packet_error, record { controller = c; out = out })
send_command ctype pdu parameters out (some t, c) = (
  ok (13 + length parameters, t),
  record { controller = c; out = splice 0 (frame t 0 ctype pdu parameters) out },
)

unfoldable pub command : ℕ → ℕ → List ℕ → Port → Result Error (ℕ × ℕ) × Port
command ctype pdu parameters p =
    if no_room parameters p.out
    then (err packet_error, p)
    else send_command ctype pdu parameters p.out (allocate_transaction p.controller)

unfoldable pub set_absolute_volume : ℕ → Port → Result Error ℕ × Port
set_absolute_volume volume p =
    if is_off p.controller.state || ltb max_volume volume
    then (err state_error, p)
    else then_on_ok (command avc_control pdu_set_absolute_volume (volume ∷ []) p) λ sent q. (
      ok sent.0,
      record q {
        controller =
            refresh_state (record q.controller { volume = volume; control_transaction = sent.1 });
      },
    )

unfoldable pub connected : ℕ → Port → Result Error ℕ × Port
connected volume p =
    if not (is_disconnected p.controller.state) || ltb max_volume volume
    then (err state_error, p)
    else set_absolute_volume volume
        (record p { controller = record p.controller { state = ready; volume = volume } })

-- `connected_for_volume_sync` and `target_connected`, which have the same body.
unfoldable pub connected_for_volume_sync : ℕ → Port → Result Error (Unit {0}) × Port
connected_for_volume_sync volume p =
    if not (is_disconnected p.controller.state) || ltb max_volume volume
    then (err state_error, p)
    else (ok tt, record p { controller = record p.controller { state = ready; volume = volume } })

unfoldable pub target_volume_changed : ℕ → Port → Result Error ℕ × Port
target_volume_changed volume p =
    let c : Controller = p.controller in
    if is_disconnected c.state || ltb max_volume volume
    then (err state_error, p)
    else if c.target_notification_transaction == no_transaction
    then (ok 0, record p { controller = record c { volume = volume } })
    else response c.target_notification_transaction avc_changed pdu_register_notification
        (event_volume_changed ∷ volume ∷ [])
        (record p {
          controller = record c {
            volume = volume;
            target_notification_transaction = no_transaction;
          };
        })

unfoldable pub register_volume_notification : Port → Result Error ℕ × Port
register_volume_notification p =
    if is_off p.controller.state || not (p.controller.notification_transaction == no_transaction)
    then (err state_error, p)
    else then_on_ok
        (command avc_notify pdu_register_notification (event_volume_changed ∷ 0 ∷ 0 ∷ 0 ∷ 0 ∷ []) p)
        λ sent q. (
          ok sent.0,
          record q {
            controller = refresh_state (record q.controller {
              notification_transaction = sent.1;
              notification_registered = false;
            });
          },
        )

unfoldable pub percent_to_absolute : ℕ → ℕ
percent_to_absolute percent = div_ceil (min percent 100 * max_volume) 100

unfoldable pub absolute_to_percent : ℕ → ℕ
absolute_to_percent volume = div_ceil (min volume max_volume * 100) max_volume

-- The method `disconnected`.
unfoldable pub disconnect : Controller → Controller
disconnect c = new
