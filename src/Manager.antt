-- ===== src/Manager.antt =====
-- crates/bluetooth-audio-core/src/model.rs and controller.rs: the device manager. The platform,
-- which the controller calls, is a parameter: a state and one method for each of its operations.
-- `details` is a parameter type with its default, as the controller only resets it.
pub mod Controller
pub mod Invariant
pub mod Soundness
use canopus_module_bluetooth.Base.{
  ℕ, ◌+◌, max, Bool, true, false, not, ◌&&◌, ◌||◌, Option, none, some, List, Result, ok, err,
  Method, then_on_ok, if◌then◌else◌, bytes_eq, is_some,
}
use canopus_module_bluetooth.Base.Words.{wrapping_add}
use canopus_module_bluetooth.Base.Int.{ℤ, pos}
use canopus_module_bluetooth.Discovery.{
  Address, DeviceName, DiscoveredDevice, DiscoveryTable, empty_table, begin_scan, upsert, get,
}

pub data ScanState : Type 0 where
  idle : ScanState
  starting : ScanState
  scanning : ScanState
  stopping : ScanState
  scan_failed : ScanState

pub data ConnectionState : Type 0 where
  disconnected : ConnectionState
  waiting_for_scan_stop : ConnectionState
  checking_bond : ConnectionState
  removing_bond : ConnectionState
  pairing : ConnectionState
  connecting : ConnectionState
  configuring : ConnectionState
  ready : ConnectionState
  disconnecting : ConnectionState
  failed : ConnectionState

pub data BondState : Type 0 where
  unknown_bond : BondState
  not_bonded : BondState
  bonding : BondState
  bonded : BondState
  bond_failed : BondState

pub data StreamState : Type 0 where
  stream_idle : StreamState
  discovering : StreamState
  reading_capabilities : StreamState
  stream_configuring : StreamState
  opening : StreamState
  stream_open : StreamState
  stream_starting : StreamState
  streaming : StreamState
  suspending : StreamState
  stream_failed : StreamState

pub record Peer : Type 0 where
  pub address : Address
  pub name : DeviceName
  pub rssi : ℤ
  pub class_of_device : ℕ
  pub bond : BondState

pub data BondPreparation : Type 0 where
  already_bonded : BondPreparation
  pair : BondPreparation
  removing : BondPreparation

-- What the controller needs of the platform.
pub record Platform : Type 1 where
  pub State : Type 0
  pub Error : Type 0
  pub start_discovery : ℕ → Method State Error (Unit {0})
  pub stop_discovery : Method State Error (Unit {0})
  pub prepare_bond : Address → Bool → Method State Error BondPreparation
  pub create_bond : Address → Method State Error (Unit {0})
  pub connect_avdtp : Address → Method State Error (Unit {0})
  pub disconnect_avdtp : Address → Method State Error (Unit {0})
  pub play_test_tone : Method State Error (Unit {0})

pub record Model (D : Type 0) : Type 0 where
  pub generation : ℕ
  pub scan : ScanState
  pub connection : ConnectionState
  pub stream : StreamState
  pub devices : DiscoveryTable
  pub selected : Option Peer
  pub connected : Option Peer
  pub remembered : Option Peer
  pub details : D
  pub last_error : ℤ

unfoldable pub default_model : {D : Type 0} → D → Model D
default_model d = record {
  generation = 1;
  scan = idle;
  connection = disconnected;
  stream = stream_idle;
  devices = empty_table;
  selected = none;
  connected = none;
  remembered = none;
  details = d;
  last_error = pos 0;
}

unfoldable pub touch : {D : Type 0} → Model D → Model D
touch m = record m { generation = max (wrapping_add m.generation 1) 1 }

unfoldable pub is_scanning : ScanState → Bool
is_scanning starting = true
is_scanning scanning = true
is_scanning _ = false

-- `Disconnected | Failed`.
unfoldable pub is_at_rest : ConnectionState → Bool
is_at_rest disconnected = true
is_at_rest failed = true
is_at_rest _ = false

-- `peer.map(|p| p.address) == Some(address)`.
unfoldable pub is_peer : Option Peer → Address → Bool
is_peer none a = false
is_peer (some p) a = bytes_eq p.address a

unfoldable pub is_waiting_for_scan_stop : ConnectionState → Bool
is_waiting_for_scan_stop waiting_for_scan_stop = true
is_waiting_for_scan_stop _ = false

unfoldable pub is_removing_bond : ConnectionState → Bool
is_removing_bond removing_bond = true
is_removing_bond _ = false

unfoldable pub is_pairing : ConnectionState → Bool
is_pairing pairing = true
is_pairing _ = false

unfoldable pub can_play_tone : ConnectionState → StreamState → Bool
can_play_tone ready stream_open = true
can_play_tone _ _ = false
