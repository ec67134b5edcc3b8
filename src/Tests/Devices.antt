-- ===== src/Tests/Devices.antt =====
-- Two headsets, and a platform that accepts every call.
use canopus_module_bluetooth.Base.{ℕ, true, List, [], ◌∷◌, ok, err}
use canopus_module_bluetooth.Base.Int.{negsuc}
use mathlib.Core.List.{Perm}
use canopus_module_bluetooth.Discovery.{
  Address, DiscoveredDevice, empty_table, no_name, sort, upsert,
}
use canopus_module_bluetooth.Discovery.Order.{IsOrdered, sort-IsOrdered}
use canopus_module_bluetooth.Discovery.Table.{IsTable, upsert-IsTable, empty_table-IsTable}
use canopus_module_bluetooth.Manager.{Platform, pair}
use canopus_module_bluetooth.Manager.Controller.{new}
use canopus_module_bluetooth.Manager.Invariant.{IsSound}
use canopus_module_bluetooth.Manager.Soundness.{
  Call, run, controller-IsSound, on_start_scan, on_discovery_result, on_select,
  on_discovery_stopped, on_bond_complete, on_connected, on_stream_ready, on_disconnect,
}

abbrev headset_address : Address
headset_address = 1 ∷ 2 ∷ 3 ∷ 4 ∷ 5 ∷ 6 ∷ []

abbrev headset : DiscoveredDevice
headset = record {
  address = headset_address;
  name = no_name;
  rssi = negsuc 59;
  class_of_device = 0x240404;
  last_seen_epoch = 0;
}

abbrev phone : DiscoveredDevice
phone = record {
  address = 6 ∷ 5 ∷ 4 ∷ 3 ∷ 2 ∷ 1 ∷ [];
  name = no_name;
  rssi = negsuc 29;
  class_of_device = 0x5a020c;
  last_seen_epoch = 0;
}

sort-IsOrdered_example :
    IsOrdered (sort (phone ∷ headset ∷ []))
    × Perm (sort (phone ∷ headset ∷ [])) (phone ∷ headset ∷ [])
sort-IsOrdered_example = sort-IsOrdered (phone ∷ headset ∷ [])

upsert-IsTable_example : IsTable (upsert headset (upsert phone empty_table).1).1
upsert-IsTable_example =
    upsert-IsTable headset (upsert phone empty_table).1
      (upsert-IsTable phone empty_table empty_table-IsTable)

-- Only `disconnect_avdtp` fails.
abbrev willing : Platform
willing = record {
  State = ℕ;
  Error = ℕ;
  start_discovery = λ t s. (ok tt, s);
  stop_discovery = λ s. (ok tt, s);
  prepare_bond = λ a force s. (ok pair, s);
  create_bond = λ a s. (ok tt, s);
  connect_avdtp = λ a s. (ok tt, s);
  disconnect_avdtp = λ a s. (err 5, s);
  play_test_tone = λ s. (ok tt, s);
}

abbrev pairing_session : List Call
pairing_session =
    on_start_scan
    ∷ on_discovery_result headset
    ∷ on_select 0
    ∷ on_discovery_stopped
    ∷ on_bond_complete headset_address true
    ∷ on_connected headset_address
    ∷ on_stream_ready
    ∷ on_disconnect
    ∷ []

controller-IsSound_example : IsSound (run willing ℕ 0 pairing_session (new willing ℕ 0 7)).model
controller-IsSound_example = controller-IsSound willing ℕ 0 pairing_session 7
