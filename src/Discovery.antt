-- ===== src/Discovery.antt =====
-- crates/bluetooth-audio-core/src/discovery.rs and address.rs: the table of discovered devices. An
-- address is the list of its six bytes, and `entries` is the used part of the table's array.
pub mod Order
pub mod Table
use mathlib.Core.List.{reverse}
use canopus_module_bluetooth.Base.{
  ℕ, zero, suc, ◌+◌, ◌-◌, ◌*◌, ◌/◌, ◌%◌, ◌^◌, min, max, bit_and, Bool, true, false, not, ◌&&◌, ◌||◌,
  Option, none, some, List, [], ◌∷◌, length, get_elem?, get_or, take, splice, replicate, ltb, leb,
  ◌==◌, bytes_eq, if◌then◌else◌, ◌++◌,
}
use canopus_module_bluetooth.Base.Words.{wrapping_add, saturating_add, u32_mod}
use canopus_module_bluetooth.Base.Int.{ℤ, ltbℤ, ◌==ℤ◌, pos}

abbrev pub Address : Type 0
Address = List ℕ

unfoldable pub is_zero : Address → Bool
is_zero [] = true
is_zero (b ∷ bs) = b == 0 && is_zero bs

-- `<` on the byte arrays.
unfoldable pub address_lt : Address → Address → Bool
address_lt [] b = false
address_lt (x ∷ xs) [] = false
address_lt (x ∷ xs) (y ∷ ys) = ltb x y || x == y && address_lt xs ys

abbrev pub device_name_capacity : ℕ
device_name_capacity = 64

pub record DeviceName : Type 0 where
  pub bytes : List ℕ
  pub len : ℕ

abbrev pub no_name : DeviceName
no_name = record { bytes = replicate device_name_capacity 0; len = 0 }

-- The loop that drops trailing zero bytes.
unfoldable pub trimmed : List ℕ → ℕ → ℕ
trimmed bytes zero = 0
trimmed bytes (suc n) = if get_or bytes n 0 == 0 then trimmed bytes n else suc n

unfoldable pub from_bytes : List ℕ → DeviceName
from_bytes bytes =
    let len : ℕ = trimmed bytes (min (length bytes) device_name_capacity) in
    record { bytes = splice 0 (take len bytes) (no_name.bytes); len = len }

pub record DiscoveredDevice : Type 0 where
  pub address : Address
  pub name : DeviceName
  pub rssi : ℤ
  pub class_of_device : ℕ
  pub last_seen_epoch : ℕ

-- Service bit 21, or the major class Audio/Video.
unfoldable pub audio_likely : DiscoveredDevice → Bool
audio_likely d =
    not (bit_and d.class_of_device (2 ^ 21) == 0) || d.class_of_device / 256 % 32 == 0x04

unfoldable pub comes_before : DiscoveredDevice → DiscoveredDevice → Bool
comes_before left right =
    if audio_likely left && not (audio_likely right)
    then true
    else if not (audio_likely left) && audio_likely right
    then false
    else if not (left.rssi ==ℤ right.rssi)
    then ltbℤ right.rssi left.rssi
    else address_lt left.address right.address

-- The inner loop of `sort`: the new entry swaps with its left neighbours. The sorted part is held
-- nearest neighbour first.
unfoldable pub sink_left : DiscoveredDevice → List DiscoveredDevice → List DiscoveredDevice
sink_left d [] = d ∷ []
sink_left d (y ∷ ys) = if comes_before d y then y ∷ sink_left d ys else d ∷ y ∷ ys

unfoldable pub sort_loop : List DiscoveredDevice → List DiscoveredDevice → List DiscoveredDevice
sort_loop done [] = reverse done
sort_loop done (d ∷ ds) = sort_loop (sink_left d done) ds

unfoldable pub sort : List DiscoveredDevice → List DiscoveredDevice
sort ds = sort_loop [] ds

abbrev pub discovery_capacity : ℕ
discovery_capacity = 12

pub record DiscoveryTable : Type 0 where
  pub entries : List DiscoveredDevice
  pub epoch : ℕ
  pub dropped : ℕ

abbrev pub empty_table : DiscoveryTable
empty_table = record { entries = []; epoch = 0; dropped = 0 }

unfoldable pub begin_scan : DiscoveryTable → ℕ × DiscoveryTable
begin_scan t =
    let epoch : ℕ = max (wrapping_add t.epoch 1) 1 in
    (epoch, record { entries = []; epoch = epoch; dropped = 0 })

unfoldable pub get : DiscoveryTable → ℕ → Option DiscoveredDevice
get t i = get_elem? t.entries i

unfoldable pub known : Address → List DiscoveredDevice → Bool
known a [] = false
known a (d ∷ ds) = bytes_eq d.address a || known a ds

-- The write at `position(|e| e.address == device.address)`.
unfoldable pub replace_entry : DiscoveredDevice → List DiscoveredDevice → List DiscoveredDevice
replace_entry d [] = []
replace_entry d (e ∷ es) = if bytes_eq e.address d.address then d ∷ es else e ∷ replace_entry d es

unfoldable pub upsert : DiscoveredDevice → DiscoveryTable → Bool × DiscoveryTable
upsert device t =
    let d : DiscoveredDevice = record device { last_seen_epoch = t.epoch } in
    if is_zero device.address
    then (false, t)
    else if known device.address t.entries
    then (true, record t { entries = sort (replace_entry d t.entries) })
    else if length t.entries == discovery_capacity
    then (false, record t { dropped = saturating_add t.dropped 1 })
    else (true, record t { entries = sort (t.entries ++ (d ∷ [])) })
