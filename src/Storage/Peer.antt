-- ===== src/Storage/Peer.antt =====
-- The record of the last headset, and its file. The test whether bytes are UTF-8 is a parameter.
pub mod RoundTrip
pub mod File
pub mod Restart
use canopus_module_bluetooth.Base.{
  ℕ, ◌+◌, ◌%◌, Bool, true, false, not, ◌||◌, List, [], ◌∷◌, replicate, splice, take, drop, length,
  get_or, ltb, ◌==◌, bytes_eq, Option, some, none, if◌then◌else◌,
}
use canopus_module_bluetooth.Base.Words.{le32, from_le32, u8_mod}
use canopus_module_bluetooth.Base.Int.{pos}
use canopus_module_bluetooth.Discovery.{DeviceName, device_name_capacity, from_bytes, is_zero}
use canopus_module_bluetooth.Manager.{Peer, bonded}
use canopus_module_bluetooth.Storage.{checksum}

abbrev pub record_size : ℕ
record_size = 84

-- "BAP1".
abbrev pub magic : List ℕ
magic = 0x42 ∷ 0x41 ∷ 0x50 ∷ 0x31 ∷ []

-- "未知耳机".
abbrev pub unknown_name : List ℕ
unknown_name =
    0xe6 ∷ 0x9c ∷ 0xaa ∷ 0xe7 ∷ 0x9f ∷ 0xa5 ∷ 0xe8 ∷ 0x80 ∷ 0xb3 ∷ 0xe6 ∷ 0x9c ∷ 0xba ∷ []

module _ (is_utf8 : List ℕ → Bool) where
  unfoldable pub as_str : DeviceName → List ℕ
  as_str name =
      let bytes : List ℕ = take name.len name.bytes in if is_utf8 bytes then bytes else unknown_name

  -- The record without its checksum.
  unfoldable pub unsummed : Peer → List ℕ
  unsummed peer =
      let name : List ℕ = as_str peer.name in
      let zeros : List ℕ = replicate record_size 0 in
      let marked : List ℕ = splice 4 peer.address (splice 0 magic zeros) in
      let sized : List ℕ = splice 10 ((length name % u8_mod) ∷ []) marked in
      splice 16 name (splice 12 (le32 peer.class_of_device) sized)

  unfoldable pub encode : Peer → List ℕ
  encode peer =
      let record' : List ℕ = unsummed peer in splice 80 (le32 (checksum (take 80 record'))) record'

  unfoldable pub decode : List ℕ → Option Peer
  decode bytes =
      let len : ℕ = get_or bytes 10 0 in
      let address : List ℕ = take 6 (drop 4 bytes) in
      let name : List ℕ = take len (drop 16 bytes) in
      if not (length bytes == record_size) || not (bytes_eq (take 4 bytes) magic)
      then none
      else if ltb device_name_capacity len
          || is_zero address
          || not (from_le32 (drop 80 bytes) == checksum (take 80 bytes))
          || not (is_utf8 name)
      then none
      else some (record {
        address = address;
        name = from_bytes name;
        rssi = pos 0;
        class_of_device = from_le32 (take 4 (drop 12 bytes));
        bond = bonded;
      })
