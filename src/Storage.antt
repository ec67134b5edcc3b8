-- ===== src/Storage.antt =====
-- What the watch remembers: the last headset (crates/bluetooth-audio-core/src/peer.rs and
-- crates/bluetooth-audio-device/src/target/peer_store.rs) and the volume of each headset
-- (crates/bluetooth-audio-device/src/target/volume_store.rs). The files of NuttX are a parameter.
pub mod Peer
pub mod Volume
pub mod Files
use canopus_module_bluetooth.Base.{ℕ, ◌*◌, ◌%◌, bit_xor, List, [], ◌∷◌}
use canopus_module_bluetooth.Base.Words.{u32_mod}

abbrev pub fnv_offset : ℕ
fnv_offset = 0x811c9dc5

abbrev pub fnv_prime : ℕ
fnv_prime = 0x01000193

unfoldable pub checksum_from : ℕ → List ℕ → ℕ
checksum_from hash [] = hash
checksum_from hash (byte ∷ bytes) = checksum_from (bit_xor hash byte * fnv_prime % u32_mod) bytes

unfoldable pub checksum : List ℕ → ℕ
checksum bytes = checksum_from fnv_offset bytes
