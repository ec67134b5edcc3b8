-- ===== src/Storage/Peer/File.antt =====
-- crates/bluetooth-audio-device/src/target/peer_store.rs: the file of the last headset. `SAVED` is
-- held with the machine of the firmware.
use canopus_module_bluetooth.Base.{
  Bool, true, false, List, ℕ, [], ◌∷◌, Option, none, some, bytes_eq,
}
use canopus_module_bluetooth.Manager.{Peer}
use canopus_module_bluetooth.Storage.Peer.{encode, decode, record_size}
use canopus_module_bluetooth.Storage.Files.{Nuttx, FilePath, read_file, write_file}

-- "/data/canopus_btaudio_peer.bin", and the path that ends in "tmp".
abbrev stem : FilePath → FilePath
stem ending =
    0x2f ∷ 0x64 ∷ 0x61 ∷ 0x74 ∷ 0x61 ∷ 0x2f ∷ 0x63 ∷ 0x61 ∷ 0x6e ∷ 0x6f ∷ 0x70 ∷ 0x75 ∷ 0x73 ∷ 0x5f
    ∷ 0x62 ∷ 0x74 ∷ 0x61 ∷ 0x75 ∷ 0x64 ∷ 0x69 ∷ 0x6f ∷ 0x5f ∷ 0x70 ∷ 0x65 ∷ 0x65 ∷ 0x72 ∷ 0x2e
    ∷ ending

abbrev pub peer_path : FilePath
peer_path = stem (0x62 ∷ 0x69 ∷ 0x6e ∷ 0 ∷ [])

abbrev pub temp_path : FilePath
temp_path = stem (0x74 ∷ 0x6d ∷ 0x70 ∷ 0 ∷ [])

pub record Store (N : Nuttx) : Type 0 where
  pub saved : Option (List ℕ)
  pub machine : N.Machine

unfoldable pub is_saved : Option (List ℕ) → List ℕ → Bool
is_saved none bytes = false
is_saved (some old) bytes = bytes_eq old bytes

module _ (N : Nuttx) (is_utf8 : List ℕ → Bool) where
  -- A record that decodes is the one that is saved.
  unfoldable pub remember : List ℕ → N.Machine → Option Peer → Option Peer × Store N
  remember bytes m none = (none, record { saved = none; machine = m })
  remember bytes m (some peer) = (some peer, record { saved = some bytes; machine = m })

  unfoldable pub on_read : Option (List ℕ) × N.Machine → Option Peer × Store N
  on_read (none, m) = (none, record { saved = none; machine = m })
  on_read (some bytes, m) = remember bytes m (decode is_utf8 bytes)

  unfoldable pub load : Store N → Option Peer × Store N
  load s = on_read (read_file N peer_path record_size s.machine)

  unfoldable pub on_written : List ℕ → Store N → Bool × N.Machine → Bool × Store N
  on_written bytes s (true, m) = (true, record { saved = some bytes; machine = m })
  on_written bytes s (false, m) = (false, record s { machine = m })

  unfoldable pub flush_new : List ℕ → Store N → Bool → Bool × Store N
  flush_new bytes s true = (true, s)
  flush_new bytes s false = on_written bytes s (write_file N temp_path peer_path bytes s.machine)

  unfoldable pub flush : Option Peer → Store N → Bool × Store N
  flush none s = (true, s)
  flush (some peer) s =
      let bytes : List ℕ = encode is_utf8 peer in flush_new bytes s (is_saved s.saved bytes)
