-- ===== src/Tests/Storages.antt =====
-- A disk that holds files by path, and what the watch remembers on it.
use canopus_module_bluetooth.Base.{
  ℕ, ◌≡◌, ◌≢◌, refl, ap, inl, Bool, true, false, List, [], ◌∷◌, ◌++◌, drop, length, take, Option,
  some, none, arith, get_or, bytes_eq, bytes_eq→eq, bytes_eq_refl, if◌then◌else◌, Bool-cases, inr,
  min,
}
use canopus_module_bluetooth.Base.Int.{ℤ, pos, negsuc}
use canopus_module_bluetooth.Discovery.{from_bytes, trimmed, is_zero}
use canopus_module_bluetooth.Manager.{Peer, bonded}
use canopus_module_bluetooth.Storage.Files.{
  Nuttx, IsDisk, IsReadable, FilePath, Replaces, read_file, write_file, write_file-Replaces,
}
use canopus_module_bluetooth.Storage.Peer.{record_size, encode, decode, unsummed, as_str}
use canopus_module_bluetooth.Storage.Peer.File.{
  peer_path, Store, flush, load, flush_new, is_saved, on_written,
}
use canopus_module_bluetooth.Storage.Peer.RoundTrip.{IsName, remembered, decode-encode}
use canopus_module_bluetooth.Storage.Peer.Restart.{peer_survives}
use canopus_module_bluetooth.Storage.Volume
use canopus_module_bluetooth.Storage.Volume.{volume_path, file_size, new_file, volume_limit}
use canopus_module_bluetooth.Storage.Volume.Entries.{without}
use canopus_module_bluetooth.Storage.Volume.Recent.Sealed.{
  Holds, own_record, records_of, new_file-Holds,
}
use canopus_module_bluetooth.Storage.Volume.Restart.{volume_survives}

-- The files, and the one that is open.
record Files : Type 0 where
  pub at : FilePath → Option (List ℕ)
  pub path : FilePath

abbrev put : FilePath → Option (List ℕ) → (FilePath → Option (List ℕ)) → FilePath → Option (List ℕ)
put path o at other = if bytes_eq other path then o else at other

abbrev fd_of : Option (List ℕ) → ℤ
fd_of none = negsuc 1
fd_of (some bytes) = pos 3

abbrev bytes_of : Option (List ℕ) → List ℕ
bytes_of none = []
bytes_of (some bytes) = bytes

abbrev disk : Nuttx
disk = record {
  Machine = Files;
  open_file = λ path m. (fd_of (m.at path), record m { path = path });
  create = λ path flags mode m.
      (pos 3, record { at = put path (some (bytes_of (m.at path))) m.at; path = path });
  read = λ fd size m. (pos (length (bytes_of (m.at m.path))), bytes_of (m.at m.path), m);
  write = λ fd bytes m. (
    pos (length bytes),
    record m {
      at = put m.path (some (bytes ++ drop (length bytes) (bytes_of (m.at m.path)))) m.at;
    },
  );
  close = λ fd m. (pos 0, m);
  unlink = λ path m. (pos 0, record m { at = put path none m.at });
  rename = λ temp path m. (pos 0, record m { at = put path (m.at temp) (put temp none m.at) });
}

other_path : (path temp : FilePath) → path ≢ temp → bytes_eq path temp ≡ false
other_path path temp apart = elim (Bool-cases (bytes_eq path temp)) [
  | inl e ↦ absurd (apart (bytes_eq→eq path temp e))
  | inr e ↦ e
]

disk-IsDisk : IsDisk disk
disk-IsDisk = record {
  contents = λ m path. m.at path;
  reads = λ path bytes size m h up whole. rw h refl;
  unlink_removes = λ path m done. rw (bytes_eq_refl path) refl;
  unlink_missing = λ path m missing. rw (bytes_eq_refl path) refl;
  unlink_keeps = λ path temp m apart. rw (other_path path temp apart) refl;
  create_keeps = λ path temp flags mode m apart. rw (other_path path temp apart) refl;
  create_makes = λ temp mode m missing up. rw (bytes_eq_refl temp, missing) refl;
  write_keeps = λ path temp flags mode bytes m apart. rw (other_path path temp apart) refl;
  write_saves = λ temp mode bytes old m up held whole. rw (held, bytes_eq_refl temp) refl;
  close_keeps = λ path fd m. refl;
  rename_moves = λ temp path m done. rw (bytes_eq_refl path) refl;
  rename_fails = λ temp path m failed. absurd cc;
}

abbrev blank : Files
blank = record { at = λ _. none; path = [] }

abbrev here : FilePath
here = 1 ∷ []

abbrev there : FilePath
there = 2 ∷ []

apart_paths : here ≢ there
apart_paths e = let same : 1 ≡ 2 = ap (λ path. get_or path 0 0) e in omega (arith, same)

-- A longer temporary file is left over, and its removal succeeds.
abbrev littered : Files
littered = record { at = put there (some (9 ∷ 9 ∷ 9 ∷ [])) (λ _. none); path = [] }

write_file-Replaces_example :
    Replaces disk here
      (7 ∷ 8 ∷ [])
      disk-IsDisk
      littered
      (write_file disk there here (7 ∷ 8 ∷ []) littered)
write_file-Replaces_example =
    write_file-Replaces disk disk-IsDisk there here (7 ∷ 8 ∷ []) littered apart_paths (inr refl)

abbrev any_text : List ℕ → Bool
any_text bytes = true

abbrev buds : Peer
buds = record {
  address = 1 ∷ 2 ∷ 3 ∷ 4 ∷ 5 ∷ 6 ∷ [];
  name = from_bytes (0x42 ∷ 0x75 ∷ 0x64 ∷ 0x73 ∷ []);
  rssi = negsuc 59;
  class_of_device = 0x240404;
  bond = bonded;
}

buds_name : IsName buds.name
unfolding from_bytes trimmed
buds_name = record { array = refl; within = omega arith }

buds_address : is_zero buds.address ≡ false
unfolding is_zero
buds_address = refl

decode-encode_example : decode any_text (encode any_text buds) ≡ some (remembered any_text buds)
decode-encode_example = decode-encode any_text buds refl refl buds_address buds_name

abbrev empty_store : Store disk
empty_store = record { saved = none; machine = blank }

abbrev flushed : Files
flushed = (flush disk any_text (some buds) empty_store).1.machine

flush_succeeds : (flush disk any_text (some buds) empty_store).0 ≡ true
unfolding flush flush_new is_saved on_written write_file encode unsummed as_str from_bytes trimmed
flush_succeeds = refl

buds-IsReadable : IsReadable disk peer_path record_size flushed
unfolding flush flush_new is_saved on_written write_file encode unsummed as_str from_bytes trimmed
buds-IsReadable = (refl, refl)

peer_survives_example :
    (load disk any_text (record (flush disk any_text (some buds) empty_store).1 { saved = none })).0
    ≡ some (remembered any_text buds)
peer_survives_example =
    peer_survives disk disk-IsDisk any_text buds empty_store none refl refl buds_address buds_name
      (inl refl) (inr refl) flush_succeeds buds-IsReadable

abbrev headset : List ℕ
headset = 1 ∷ 2 ∷ 3 ∷ 4 ∷ 5 ∷ 6 ∷ []

new_file-Holds_example :
    Holds
      (take 8 (own_record headset 99 ∷ without headset (records_of none)))
      (new_file headset 99 none)
new_file-Holds_example = new_file-Holds headset 99 none refl (λ file e. absurd cc)

store_succeeds : (Volume.store disk headset 99 blank).0 ≡ true
unfolding Volume.store Volume.read_valid Volume.checked read_file write_file new_file Volume.sealed
    Volume.copy_records Volume.first_record
store_succeeds = refl

stored-IsReadable : IsReadable disk volume_path file_size (Volume.store disk headset 99 blank).1
unfolding Volume.store Volume.read_valid Volume.checked read_file write_file new_file Volume.sealed
    Volume.copy_records Volume.first_record
stored-IsReadable = (refl, refl)

volume_survives_example :
    (Volume.load disk headset (Volume.store disk headset 99 blank).1).0 ≡ some (min 99 volume_limit)
volume_survives_example =
    volume_survives disk disk-IsDisk headset 99 blank refl (inr refl) store_succeeds
      stored-IsReadable
