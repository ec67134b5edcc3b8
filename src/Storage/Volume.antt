-- ===== src/Storage/Volume.antt =====
-- crates/bluetooth-audio-device/src/target/volume_store.rs: the volume of the last eight headsets.
pub mod Entries
pub mod Recent
pub mod Restart
use canopus_module_bluetooth.Base.{
  ℕ, zero, suc, ◌+◌, ◌*◌, ◌%◌, min, Bool, true, false, not, ◌&&◌, ◌||◌, List, [], ◌∷◌, replicate,
  splice, take, drop, get_or, leb, ltb, ◌==◌, bytes_eq, Option, some, none, if◌then◌else◌,
}
use canopus_module_bluetooth.Base.Words.{le32, from_le32, u8_mod}
use canopus_module_bluetooth.Discovery.{Address, is_zero}
use canopus_module_bluetooth.Storage.{checksum}
use canopus_module_bluetooth.Storage.Files.{Nuttx, FilePath, read_file, write_file}

-- "BAV2".
abbrev pub magic : List ℕ
magic = 0x42 ∷ 0x41 ∷ 0x56 ∷ 0x32 ∷ []

abbrev pub records : ℕ
records = 8

abbrev pub header_size : ℕ
header_size = 8

abbrev pub record_size : ℕ
record_size = 8

abbrev pub file_size : ℕ
file_size = 76

abbrev pub volume_limit : ℕ
volume_limit = 0x7f

-- "/data/canopus_btaudio_volume.bin", and the path that ends in "tmp".
abbrev stem : FilePath → FilePath
stem ending =
    0x2f ∷ 0x64 ∷ 0x61 ∷ 0x74 ∷ 0x61 ∷ 0x2f ∷ 0x63 ∷ 0x61 ∷ 0x6e ∷ 0x6f ∷ 0x70 ∷ 0x75 ∷ 0x73 ∷ 0x5f
    ∷ 0x62 ∷ 0x74 ∷ 0x61 ∷ 0x75 ∷ 0x64 ∷ 0x69 ∷ 0x6f ∷ 0x5f ∷ 0x76 ∷ 0x6f ∷ 0x6c ∷ 0x75 ∷ 0x6d
    ∷ 0x65 ∷ 0x2e ∷ ending

abbrev pub volume_path : FilePath
volume_path = stem (0x62 ∷ 0x69 ∷ 0x6e ∷ 0 ∷ [])

abbrev pub temp_path : FilePath
temp_path = stem (0x74 ∷ 0x6d ∷ 0x70 ∷ 0 ∷ [])

-- The tests of `read_file` on the bytes.
unfoldable pub is_valid_file : List ℕ → Bool
is_valid_file file =
    bytes_eq (take 4 file) magic
    && get_or file 4 0 == 2
    && from_le32 (drop 72 file) == checksum (take 72 file)

unfoldable pub record_count : List ℕ → ℕ
record_count file = min (get_or file 5 0) records

-- The loop of `load`, over the records from `index` on.
unfoldable pub find_volume : Address → List ℕ → ℕ → ℕ → Option ℕ
find_volume address file index zero = none
find_volume address file index (suc left) =
    let offset : ℕ = header_size + index * record_size in
    let rest = find_volume address file (index + 1) left in
    if bytes_eq (take 6 (drop offset file)) address
      && leb (get_or (drop offset file) 6 0) volume_limit
    then some (get_or (drop offset file) 6 0)
    else rest

-- The loop of `store`, with the count and the new file.
unfoldable pub copy_records : Address → List ℕ → ℕ → ℕ → ℕ → List ℕ → ℕ × List ℕ
copy_records address old index zero count file = (count, file)
copy_records address old index (suc left) count file =
    let source : ℕ = header_size + index * record_size in
    let destination : ℕ = header_size + count * record_size in
    let skipped = copy_records address old (index + 1) left count file in
    let copied =
      copy_records address old (index + 1) left (count + 1)
        (splice destination (take record_size (drop source old)) file) in
    if count == records
    then (count, file)
    else if bytes_eq (take 6 (drop source old)) address
    then skipped
    else copied

-- The header and the first record of the new file.
unfoldable pub first_record : Address → ℕ → List ℕ
first_record address volume =
    splice 14 (min volume volume_limit ∷ [])
      (splice 8 address (splice 4 (2 ∷ []) (splice 0 magic (replicate file_size 0))))

-- The count and the checksum.
unfoldable pub sealed : ℕ × List ℕ → List ℕ
sealed r =
    let counted : List ℕ = splice 5 ((r.0 % u8_mod) ∷ []) r.1 in
    splice 72 (le32 (checksum (take 72 counted))) counted

-- The file that `store` writes, of the old one where that is valid.
unfoldable pub new_file : Address → ℕ → Option (List ℕ) → List ℕ
new_file address volume none = sealed (copy_records address [] 0 0 1 (first_record address volume))
new_file address volume (some old) =
    sealed (copy_records address old 0 (record_count old) 1 (first_record address volume))

-- The volume of a headset in a file that is valid.
unfoldable pub volume_in : Address → Option (List ℕ) → Option ℕ
volume_in address none = none
volume_in address (some file) = find_volume address file 0 (record_count file)

-- The address of `last_address`.
unfoldable pub last_in : Option (List ℕ) → Option Address
last_in none = none
last_in (some file) =
    let address : Address = take 6 (drop header_size file) in
    if get_or file 5 0 == 0 || ltb volume_limit (get_or file (header_size + 6) 0)
    then none
    else if is_zero address
    then none
    else some address

-- The statics of the module.
pub record Statics : Type 0 where
  pub selected_address : Address
  pub selected_volume : ℕ
  pub selected_valid : Bool
  pub pending_address : Address
  pub pending_volume : ℕ
  pub pending_dirty : Bool

unfoldable pub selected : Address → ℕ → Statics → ℕ
selected address fallback s =
    if s.selected_valid && bytes_eq s.selected_address address
    then s.selected_volume
    else min fallback volume_limit

unfoldable pub mark_pending : Address → ℕ → Statics → Statics
mark_pending address volume s = record {
  selected_address = address;
  selected_volume = min volume volume_limit;
  selected_valid = true;
  pending_address = address;
  pending_volume = min volume volume_limit;
  pending_dirty = true;
}

-- `mark_target_pending`, given what `target_load` returns.
unfoldable pub mark_target_pending : Option Address → ℕ → Statics → Statics
mark_target_pending none volume s = s
mark_target_pending (some address) volume s = mark_pending address volume s

module _ (N : Nuttx) where
  unfoldable pub checked : Option (List ℕ) × N.Machine → Option (List ℕ) × N.Machine
  checked (none, m) = (none, m)
  checked (some file, m) = ((if is_valid_file file then some file else none), m)

  unfoldable pub read_valid : N.Machine → Option (List ℕ) × N.Machine
  read_valid m = checked (read_file N volume_path file_size m)

  unfoldable pub last_address : N.Machine → Option Address × N.Machine
  last_address m = let r = read_valid m in (last_in r.0, r.1)

  unfoldable pub load : Address → N.Machine → Option ℕ × N.Machine
  load address m = let r = read_valid m in (volume_in address r.0, r.1)

  unfoldable pub store : Address → ℕ → N.Machine → Bool × N.Machine
  store address volume m =
      let old = read_valid m in
      write_file N temp_path volume_path (new_file address volume old.0) old.1

  unfoldable pub or_fallback : ℕ → Option ℕ → ℕ
  or_fallback fallback none = min fallback volume_limit
  or_fallback fallback (some volume) = volume

  unfoldable pub select : Address → ℕ → Statics → N.Machine → ℕ × Statics × N.Machine
  select address fallback s m =
      let r = load address m in
      let volume : ℕ = or_fallback fallback r.0 in
      (
        volume,
        record s { selected_address = address; selected_volume = volume; selected_valid = true },
        r.1,
      )

  -- The end of `flush_pending`. Nothing can change the pending volume between its two reads, as the
  -- core lock serialises the callers.
  unfoldable pub flushed : Statics → Bool × N.Machine → Bool × Statics × N.Machine
  flushed s (true, m) = (true, record s { pending_dirty = false }, m)
  flushed s (false, m) = (false, s, m)

  -- `matches` is the answer of `target_matches` for the pending address.
  unfoldable pub flush_pending : Bool → Statics → N.Machine → Bool × Statics × N.Machine
  flush_pending matches s m =
      if not s.pending_dirty
      then (true, s, m)
      else if not matches
      then (false, s, m)
      else flushed s (store s.pending_address s.pending_volume m)
