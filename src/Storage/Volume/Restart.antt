-- ===== src/Storage/Volume/Restart.antt =====
-- The volumes across a restart.
use canopus_module_bluetooth.Base.{
  ℕ, ◌≡◌, ◌≢◌, sym, ap, ◌∙◌, inl, inr, true, List, length, get_or, Option, some, none, arith,
  replicate, length-splice, length-replicate, if-elim, min, not,
}
use canopus_module_bluetooth.Discovery.{Address}
use canopus_module_bluetooth.Storage.Files.{
  Nuttx, IsDisk, IsClearable, IsReadable, is_negative, read_file, read_file_lem,
  write_file-Replaces,
}
use canopus_module_bluetooth.Base.Int.{ℤ, pos, ◌==ℤ◌}
use canopus_module_bluetooth.Storage.Volume.{
  volume_path, temp_path, file_size, volume_limit, is_valid_file, checked, read_valid, load, store,
  new_file,
}
use canopus_module_bluetooth.Storage.Volume.Recent.Sealed.{load_after_store, new_file-Holds}

paths_differ : volume_path ≢ temp_path
paths_differ e = let same : 0x62 ≡ 0x74 = ap (λ path. get_or path 29 0) e in omega (arith, same)

-- A file that is read has the size that was asked for.
IsSized : ℕ → Option (List ℕ) → Type 0
IsSized size none = Unit
IsSized size (some file) = length file ≡ size

sized_file :
    (size : ℕ) (o : Option (List ℕ))
    → IsSized size o
    → (file : List ℕ) → o ≡ some file
    → length file ≡ size
unfolding IsSized
sized_file size none h file e = absurd cc
sized_file size (some old) h file e = let same : old ≡ file = cc in rw (sym same) h

module _ (N : Nuttx) where
  checked-IsSized :
      (size : ℕ) (r : Option (List ℕ) × N.Machine) → IsSized size r.0 → IsSized size (checked N r).0
  unfolding checked IsSized
  checked-IsSized size (none, m) h = h
  checked-IsSized size (some file, m) h =
      if-elim (IsSized size) (is_valid_file file) (λ _. h) (λ _. tt)

  read_file-IsSized : (size : ℕ) (m : N.Machine) → IsSized size (read_file N volume_path size m).0
  unfolding read_file IsSized
  read_file-IsSized size m =
      let opened : ℤ × N.Machine = N.open_file volume_path m in
      let got : ℤ × List ℕ × N.Machine = N.read opened.0 size opened.1 in
      let P : Option (List ℕ) × N.Machine → Type 0 = λ r. IsSized size r.0 in
      if-elim P (is_negative opened.0) (λ _. tt)
        (λ _.
          if-elim P (not (got.0 ==ℤ pos size)) (λ _. tt)
            (λ _. length-splice 0 got.1 (replicate size 0) ∙ length-replicate size 0))

  old_file :
      (m : N.Machine) (file : List ℕ) → (read_valid N m).0 ≡ some file → length file ≡ file_size
  unfolding read_valid
  old_file m =
      sized_file file_size (read_valid N m).0
        (checked-IsSized file_size _ (read_file-IsSized file_size m))

  -- On a disk that keeps to what POSIX says, whatever the file held before, with no temporary file
  -- left over when the old file has been read, or its removal successful: a store that succeeds is
  -- followed by a load of the stored volume, at most 127, for that headset, whose address has six
  -- bytes, if the open and the read of the whole file succeed.
  pub volume_survives :
      (D : IsDisk N) (address : Address) (volume : ℕ) (m : N.Machine)
      → length address ≡ 6
      → IsClearable N D temp_path (read_valid N m).1
      → (store N address volume m).0 ≡ true
      → IsReadable N volume_path file_size (store N address volume m).1
      → (load N address (store N address volume m).1).0 ≡ some (min volume volume_limit)
  unfolding store load read_valid checked
  volume_survives D address volume m six clear done readable =
      let old = read_valid N m in
      let file : List ℕ = new_file address volume old.0 in
      let held = new_file-Holds address volume old.0 six (old_file m) in
      let later : N.Machine = (store N address volume m).1 in
      elim (write_file-Replaces N D temp_path volume_path file old.1 paths_differ clear) [
        | inr (e, kept) ↦ absurd cc
        | inl (e, saved) ↦
            (let read : (read_file N volume_path file_size later).0 ≡ some file =
                ap (λ n. (read_file N volume_path n later).0) (sym held.1)
                ∙ read_file_lem N D volume_path file later saved (rw held.1 readable) in
              let whole : read_file N volume_path file_size later
                  ≡ (some file, (read_file N volume_path file_size later).1) =
                λ i. (read i, (read_file N volume_path file_size later).1) in
              rw (whole, held.0) (load_after_store address volume old.0 six (old_file m)))
      ]
