-- ===== src/Storage/Volume/Recent.antt =====
-- The file that `store` writes: the headset first, then the others in the order of the old file.
pub mod Sealed
use mathlib.Core.List.{append_assoc, append-nil}
use canopus_module_bluetooth.Base.{
  ℕ, zero, suc, ◌+◌, ◌-◌, ◌*◌, ◌%◌, ◌≤◌, ◌<◌, ◌≡◌, refl, sym, ap, ◌∙◌, min, Bool, true, false, ◌&&◌,
  List, [], ◌∷◌, ◌++◌, splice, take, drop, get_or, length, leb, ◌==◌, bytes_eq, Option, some, none,
  if◌then◌else◌, if-elim, arith, replicate, length-append, length-take, length-drop, length-splice,
  take-splice_front, take-splice_before, take-append_le, take-length, drop-splice, Bool-cases, inl,
  inr, bytes_eq_refl,
}
use canopus_module_bluetooth.Base.Words.{le32, from_le32, from_le32-le32, u8_mod}
use canopus_module_bluetooth.Discovery.{Address}
use canopus_module_bluetooth.Storage.{checksum}
use canopus_module_bluetooth.Storage.Volume.{
  magic, records, record_count, is_valid_file, copy_records, first_record, sealed, new_file,
  volume_in, volume_limit, find_volume,
}
use canopus_module_bluetooth.Storage.Volume.Entries.{
  entries, without, first_volume, drop-drop, take-take, get_or-take, drop-splice_past,
  drop-splice_within, entries-splice_past, entries-splice_next, find_volume_lem, length-entries,
}

-- What the loop leaves: the records that were there, then those of `es` that are of other headsets,
-- as far as there is room.
pub record Copied (address : Address) (es done : List (List ℕ)) (file : List ℕ) (r : ℕ × List ℕ)
    : Type 0 where
  pub room : r.0 ≤ records
  pub size : length r.1 ≡ 76
  pub header : take 8 r.1 ≡ take 8 file
  pub copied : entries r.0 (drop 8 r.1) ≡ take 8 (done ++ without address es)

pub take_all : (n : ℕ) (es : List (List ℕ)) → length es ≤ n → take n es ≡ es
take_all zero [] h = refl
take_all zero (e ∷ es) h = absurd (omega arith)
take_all (suc n) [] h = refl
take_all (suc n) (e ∷ es) h = ap (◌∷◌ e) (take_all n es (omega arith))

-- No room is left.
filled :
    (address : Address) (es : List (List ℕ)) (count : ℕ) (file : List ℕ)
    → count ≤ records
    → length file ≡ 76
    → count ≡ 8
    → Copied address es (entries count (drop 8 file)) file (count, file)
filled address es count file small size full =
    let done : List (List ℕ) = entries count (drop 8 file) in
    let enough : length done ≡ 8 = length-entries count (drop 8 file) ∙ full in
    record {
      room = small;
      size = size;
      header = refl;
      copied = sym (
          take-append_le 8 done (without address es) (omega (arith, enough))
          ∙ take_all 8 done (omega (arith, enough)));
    }

-- What the rest of the loop leaves is what the loop leaves.
carried :
    (address : Address) (es' es done' done : List (List ℕ)) (file' file : List ℕ) {r : ℕ × List ℕ}
    → Copied address es' done' file' r
    → take 8 file' ≡ take 8 file
    → done' ++ without address es' ≡ done ++ without address es
    → Copied address es done file r
carried address es' es done' done file' file v same_header same = record {
  room = v.room;
  size = v.size;
  header = v.header ∙ same_header;
  copied = v.copied ∙ ap (take 8) same;
}

next_record :
    (count : ℕ) (e file : List ℕ)
    → length e ≡ 8
    → 8 + count * 8 + 8 ≤ length file
    → entries (count + 1) (drop 8 (splice (8 + count * 8) e file))
      ≡ entries count (drop 8 file) ++ (e ∷ [])
next_record count e file size room =
    let after : count + 1 ≡ suc count = omega arith in
    rw (after, drop-splice_within 8 (count * 8) e file)
      (entries-splice_next count e (drop 8 file) size (omega (arith, length-drop 8 file)))

pub copy_records-Copied :
    (address : Address) (old : List ℕ) (index left count : ℕ) (file : List ℕ)
    → count ≤ records
    → length file ≡ 76
    → 8 + index * 8 + left * 8 ≤ length old
    → Copied address
        (entries left (drop (8 + index * 8) old))
        (entries count (drop 8 file))
        file
        (copy_records address old index left count file)
unfolding copy_records entries without
copy_records-Copied address old index zero count file small size long = record {
  room = small;
  size = size;
  header = refl;
  copied = sym (
      ap (take 8) (append-nil _)
      ∙ take_all 8 _ (omega (arith, length-entries count (drop 8 file))));
}
copy_records-Copied address old index (suc left) count file small size long =
    let offset : ℕ = 8 + index * 8 in
    let bytes : List ℕ = drop offset old in
    let e : List ℕ = take 8 bytes in
    let es : List (List ℕ) = entries (suc left) bytes in
    let done : List (List ℕ) = entries count (drop 8 file) in
    let es' : List (List ℕ) = entries left (drop (8 + (index + 1) * 8) old) in
    let P : ℕ × List ℕ → Type 0 = Copied address es done file in
    let further : drop 8 bytes ≡ drop (8 + (index + 1) * 8) old =
      drop-drop 8 offset old ∙ ap (λ k. drop k old) (omega arith) in
    let size_e : length e ≡ 8 = omega (arith, length-take 8 bytes, length-drop offset old) in
    let file' : List ℕ = splice (8 + count * 8) e file in
    let size' : length file' ≡ 76 = length-splice (8 + count * 8) e file ∙ size in
    if-elim P (count == records) (λ full. filled address es count file small size (ground arith))
      (λ room.
        if-elim P (bytes_eq (take 6 bytes) address)
          (λ same.
            carried address es' es done done file file
              (copy_records-Copied address old (index + 1) left count file small size (omega arith))
              refl (rw (take-take 6 8 bytes (omega arith), same, further) refl))
          (λ other.
            let more : count + 1 ≤ records = ground arith in
            let next : done ++ (e ∷ []) ≡ entries (count + 1) (drop 8 file') =
              sym (next_record count e file size_e (omega (arith, size, more))) in
            carried address es' es (entries (count + 1) (drop 8 file')) done file' file
              (copy_records-Copied address old (index + 1) left (count + 1) file' more size'
                (omega arith))
              (take-splice_before 8 (8 + count * 8) e file (omega arith))
              (rw (take-take 6 8 bytes (omega arith), other, further, sym next)
                (append_assoc done (e ∷ []) (without address es')))))
