-- ===== src/Storage/Volume/Recent/Sealed.antt =====
-- The whole file that `store` writes, and what `load` finds in it.
use canopus_module_bluetooth.Base.{
  ℕ, zero, suc, ◌%◌, ◌≤◌, ◌≡◌, refl, sym, ap, ◌∙◌, min, true, false, List, [], ◌∷◌, ◌++◌, splice,
  take, drop, get_or, length, leb, bytes_eq, Option, some, none, arith, replicate, length-splice,
  take-splice_before, drop-splice, bytes_eq_refl, ==_refl,
}
use canopus_module_bluetooth.Base.Words.{le32, from_le32-le32, u8_mod}
use canopus_module_bluetooth.Discovery.{Address}
use canopus_module_bluetooth.Storage.{checksum}
use canopus_module_bluetooth.Storage.Peer.RoundTrip.{of_six}
use canopus_module_bluetooth.Storage.Volume.{
  magic, records, file_size, record_count, is_valid_file, copy_records, first_record, sealed,
  new_file, volume_in, volume_limit,
}
use canopus_module_bluetooth.Storage.Volume.Entries.{
  entries, without, first_volume, take-take, get_or-take, drop-splice_past, drop-splice_within,
  entries-splice_past, find_volume_lem,
}
use canopus_module_bluetooth.Storage.Volume.Recent.{Copied, copy_records-Copied}

take-splice_within : (n m : ℕ) (ys xs : List ℕ) → take n (splice m ys xs) ≡ splice m ys (take n xs)
take-splice_within zero zero [] xs = refl
take-splice_within zero zero (y ∷ ys) [] = refl
take-splice_within zero zero (y ∷ ys) (x ∷ xs) = refl
take-splice_within zero (suc m) ys [] = refl
take-splice_within zero (suc m) ys (x ∷ xs) = refl
take-splice_within (suc n) zero [] xs = refl
take-splice_within (suc n) zero (y ∷ ys) [] = refl
take-splice_within (suc n) zero (y ∷ ys) (x ∷ xs) = ap (◌∷◌ y) (take-splice_within n zero ys xs)
take-splice_within (suc n) (suc m) ys [] = refl
take-splice_within (suc n) (suc m) ys (x ∷ xs) = ap (◌∷◌ x) (take-splice_within n m ys xs)

-- The eight bytes of the header, with the count.
abbrev header : ℕ → List ℕ
header count = 0x42 ∷ 0x41 ∷ 0x56 ∷ 0x32 ∷ 2 ∷ count ∷ 0 ∷ 0 ∷ []

-- The records of a file, if there is one.
unfoldable pub records_of : Option (List ℕ) → List (List ℕ)
records_of none = []
records_of (some file) = entries (record_count file) (drop 8 file)

module _ (r : ℕ × List ℕ) (small : r.0 ≤ records) (size : length r.1 ≡ file_size)
    (head : take 8 r.1 ≡ header 0) where
  abbrev counted : List ℕ
  counted = splice 5 ((r.0 % u8_mod) ∷ []) r.1

  abbrev summed : List ℕ
  summed = le32 (checksum (take 72 counted))

  counted_size : length counted ≡ file_size
  counted_size = length-splice 5 ((r.0 % u8_mod) ∷ []) r.1 ∙ size

  sealed_header : take 8 (sealed r) ≡ header r.0
  unfolding sealed
  sealed_header =
      let kept : r.0 % u8_mod ≡ r.0 = omega (arith, small) in
      take-splice_before 8 72 summed counted (omega arith)
      ∙ (take-splice_within 8 5 ((r.0 % u8_mod) ∷ []) r.1 ∙ rw (head, kept) refl)

  sealed_count : record_count (sealed r) ≡ r.0
  unfolding record_count
  sealed_count =
      let read : get_or (sealed r) 5 0 ≡ r.0 =
        sym (get_or-take 5 8 (sealed r) (omega arith)) ∙ ap (λ xs. get_or xs 5 0) sealed_header in
      rw read (omega (arith, small))

  sealed_valid : is_valid_file (sealed r) ≡ true
  unfolding is_valid_file sealed
  sealed_valid =
      let front : take 4 (sealed r) ≡ magic =
        sym (take-take 4 8 (sealed r) (omega arith)) ∙ ap (take 4) sealed_header in
      let version : get_or (sealed r) 4 0 ≡ 2 =
        sym (get_or-take 4 8 (sealed r) (omega arith)) ∙ ap (λ xs. get_or xs 4 0) sealed_header in
      let sum : ℕ = checksum (take 72 counted) in
      rw
        (
          front,
          version,
          drop-splice 72 summed counted counted_size,
          take-splice_before 72 72 summed counted (omega arith),
          from_le32-le32 sum,
          ==_refl sum,
        )
        refl

  sealed_records : entries r.0 (drop 8 (sealed r)) ≡ entries r.0 (drop 8 r.1)
  unfolding sealed
  sealed_records =
      rw
        (
          drop-splice_within 8 64 summed counted,
          drop-splice_past 8 5 ((r.0 % u8_mod) ∷ []) r.1 (omega arith),
        )
        (entries-splice_past r.0 64 summed (drop 8 r.1) (omega (arith, small)))

-- The first record.
abbrev pub own_record : Address → ℕ → List ℕ
own_record address volume = address ++ (min volume volume_limit ∷ 0 ∷ [])

StartsWith : ℕ → Address → Type 0
StartsWith volume address =
    entries 1 (drop 8 (first_record address volume)) ≡ own_record address volume ∷ []

starts_with : (volume : ℕ) (address : Address) → length address ≡ 6 → StartsWith volume address
unfolding StartsWith entries first_record
starts_with volume = of_six (StartsWith volume) (λ a b c d e f. refl)

first_size : (address : Address) (volume : ℕ) → length (first_record address volume) ≡ file_size
unfolding first_record
first_size address volume =
    let zeros : List ℕ = splice 4 (2 ∷ []) (splice 0 magic (replicate file_size 0)) in
    length-splice 14 (min volume volume_limit ∷ []) (splice 8 address zeros)
    ∙ length-splice 8 address zeros

first_header : (address : Address) (volume : ℕ) → take 8 (first_record address volume) ≡ header 0
unfolding first_record
first_header address volume = refl

-- What a file is that holds these records.
abbrev pub Holds : List (List ℕ) → List ℕ → Type 0
Holds es file =
    (is_valid_file file ≡ true) × (length file ≡ file_size) × (records_of (some file) ≡ es)

sealed-Holds :
    (address : Address) (es : List (List ℕ)) (volume : ℕ) (r : ℕ × List ℕ)
    → length address ≡ 6
    → Copied address es
        (entries 1 (drop 8 (first_record address volume)))
        (first_record address volume)
        r
    → Holds (take 8 (own_record address volume ∷ without address es)) (sealed r)
unfolding records_of StartsWith sealed
sealed-Holds address es volume r six v =
    let head : take 8 r.1 ≡ header 0 = v.header ∙ first_header address volume in
    let c : List ℕ = counted r v.room v.size head in
    (
      sealed_valid r v.room v.size head,
      length-splice 72 (summed r v.room v.size head) c ∙ counted_size r v.room v.size head,
      rw (sealed_count r v.room v.size head) (
          sealed_records r v.room v.size head
          ∙ (v.copied
              ∙ ap (λ done. take 8 (done ++ without address es)) (starts_with volume address six))),
    )

nothing_copied :
    (address : Address) (volume : ℕ)
    → Copied address []
        (entries 1 (drop 8 (first_record address volume)))
        (first_record address volume)
        (copy_records address [] 0 0 1 (first_record address volume))
unfolding copy_records entries without
nothing_copied address volume = record {
  room = omega arith;
  size = first_size address volume;
  header = refl;
  copied = refl;
}

-- The file that `store` writes, of an old file of 76 bytes or of none, is one that `read_file`
-- accepts, of 76 bytes, and its records are the headset with the volume, at most 127, then the old
-- records of other headsets in their order, eight in all at most.
pub new_file-Holds :
    (address : Address) (volume : ℕ) (old : Option (List ℕ))
    → length address ≡ 6
    → ((file : List ℕ) → old ≡ some file → length file ≡ file_size)
    → Holds
        (take 8 (own_record address volume ∷ without address (records_of old)))
        (new_file address volume old)
unfolding new_file records_of record_count
new_file-Holds address volume none six sized =
    sealed-Holds address [] volume _ six (nothing_copied address volume)
new_file-Holds address volume (some old) six sized =
    let long : length old ≡ file_size = sized old refl in
    sealed-Holds address _ volume _ six (
      copy_records-Copied address old 0 (record_count old) 1 (first_record address volume)
        (omega arith) (first_size address volume) (omega (arith, long)))

-- The volume of the headset itself, and of another, in records that start with the headset's own.
Finds : ℕ → Address → Type 0
Finds volume address =
    (es : List (List ℕ))
    → first_volume address (own_record address volume ∷ es) ≡ some (min volume volume_limit)

finds : (volume : ℕ) (address : Address) → length address ≡ 6 → Finds volume address
unfolding Finds first_volume
finds volume = of_six (Finds volume) λ a b c d e f es.
    let same : bytes_eq (a ∷ b ∷ c ∷ d ∷ e ∷ f ∷ []) (a ∷ b ∷ c ∷ d ∷ e ∷ f ∷ []) ≡ true =
      bytes_eq_refl (a ∷ b ∷ c ∷ d ∷ e ∷ f ∷ []) in
    let fits : leb (min volume volume_limit) volume_limit ≡ true = ground arith in
    rw (same, fits) refl

-- The volume that was stored is found in the new file.
pub load_after_store :
    (address : Address) (volume : ℕ) (old : Option (List ℕ))
    → length address ≡ 6
    → ((file : List ℕ) → old ≡ some file → length file ≡ file_size)
    → volume_in address (some (new_file address volume old)) ≡ some (min volume volume_limit)
unfolding volume_in Finds records_of
load_after_store address volume old six sized =
    let file : List ℕ = new_file address volume old in
    find_volume_lem address file 0 (record_count file)
    ∙ (ap (first_volume address) (new_file-Holds address volume old six sized).2
        ∙ finds volume address six _)

Another : Address → ℕ → Address → Type 0
Another other volume address =
    (es : List (List ℕ))
    → bytes_eq address other ≡ false
    → first_volume other (own_record address volume ∷ es) ≡ first_volume other es

another :
    (other : Address) (volume : ℕ) (address : Address)
    → length address ≡ 6
    → Another other volume address
unfolding Another first_volume
another other volume = of_six (Another other volume) λ a b c d e f es different. rw different refl

-- Another headset is found as among the first seven records of others in the old file.
pub load_other :
    (other address : Address) (volume : ℕ) (old : Option (List ℕ))
    → length address ≡ 6
    → bytes_eq address other ≡ false
    → ((file : List ℕ) → old ≡ some file → length file ≡ file_size)
    → volume_in other (some (new_file address volume old))
      ≡ first_volume other (take 7 (without address (records_of old)))
unfolding volume_in Another records_of
load_other other address volume old six different sized =
    let file : List ℕ = new_file address volume old in
    find_volume_lem other file 0 (record_count file)
    ∙ (ap (first_volume other) (new_file-Holds address volume old six sized).2
        ∙ another other volume address six _ different)
