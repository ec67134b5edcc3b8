-- ===== src/Storage/Volume/Entries.antt =====
-- The records of a file as a list, and what the loops make of them.
use canopus_module_bluetooth.Base.{
  ℕ, zero, suc, ◌+◌, ◌-◌, ◌*◌, ◌≤◌, ◌<◌, ◌≡◌, refl, sym, ap, ◌∙◌, ◌&&◌, List, [], ◌∷◌, ◌++◌, splice,
  take, drop, get_or, length, leb, bytes_eq, Option, some, none, if◌then◌else◌, arith, length-drop,
  take-splice_front, take-splice_before,
}
use canopus_module_bluetooth.Discovery.{Address}
use canopus_module_bluetooth.Storage.Volume.{find_volume, volume_limit}

-- The first `n` records of the bytes after the header.
unfoldable pub entries : ℕ → List ℕ → List (List ℕ)
entries zero bytes = []
entries (suc n) bytes = take 8 bytes ∷ entries n (drop 8 bytes)

unfoldable pub without : Address → List (List ℕ) → List (List ℕ)
without address [] = []
without address (e ∷ es) =
    if bytes_eq (take 6 e) address then without address es else e ∷ without address es

-- The volume of the first record of the headset that holds one in range.
unfoldable pub first_volume : Address → List (List ℕ) → Option ℕ
first_volume address [] = none
first_volume address (e ∷ es) =
    if bytes_eq (take 6 e) address && leb (get_or e 6 0) volume_limit
    then some (get_or e 6 0)
    else first_volume address es

drop_nil : (m : ℕ) → drop {A = ℕ} m [] ≡ []
drop_nil zero = refl
drop_nil (suc m) = refl

pub drop-drop : (m n : ℕ) (xs : List ℕ) → drop m (drop n xs) ≡ drop (n + m) xs
drop-drop m zero xs = ap (λ k. drop k xs) (omega arith)
drop-drop m (suc n) [] = rw (drop_nil m) (sym (drop_nil (suc n + m)))
drop-drop m (suc n) (x ∷ xs) =
    let later : suc n + m ≡ suc (n + m) = omega arith in rw later (drop-drop m n xs)

pub take-take : (m n : ℕ) (xs : List ℕ) → m ≤ n → take m (take n xs) ≡ take m xs
take-take zero n xs h = refl
take-take (suc m) zero xs h = absurd (omega arith)
take-take (suc m) (suc n) [] h = refl
take-take (suc m) (suc n) (x ∷ xs) h = ap (◌∷◌ x) (take-take m n xs (omega arith))

pub get_or-take : (i k : ℕ) (xs : List ℕ) → i < k → get_or (take k xs) i 0 ≡ get_or xs i 0
get_or-take i zero xs h = absurd (omega arith)
get_or-take i (suc k) [] h = refl
get_or-take zero (suc k) (x ∷ xs) h = refl
get_or-take (suc i) (suc k) (x ∷ xs) h = get_or-take i k xs (omega arith)

-- Dropping what lies before, and after, a write.
pub drop-splice_past :
    (m n : ℕ) (ys xs : List ℕ) → n + length ys ≤ m → drop m (splice n ys xs) ≡ drop m xs
drop-splice_past m zero [] xs h = refl
drop-splice_past m zero (y ∷ ys) [] h = refl
drop-splice_past zero zero (y ∷ ys) (x ∷ xs) h = absurd (omega arith)
drop-splice_past (suc m) zero (y ∷ ys) (x ∷ xs) h = drop-splice_past m zero ys xs (omega arith)
drop-splice_past m (suc n) ys [] h = refl
drop-splice_past zero (suc n) ys (x ∷ xs) h = absurd (omega arith)
drop-splice_past (suc m) (suc n) ys (x ∷ xs) h = drop-splice_past m n ys xs (omega arith)

splice_nil : (n : ℕ) (ys : List ℕ) → splice n ys [] ≡ []
splice_nil zero [] = refl
splice_nil zero (y ∷ ys) = refl
splice_nil (suc n) ys = refl

pub drop-splice_within :
    (m n : ℕ) (ys xs : List ℕ) → drop m (splice (m + n) ys xs) ≡ splice n ys (drop m xs)
drop-splice_within zero n ys xs = ap (λ k. splice k ys xs) (omega arith)
drop-splice_within (suc m) n ys [] = rw (splice_nil (suc m + n) ys) (sym (splice_nil n ys))
drop-splice_within (suc m) n ys (x ∷ xs) =
    let later : suc m + n ≡ suc (m + n) = omega arith in rw later (drop-splice_within m n ys xs)

-- A write past the first `n` records keeps them.
pub entries-splice_past :
    (n m : ℕ) (ys bytes : List ℕ) → n * 8 ≤ m → entries n (splice m ys bytes) ≡ entries n bytes
unfolding entries
entries-splice_past zero m ys bytes h = refl
entries-splice_past (suc n) m ys bytes h =
    let k : ℕ = m - 8 in
    let split : m ≡ 8 + k = omega arith in
    let first : take 8 (splice m ys bytes) ≡ take 8 bytes =
      take-splice_before 8 m ys bytes (omega arith) in
    let later : drop 8 (splice m ys bytes) ≡ splice k ys (drop 8 bytes) =
      ap (λ i. drop 8 (splice i ys bytes)) split ∙ drop-splice_within 8 k ys bytes in
    rw (first, later, entries-splice_past n k ys (drop 8 bytes) (omega arith)) refl

-- A record that is written after the first `n` is the next one.
pub entries-splice_next :
    (n : ℕ) (e bytes : List ℕ)
    → length e ≡ 8
    → n * 8 + 8 ≤ length bytes
    → entries (suc n) (splice (n * 8) e bytes) ≡ entries n bytes ++ (e ∷ [])
unfolding entries
entries-splice_next zero e bytes size room =
    let front : take 8 (splice 0 e bytes) ≡ e =
      ap (λ k. take k (splice 0 e bytes)) (sym size) ∙ take-splice_front e bytes (omega arith) in
    rw front refl
entries-splice_next (suc n) e bytes size room =
    let k : ℕ = suc n * 8 in
    let split : k ≡ 8 + n * 8 = omega arith in
    let first : take 8 (splice k e bytes) ≡ take 8 bytes =
      take-splice_before 8 k e bytes (omega arith) in
    let later : drop 8 (splice k e bytes) ≡ splice (n * 8) e (drop 8 bytes) =
      ap (λ i. drop 8 (splice i e bytes)) split ∙ drop-splice_within 8 (n * 8) e bytes in
    rw (first, later)
      (ap (◌∷◌ (take 8 bytes))
        (entries-splice_next n e (drop 8 bytes) size (omega (arith, length-drop 8 bytes))))

-- The loop of `load` is over the records.
pub find_volume_lem :
    (address : Address) (file : List ℕ) (index left : ℕ)
    → find_volume address file index left
      ≡ first_volume address (entries left (drop (8 + index * 8) file))
unfolding find_volume first_volume entries
find_volume_lem address file index zero = refl
find_volume_lem address file index (suc left) =
    let offset : ℕ = 8 + index * 8 in
    let bytes : List ℕ = drop offset file in
    let further : drop 8 bytes ≡ drop (8 + (index + 1) * 8) file =
      drop-drop 8 offset file ∙ ap (λ k. drop k file) (omega arith) in
    rw
      (
        take-take 6 8 bytes (omega arith),
        get_or-take 6 8 bytes (omega arith),
        further,
        find_volume_lem address file (index + 1) left,
      )
      refl

pub length-entries : (n : ℕ) (bytes : List ℕ) → length (entries n bytes) ≡ n
unfolding entries
length-entries zero bytes = refl
length-entries (suc n) bytes = ap suc (length-entries n (drop 8 bytes))
