-- ===== src/Base/Lists.antt =====
-- Lists measured and indexed by native numbers, under the library's names.
use Prim.Native.Nat.{ℕ, zero, suc, ◌+◌, ◌-◌, ◌≤◌, min}
use mathlib.Core.Path.{◌≡◌, refl, ap}
use mathlib.Core.Bool.{Bool, true, ◌&&◌}
use mathlib.Core.List.{List, [], ◌∷◌, ◌++◌}
use mathlib.Core.Option.{Option, none, some}
use native.Mathlib.Omega.{arith}
use canopus_module_bluetooth.Base.Tests.{◌==◌}

module _ {ℓ} {A : Type ℓ} where
  abbrev pub length : List A → ℕ
  length [] = 0
  length (x ∷ xs) = suc (length xs)

  abbrev pub get_elem? : List A → ℕ → Option A
  get_elem? [] i = none
  get_elem? (x ∷ xs) zero = some x
  get_elem? (x ∷ xs) (suc i) = get_elem? xs i

  abbrev pub get_or : List A → ℕ → A → A
  get_or [] i d = d
  get_or (x ∷ xs) zero d = x
  get_or (x ∷ xs) (suc i) d = get_or xs i d

  abbrev pub take : ℕ → List A → List A
  take zero xs = []
  take (suc n) [] = []
  take (suc n) (x ∷ xs) = x ∷ take n xs

  abbrev pub drop : ℕ → List A → List A
  drop zero xs = xs
  drop (suc n) [] = []
  drop (suc n) (x ∷ xs) = drop n xs

  abbrev pub replicate : ℕ → A → List A
  replicate zero a = []
  replicate (suc n) a = a ∷ replicate n a

  -- The write `xs[at .. at + ys.len()].copy_from_slice(ys)`; what lies past the end is dropped.
  abbrev pub splice : ℕ → List A → List A → List A
  splice zero [] xs = xs
  splice zero (y ∷ ys) [] = []
  splice zero (y ∷ ys) (x ∷ xs) = y ∷ splice zero ys xs
  splice (suc n) ys [] = []
  splice (suc n) ys (x ∷ xs) = x ∷ splice n ys xs

  pub length-append : (xs ys : List A) → length (xs ++ ys) ≡ length xs + length ys
  length-append [] ys = omega arith
  length-append (x ∷ xs) ys = omega (arith, length-append xs ys)

  pub length-take : (n : ℕ) (xs : List A) → length (take n xs) ≡ min n (length xs)
  length-take zero xs = omega arith
  length-take (suc n) [] = omega arith
  length-take (suc n) (x ∷ xs) = omega (arith, length-take n xs)

  pub length-drop : (n : ℕ) (xs : List A) → length (drop n xs) ≡ length xs - n
  length-drop zero xs = omega arith
  length-drop (suc n) [] = omega arith
  length-drop (suc n) (x ∷ xs) = omega (arith, length-drop n xs)

  pub drop-nil : (n : ℕ) → drop n [] ≡ []
  drop-nil zero = refl
  drop-nil (suc n) = refl

  pub take-append-drop : (n : ℕ) (xs : List A) → take n xs ++ drop n xs ≡ xs
  take-append-drop zero xs = refl
  take-append-drop (suc n) [] = refl
  take-append-drop (suc n) (x ∷ xs) = ap (◌∷◌ x) (take-append-drop n xs)

  pub length-replicate : (n : ℕ) (a : A) → length (replicate n a) ≡ n
  length-replicate zero a = refl
  length-replicate (suc n) a = ap suc (length-replicate n a)

module _ {ℓ} {A : Type ℓ} where
  pub length-splice : (n : ℕ) (ys xs : List A) → length (splice n ys xs) ≡ length xs
  length-splice zero [] xs = refl
  length-splice zero (y ∷ ys) [] = refl
  length-splice zero (y ∷ ys) (x ∷ xs) = ap suc (length-splice zero ys xs)
  length-splice (suc n) ys [] = refl
  length-splice (suc n) ys (x ∷ xs) = ap suc (length-splice n ys xs)

  pub take-length : (xs : List A) → take (length xs) xs ≡ xs
  take-length [] = refl
  take-length (x ∷ xs) = ap (◌∷◌ x) (take-length xs)

  pub take-append : (xs ys : List A) → take (length xs) (xs ++ ys) ≡ xs
  take-append [] ys = refl
  take-append (x ∷ xs) ys = ap (◌∷◌ x) (take-append xs ys)

  pub drop-append : (xs ys : List A) → drop (length xs) (xs ++ ys) ≡ ys
  drop-append [] ys = refl
  drop-append (x ∷ xs) ys = drop-append xs ys

  pub take-append_le : (n : ℕ) (xs ys : List A) → n ≤ length xs → take n (xs ++ ys) ≡ take n xs
  take-append_le zero xs ys h = refl
  take-append_le (suc n) [] ys h = absurd (omega arith)
  take-append_le (suc n) (x ∷ xs) ys h = ap (◌∷◌ x) (take-append_le n xs ys (omega arith))

  pub drop-append_le :
      (n : ℕ) (xs ys : List A) → n ≤ length xs → drop n (xs ++ ys) ≡ drop n xs ++ ys
  drop-append_le zero xs ys h = refl
  drop-append_le (suc n) [] ys h = absurd (omega arith)
  drop-append_le (suc n) (x ∷ xs) ys h = drop-append_le n xs ys (omega arith)

  -- What a write at `n` leaves in the first `n + length ys` places.
  pub take-splice :
      (n : ℕ) (ys xs : List A)
      → n + length ys ≤ length xs
      → take (n + length ys) (splice n ys xs) ≡ take n xs ++ ys
  take-splice zero [] xs h = refl
  take-splice zero (y ∷ ys) [] h = absurd (omega arith)
  take-splice zero (y ∷ ys) (x ∷ xs) h = ground (arith, take-splice zero ys xs)
  take-splice (suc n) ys [] h = absurd (omega arith)
  take-splice (suc n) ys (x ∷ xs) h =
      let shift : suc n + length ys ≡ suc (n + length ys) = omega arith in
      rw shift (ap (◌∷◌ x) (take-splice n ys xs (omega arith)))

  pub splice_whole : (ys xs : List A) → length xs ≡ length ys → splice 0 ys xs ≡ ys
  splice_whole [] [] h = refl
  splice_whole [] (x ∷ xs) h = absurd (omega arith)
  splice_whole (y ∷ ys) [] h = absurd (omega arith)
  splice_whole (y ∷ ys) (x ∷ xs) h = ap (◌∷◌ y) (splice_whole ys xs (omega arith))

  pub take-splice_front :
      (ys xs : List A) → length ys ≤ length xs → take (length ys) (splice 0 ys xs) ≡ ys
  take-splice_front [] xs h = refl
  take-splice_front (y ∷ ys) [] h = absurd (omega arith)
  take-splice_front (y ∷ ys) (x ∷ xs) h = ap (◌∷◌ y) (take-splice_front ys xs (omega arith))

  -- A write at `n` leaves the places before it alone, and is what lies from `n` on.
  pub take-splice_before : (m n : ℕ) (ys xs : List A) → m ≤ n → take m (splice n ys xs) ≡ take m xs
  take-splice_before zero n ys xs h = refl
  take-splice_before (suc m) zero ys xs h = absurd (omega arith)
  take-splice_before (suc m) (suc n) ys [] h = refl
  take-splice_before (suc m) (suc n) ys (x ∷ xs) h =
      ap (◌∷◌ x) (take-splice_before m n ys xs (omega arith))

  pub drop-splice :
      (n : ℕ) (ys xs : List A) → length xs ≡ n + length ys → drop n (splice n ys xs) ≡ ys
  drop-splice zero ys xs h = splice_whole ys xs (omega arith)
  drop-splice (suc n) ys [] h = absurd (omega arith)
  drop-splice (suc n) ys (x ∷ xs) h = drop-splice n ys xs (omega arith)

  abbrev pub All {κ} : (A → Type κ) → List A → Type κ
  All P [] = Unit
  All P (x ∷ xs) = P x × All P xs

  pub All-append {κ} : (P : A → Type κ) (xs ys : List A) → All P xs → All P ys → All P (xs ++ ys)
  All-append P [] ys h k = k
  All-append P (x ∷ xs) ys h k = (h.0, All-append P xs ys h.1 k)

-- `==` on slices of bytes.
abbrev pub bytes_eq : List ℕ → List ℕ → Bool
bytes_eq [] [] = true
bytes_eq [] (y ∷ ys) = Bool.false
bytes_eq (x ∷ xs) [] = Bool.false
bytes_eq (x ∷ xs) (y ∷ ys) = x == y && bytes_eq xs ys

pub bytes_eq→eq : (xs ys : List ℕ) → bytes_eq xs ys ≡ true → xs ≡ ys
bytes_eq→eq [] [] h = refl
bytes_eq→eq [] (y ∷ ys) h = cc
bytes_eq→eq (x ∷ xs) [] h = cc
bytes_eq→eq (x ∷ xs) (y ∷ ys) h = ground (arith, bytes_eq→eq xs ys)

pub bytes_eq_refl : (xs : List ℕ) → bytes_eq xs xs ≡ true
bytes_eq_refl [] = refl
bytes_eq_refl (x ∷ xs) = ground (arith, bytes_eq_refl xs)
