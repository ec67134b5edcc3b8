-- ===== src/Mp3/Window/Queue.antt =====
-- The window as the queue of its pending bytes.
use canopus_module_bluetooth.Base.{
  ℕ, zero, suc, ◌+◌, ◌-◌, ◌≤◌, ◌≡◌, refl, sym, ap, ◌∙◌, min, true, List, [], ◌∷◌, ◌++◌, length,
  take, drop, ltb, ◌==◌, arith, length-take, length-drop, length-splice, take-splice,
  drop-append_le, Bool-cases, inl, inr,
}
use canopus_module_bluetooth.Mp3.{required_input_window}
use canopus_module_bluetooth.Mp3.Window.{
  Window, pending, contents, free, compact, append, push, consume,
}

pub record IsValid (w : Window) : Type 0 where
  pub size : length w.input ≡ required_input_window
  pub ordered : w.input_start ≤ w.input_end
  pub inside : w.input_end ≤ required_input_window

module _ {ℓ} {A : Type ℓ} where
  take-nil : (k : ℕ) → take {A = A} k [] ≡ []
  take-nil zero = refl
  take-nil (suc k) = refl

  drop_all : (n : ℕ) (xs : List A) → length xs ≤ n → drop n xs ≡ []
  drop_all zero [] h = refl
  drop_all zero (x ∷ xs) h = absurd (omega arith)
  drop_all (suc n) [] h = refl
  drop_all (suc n) (x ∷ xs) h = drop_all n xs (omega arith)

  drop-take : (n k : ℕ) (xs : List A) → drop n (take (n + k) xs) ≡ take k (drop n xs)
  drop-take zero k xs = let e : 0 + k ≡ k = omega arith in rw e refl
  drop-take (suc n) k [] = let e : suc n + k ≡ suc (n + k) = omega arith in rw e (sym (take-nil k))
  drop-take (suc n) k (x ∷ xs) =
      let e : suc n + k ≡ suc (n + k) = omega arith in rw e (drop-take n k xs)

  drop-drop : (n k : ℕ) (xs : List A) → drop n (drop k xs) ≡ drop (k + n) xs
  drop-drop n zero xs = let e : 0 + n ≡ n = omega arith in rw e refl
  drop-drop zero (suc k) [] = let e : suc k + 0 ≡ suc k = omega arith in rw e refl
  drop-drop (suc n) (suc k) [] = let e : suc k + suc n ≡ suc (k + suc n) = omega arith in rw e refl
  drop-drop n (suc k) (x ∷ xs) =
      let e : suc k + n ≡ suc (k + n) = omega arith in rw e (drop-drop n k xs)

pub length-contents : (w : Window) → IsValid w → length (contents w) ≡ pending w
unfolding contents pending
length-contents w v = omega (
  arith,
  length-take (w.input_end - w.input_start) (drop w.input_start w.input),
  length-drop w.input_start w.input,
  v.size,
  v.ordered,
  v.inside,
)

pub pending_lem : (w : Window) → pending w ≡ w.input_end - w.input_start
unfolding pending
pending_lem w = refl

-- Where the bytes do not fit behind the pending ones, they fit once these are moved to the start.
compact_end :
    (w : Window) (count : ℕ)
    → ltb (length w.input - w.input_end) (min count (free w)) ≡ true
    → IsValid w
    → (compact w).input_end + min count (free w) ≤ required_input_window
unfolding compact free pending
compact_end w count e v = ground (arith, v.size, v.ordered, v.inside)

-- The contents, as what is left of the bytes up to the end.
contents_as_drop :
    (w : Window) → IsValid w → contents w ≡ drop w.input_start (take w.input_end w.input)
unfolding contents
contents_as_drop w v =
    let e : w.input_end ≡ w.input_start + (w.input_end - w.input_start) =
      omega (arith, v.ordered) in
    sym (
      ap (λ (k : ℕ). drop w.input_start (take k w.input)) e
      ∙ drop-take w.input_start (w.input_end - w.input_start) w.input)

pub compact_lem :
    (w : Window)
    → IsValid w
    → (contents (compact w) ≡ contents w) × IsValid (compact w) × ((compact w).input_start ≡ 0)
unfolding compact contents
compact_lem w v = elim (Bool-cases (w.input_start == 0)) [
  | inl e ↦ rw e (refl, v, ground arith)
  | inr e ↦
      (let bytes : List ℕ = contents w in
        let len : length bytes ≡ w.input_end - w.input_start =
          omega (arith, length-contents w v, pending_lem w) in
        let written = take-splice 0 bytes w.input (omega (arith, v.size, v.inside)) in
        let same : w.input_end - w.input_start - 0 ≡ 0 + length bytes = omega arith in
        rw e (
          rw same written,
          record {
            size = length-splice 0 bytes w.input ∙ v.size;
            ordered = omega arith;
            inside = omega (arith, v.inside);
          },
          refl,
        ))
]

append_lem :
    (bytes : List ℕ) (w : Window)
    → IsValid w
    → w.input_end + length bytes ≤ required_input_window
    → (contents (append bytes w) ≡ contents w ++ bytes) × IsValid (append bytes w)
unfolding append
append_lem bytes w v h =
    let after : IsValid (append bytes w) = record {
      size = length-splice w.input_end bytes w.input ∙ v.size;
      ordered = omega (arith, v.ordered);
      inside = h;
    } in
    let stored = take-splice w.input_end bytes w.input (omega (arith, v.size)) in
    let kept =
      drop-append_le w.input_start (take w.input_end w.input) bytes
        (omega (arith, length-take w.input_end w.input, v.size, v.ordered, v.inside)) in
    (
      contents_as_drop (append bytes w) after
          ∙ ap (drop w.input_start) stored
          ∙ kept
          ∙ ap (λ (xs : List ℕ). xs ++ bytes) (sym (contents_as_drop w v)),
      after,
    )

-- `push` says how many of the bytes it took: as many as `free` had offered. They follow the pending
-- bytes, and the window stays valid.
pub push_lem :
    (bytes : List ℕ) (w : Window)
    → IsValid w
    → ((push bytes w).0 ≡ min (length bytes) (free w))
      × (contents (push bytes w).1 ≡ contents w ++ take (push bytes w).0 bytes)
      × IsValid (push bytes w).1
unfolding push
push_lem bytes w v =
    let count : ℕ = min (length bytes) (free w) in
    let len : length (take count bytes) ≡ count = omega (arith, length-take count bytes) in
    elim (Bool-cases (ltb (length w.input - w.input_end) count)) [
      | inl e ↦
          (let (same, valid, start) = compact_lem w v in
            let fits : (compact w).input_end + length (take count bytes) ≤ required_input_window =
              omega (arith, len, compact_end w (length bytes) e v) in
            let (grown, after) = append_lem (take count bytes) (compact w) valid fits in
            rw e (refl, grown ∙ ap (λ (xs : List ℕ). xs ++ take count bytes) same, after))
      | inr e ↦
          (let (grown, after) =
              append_lem (take count bytes) w v (ground (arith, len, v.size, v.inside)) in
            rw e (refl, grown, after))
    ]

pub consume_lem :
    (count : ℕ) (w : Window)
    → IsValid w
    → count ≤ pending w
    → (contents (consume count w) ≡ drop count (contents w)) × IsValid (consume count w)
unfolding consume pending contents
consume_lem count w v h = elim (Bool-cases (w.input_start + count == w.input_end)) [
  | inl e ↦
      (let none_left : drop count (contents w) ≡ [] =
          drop_all count (contents w) (ground (arith, length-contents w v, pending_lem w)) in
        rw e (sym none_left, record { size = v.size; ordered = omega arith; inside = omega arith }))
  | inr e ↦
      (let w' : Window = record w { input_start = w.input_start + count } in
        let after : IsValid w' = record {
          size = v.size;
          ordered = omega (arith, v.ordered);
          inside = v.inside;
        } in
        rw e (
          contents_as_drop w' after
              ∙ sym (drop-drop count w.input_start (take w.input_end w.input))
              ∙ ap (drop count) (sym (contents_as_drop w v)),
          after,
        ))
]
