-- ===== src/Discovery/Table.antt =====
-- What `upsert` keeps of the table.
use mathlib.Core.List.{reverse, reverse-cons}
use canopus_module_bluetooth.Base.{
  ℕ, ◌+◌, ◌≤◌, ◌≡◌, refl, ◌∙◌, true, false, List, [], ◌∷◌, ◌++◌, length, length-append, arith,
  Bool-cases, inl, inr, if◌then◌else◌, bytes_eq, bytes_eq→eq, ◌==◌,
}
use canopus_module_bluetooth.Discovery.{
  Address, DiscoveredDevice, DiscoveryTable, is_zero, known, replace_entry, sort, sort_loop,
  sink_left, comes_before, upsert, begin_scan, empty_table, discovery_capacity,
}
use canopus_module_bluetooth.Discovery.Order.{IsOrdered, sort-IsOrdered}

-- A sum over the entries.
abbrev tally : (DiscoveredDevice → ℕ) → List DiscoveredDevice → ℕ
tally f [] = 0
tally f (d ∷ ds) = f d + tally f ds

-- One for an entry that has the address.
abbrev at : Address → DiscoveredDevice → ℕ
at a d = if bytes_eq d.address a then 1 else 0

module _ (f : DiscoveredDevice → ℕ) where
  tally-append : (xs ys : List DiscoveredDevice) → tally f (xs ++ ys) ≡ tally f xs + tally f ys
  tally-append [] ys = omega arith
  tally-append (x ∷ xs) ys = omega (arith, tally-append xs ys)

  tally-reverse : (xs : List DiscoveredDevice) → tally f (reverse xs) ≡ tally f xs
  tally-reverse [] = refl
  tally-reverse (x ∷ xs) = rw (reverse-cons x xs, tally-append) (omega (arith, tally-reverse xs))

  tally-sink_left :
      (d : DiscoveredDevice) (xs : List DiscoveredDevice)
      → tally f (sink_left d xs) ≡ f d + tally f xs
  unfolding sink_left
  tally-sink_left d [] = refl
  tally-sink_left d (x ∷ xs) = elim (Bool-cases (comes_before d x)) [
    | inl e ↦ rw e (omega (arith, tally-sink_left d xs))
    | inr e ↦ rw e refl
  ]

  tally-sort_loop :
      (done xs : List DiscoveredDevice) → tally f (sort_loop done xs) ≡ tally f done + tally f xs
  unfolding sort_loop
  tally-sort_loop done [] = omega (arith, tally-reverse done)
  tally-sort_loop done (x ∷ xs) =
      omega (arith, tally-sort_loop (sink_left x done) xs, tally-sink_left x done)

  tally-sort : (xs : List DiscoveredDevice) → tally f (sort xs) ≡ tally f xs
  unfolding sort
  tally-sort xs = omega (arith, tally-sort_loop [] xs)

  tally-replace_entry :
      (d : DiscoveredDevice) (xs : List DiscoveredDevice)
      → ((e : DiscoveredDevice) → e.address ≡ d.address → f e ≡ f d)
      → tally f (replace_entry d xs) ≡ tally f xs
  unfolding replace_entry
  tally-replace_entry d [] h = refl
  tally-replace_entry d (x ∷ xs) h = elim (Bool-cases (bytes_eq x.address d.address)) [
    | inl e ↦ rw e (omega (arith, h x (bytes_eq→eq x.address d.address e)))
    | inr e ↦ rw e (omega (arith, tally-replace_entry d xs h))
  ]

length-tally : (xs : List DiscoveredDevice) → length xs ≡ tally (λ d. 1) xs
length-tally [] = refl
length-tally (x ∷ xs) = omega (arith, length-tally xs)

length-sort : (xs : List DiscoveredDevice) → length (sort xs) ≡ length xs
length-sort xs = omega (arith, length-tally (sort xs), tally-sort (λ d. 1) xs, length-tally xs)

length-replace_entry :
    (d : DiscoveredDevice) (xs : List DiscoveredDevice) → length (replace_entry d xs) ≡ length xs
length-replace_entry d xs = omega (
  arith,
  length-tally (replace_entry d xs),
  tally-replace_entry (λ d. 1) d xs (λ e h. refl),
  length-tally xs,
)

unknown_absent :
    (a : Address) (xs : List DiscoveredDevice) → known a xs ≡ false → tally (at a) xs ≡ 0
unfolding known
unknown_absent a [] h = refl
unknown_absent a (x ∷ xs) h = ground (arith, unknown_absent a xs)

known_present : (a : Address) (xs : List DiscoveredDevice) → known a xs ≡ true → 1 ≤ tally (at a) xs
unfolding known
known_present a [] h = cc
known_present a (x ∷ xs) h = ground (arith, known_present a xs)

-- The entries fit in the array, are ordered, have distinct addresses and none is zero.
pub record IsTable (t : DiscoveryTable) : Type 0 where
  pub room : length t.entries ≤ discovery_capacity
  pub ordered : IsOrdered t.entries
  pub distinct : (a : Address) → tally (at a) t.entries ≤ 1
  pub nonzero : (a : Address) → is_zero a ≡ true → tally (at a) t.entries ≡ 0

module _ (d : DiscoveredDevice) (t : DiscoveryTable) (v : IsTable t) where
  replaced-IsTable :
      is_zero d.address ≡ false
      → (e : DiscoveredDevice) → e.address ≡ d.address
      → IsTable (record t { entries = sort (replace_entry e t.entries) })
  replaced-IsTable z e h = record {
    room =
        omega (
          arith,
          v.room,
          length-sort (replace_entry e t.entries),
          length-replace_entry e t.entries,
        );
    ordered = (sort-IsOrdered (replace_entry e t.entries)).0;
    distinct = λ a. omega (arith, v.distinct a, same a);
    nonzero = λ a k. omega (arith, v.nonzero a k, same a);
  }
    where
      same :
          (a : Address) → tally (at a) (sort (replace_entry e t.entries)) ≡ tally (at a) t.entries
      same a =
          tally-sort (at a) (replace_entry e t.entries)
          ∙ tally-replace_entry (at a) e t.entries (λ x k. rw k refl)

  at_other : (a : Address) (e : DiscoveredDevice) → bytes_eq e.address a ≡ false → at a e ≡ 0
  at_other a e h = rw h refl

  at_most_one : (a : Address) (e : DiscoveredDevice) → at a e ≤ 1
  at_most_one a e = ground arith

  appended-IsTable :
      (e : DiscoveredDevice)
      → is_zero e.address ≡ false
      → known e.address t.entries ≡ false
      → (length t.entries == discovery_capacity) ≡ false
      → IsTable (record t { entries = sort (t.entries ++ (e ∷ [])) })
  appended-IsTable e z k c = record {
    room =
        ground
          (arith, v.room, c, length-sort (t.entries ++ (e ∷ [])), length-append t.entries (e ∷ []));
    ordered = (sort-IsOrdered (t.entries ++ (e ∷ []))).0;
    distinct = λ a. elim (Bool-cases (bytes_eq e.address a)) [
      | inl h ↦
          (let w = unknown_absent e.address t.entries k in
            omega (arith, sum a, at_most_one a e, rw (bytes_eq→eq e.address a h) at w))
      | inr h ↦ omega (arith, sum a, at_other a e h, v.distinct a)
    ];
    nonzero = λ a h. elim (Bool-cases (bytes_eq e.address a)) [
      | inl g ↦ (let w = rw (bytes_eq→eq e.address a g) at z in cc)
      | inr g ↦ omega (arith, sum a, at_other a e g, v.nonzero a h)
    ];
  }
    where
      sum :
          (a : Address)
          → tally (at a) (sort (t.entries ++ (e ∷ []))) ≡ tally (at a) t.entries + at a e
      sum a =
          omega (
            arith,
            tally-sort (at a) (t.entries ++ (e ∷ [])),
            tally-append (at a) t.entries (e ∷ []),
          )

-- From a table whose entries fit in the array, stand in order and have distinct, nonzero addresses,
-- `upsert` of any device leaves such a table.
pub upsert-IsTable :
    (d : DiscoveredDevice) (t : DiscoveryTable) → IsTable t → IsTable (upsert d t).1
unfolding upsert
upsert-IsTable d t v = elim (Bool-cases (is_zero d.address)) [
  | inl e ↦ rw e v
  | inr e ↦ elim (Bool-cases (known d.address t.entries)) [
    | inl f ↦ rw (e, f) (replaced-IsTable d t v e (record d { last_seen_epoch = t.epoch }) refl)
    | inr f ↦ elim (Bool-cases (length t.entries == discovery_capacity)) [
      | inl g ↦
          rw (e, f, g)
            record {
              room = v.room;
              ordered = v.ordered;
              distinct = v.distinct;
              nonzero = v.nonzero;
            }
      | inr g ↦ rw (e, f, g) (appended-IsTable d t v (record d { last_seen_epoch = t.epoch }) e f g)
    ]
  ]
]

pub begin_scan-IsTable : (t : DiscoveryTable) → IsTable (begin_scan t).1
unfolding begin_scan
begin_scan-IsTable t = record {
  room = omega arith;
  ordered = tt;
  distinct = λ a. omega arith;
  nonzero = λ a h. refl;
}

pub empty_table-IsTable : IsTable empty_table
empty_table-IsTable = record {
  room = omega arith;
  ordered = tt;
  distinct = λ a. omega arith;
  nonzero = λ a h. refl;
}
