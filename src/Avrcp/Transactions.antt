-- ===== src/Avrcp/Transactions.antt =====
-- Which transaction label a command gets, and the volume scales.
use canopus_module_bluetooth.Base.{
  ℕ, suc, ◌+◌, ◌%◌, ◌≤◌, ◌<◌, ◌≡◌, ◌≢◌, ap, inl, inr, refl, Bool, true, false, not, ◌&&◌, Option,
  some, arith, Bool-cases, ◌==◌,
}
use canopus_module_bluetooth.Avrcp.{
  Controller, allocate, allocate_transaction, percent_to_absolute, absolute_to_percent,
}

-- The loop gives a label of its own, and changes the next label alone.
pub record Allocates (c : Controller) (r : Option ℕ × Controller) : Type 0 where
  pub label : ℕ
  pub allocated : r.0 ≡ some label
  pub in_range : label < 16
  pub not_control : label ≢ c.control_transaction
  pub not_notification : label ≢ c.notification_transaction
  pub others : record r.1 { next_transaction = c.next_transaction } ≡ c
  pub follows : r.1.next_transaction ≡ (label + 1) % 16

abbrev moved : Controller → Controller
moved c = record c { next_transaction = (c.next_transaction + 1) % 256 % 16 }

abbrev is_free : Controller → Bool
is_free c =
    not (c.next_transaction % 16 == c.control_transaction)
    && not (c.next_transaction % 16 == c.notification_transaction)

round_here : (k : ℕ) (c : Controller) → is_free c ≡ true → Allocates c (allocate (suc k) c)
unfolding allocate
round_here k c h = rw h record {
  label = c.next_transaction % 16;
  allocated = refl;
  in_range = omega arith;
  not_control = ground (arith, h);
  not_notification = ground (arith, h);
  others = refl;
  follows = omega arith;
}

round_later :
    (k : ℕ) (c : Controller)
    → is_free c ≡ false
    → Allocates (moved c) (allocate k (moved c))
    → Allocates c (allocate (suc k) c)
unfolding allocate
round_later k c h later = rw h record {
  label = later.label;
  allocated = later.allocated;
  in_range = later.in_range;
  not_control = later.not_control;
  not_notification = later.not_notification;
  others = ap (λ (x : Controller). record x { next_transaction = c.next_transaction }) later.others;
  follows = later.follows;
}

-- `allocate_transaction` always finds a label below 16 that neither live transaction has, and changes
-- nothing but the label to try next, which follows the one found modulo 16.
pub allocate_transaction-Allocates : (c : Controller) → Allocates c (allocate_transaction c)
unfolding allocate_transaction
allocate_transaction-Allocates c = elim (Bool-cases (is_free c)) [
  | inl e ↦ round_here 15 c e
  | inr e ↦ round_later 15 c e (elim (Bool-cases (is_free (moved c))) [
    | inl f ↦ round_here 14 (moved c) f
    | inr f ↦ round_later 14 (moved c) f (elim (Bool-cases (is_free (moved (moved c)))) [
      | inl g ↦ round_here 13 (moved (moved c)) g
      | inr g ↦ absurd (ground (arith, e, f, g))
    ])
  ])
]

-- A percentage sent as an absolute volume and read back is the same or one more.
pub percent_within_one :
    (p : ℕ)
    → p ≤ 100
    → (p ≤ absolute_to_percent (percent_to_absolute p))
      × (absolute_to_percent (percent_to_absolute p) ≤ p + 1)
unfolding percent_to_absolute absolute_to_percent
percent_within_one p h = omega arith
