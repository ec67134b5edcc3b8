-- ===== src/Discovery/Order.antt =====
-- `comes_before` and `sort`.
use mathlib.Core.List.{
  reverse, Perm, reverse_perm, reverse-cons, append_assoc, append-nil, perm_middle,
}
use mathlib.Core.List.Perm
use canopus_module_bluetooth.Base.{
  ◌≡◌, true, false, List, [], ◌∷◌, ◌++◌, arith, Bool-cases, inl, inr,
}
use canopus_module_bluetooth.Base.Int.{ℤ, ltbℤ}
use canopus_module_bluetooth.Discovery.{
  Address, DiscoveredDevice, address_lt, comes_before, sink_left, sort_loop, sort,
}

address_lt_asymm : (a b : Address) → address_lt a b ≡ true → address_lt b a ≡ false
unfolding address_lt
address_lt_asymm [] b h = cc
address_lt_asymm (x ∷ xs) [] h = cc
address_lt_asymm (x ∷ xs) (y ∷ ys) h = ground (arith, address_lt_asymm xs ys)

ltbℤ_asymm : (a b : ℤ) → ltbℤ a b ≡ true → ltbℤ b a ≡ false
ltbℤ_asymm a b h = ground arith

pub comes_before_asymm :
    (a b : DiscoveredDevice) → comes_before a b ≡ true → comes_before b a ≡ false
unfolding comes_before
comes_before_asymm a b h = ground (arith, address_lt_asymm a.address b.address)

-- Nothing stands right behind an entry that should come before it. Nearest first.
abbrev IsSettled : List DiscoveredDevice → Type 0
IsSettled [] = Unit
IsSettled (d ∷ []) = Unit
IsSettled (d ∷ e ∷ es) = (comes_before d e ≡ false) × IsSettled (e ∷ es)

-- The same, in the order of the table.
abbrev pub IsOrdered : List DiscoveredDevice → Type 0
IsOrdered [] = Unit
IsOrdered (d ∷ []) = Unit
IsOrdered (d ∷ e ∷ es) = (comes_before e d ≡ false) × IsOrdered (e ∷ es)

sink_left-IsSettled :
    (d : DiscoveredDevice) (es : List DiscoveredDevice) → IsSettled es → IsSettled (sink_left d es)
unfolding sink_left
sink_left-IsSettled d [] h = tt
sink_left-IsSettled d (x ∷ []) h = ground (arith, comes_before_asymm d x)
sink_left-IsSettled d (x ∷ y ∷ ys) h =
    ground (arith, comes_before_asymm d x, comes_before_asymm d y, sink_left-IsSettled d (y ∷ ys))

sink_left-perm :
    (d : DiscoveredDevice) (es : List DiscoveredDevice) → Perm (sink_left d es) (d ∷ es)
unfolding sink_left
sink_left-perm d [] = Perm.refl (d ∷ [])
sink_left-perm d (x ∷ xs) = elim (Bool-cases (comes_before d x)) [
  | inl e ↦ rw e (Perm.trans (Perm.cons x (sink_left-perm d xs)) (Perm.swap d x xs))
  | inr e ↦ rw e (Perm.refl (d ∷ x ∷ xs))
]

IsOrdered-snoc :
    (d e : DiscoveredDevice) (xs : List DiscoveredDevice)
    → IsOrdered (xs ++ (e ∷ []))
    → comes_before d e ≡ false
    → IsOrdered (xs ++ (e ∷ d ∷ []))
IsOrdered-snoc d e [] h k = (k, tt)
IsOrdered-snoc d e (x ∷ []) h k = (h.0, (k, tt))
IsOrdered-snoc d e (x ∷ y ∷ ys) h k = (h.0, IsOrdered-snoc d e (y ∷ ys) h.1 k)

reverse-IsOrdered : (es : List DiscoveredDevice) → IsSettled es → IsOrdered (reverse es)
reverse-IsOrdered [] h = tt
reverse-IsOrdered (d ∷ []) h = tt
reverse-IsOrdered (d ∷ e ∷ es) h =
    rw (reverse-cons d (e ∷ es), reverse-cons e es, append_assoc)
      (IsOrdered-snoc d e (reverse es) (rw reverse-cons at (reverse-IsOrdered (e ∷ es) h.1)) h.0)

sort_loop-IsOrdered :
    (done ds : List DiscoveredDevice) → IsSettled done → IsOrdered (sort_loop done ds)
unfolding sort_loop
sort_loop-IsOrdered done [] h = reverse-IsOrdered done h
sort_loop-IsOrdered done (d ∷ ds) h =
    sort_loop-IsOrdered (sink_left d done) ds (sink_left-IsSettled d done h)

sort_loop-perm : (done ds : List DiscoveredDevice) → Perm (sort_loop done ds) (done ++ ds)
unfolding sort_loop
sort_loop-perm done [] = rw append-nil (reverse_perm done)
sort_loop-perm done (d ∷ ds) =
    Perm.trans (sort_loop-perm (sink_left d done) ds)
      (Perm.trans (Perm.append_right ds (sink_left-perm d done)) (Perm.symm (perm_middle done ds)))

-- `sort` orders any list: no entry comes before the one listed just above it, and the entries are
-- the same.
pub sort-IsOrdered : (ds : List DiscoveredDevice) → IsOrdered (sort ds) × Perm (sort ds) ds
unfolding sort
sort-IsOrdered ds = (sort_loop-IsOrdered [] ds tt, sort_loop-perm [] ds)
