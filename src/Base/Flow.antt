-- ===== src/Base/Flow.antt =====
-- Rust's `Result`, and methods on `&mut self`: a method takes the state and returns its result
-- with the state that it leaves, on the error path too.
use mathlib.Core.Path.{◌≡◌, refl}
use mathlib.Core.Logic.{◌⊎◌, inl, inr}

pub data Result {ℓ κ} (E : Type ℓ) (A : Type κ) : Type (ℓ ⊔ κ) where
  ok : A → Result E A
  err : E → Result E A

pub Result-cases {ℓ κ} :
    {E : Type ℓ} {A : Type κ} (r : Result E A) → ((a : A) × (r ≡ ok a)) ⊎ ((e : E) × (r ≡ err e))
Result-cases (ok a) = inl (a, refl)
Result-cases (err e) = inr (e, refl)

abbrev pub Method : Type 0 → Type 0 → Type 0 → Type 0
Method S E A = S → Result E A × S

-- `?` on a call: an error returns at once, with the state as the call left it.
abbrev pub then_on_ok {ℓ} :
    {S E A : Type 0} {B : Type ℓ} → Result E A × S → (A → S → Result E B × S) → Result E B × S
then_on_ok (ok a, s) f = f a s
then_on_ok (err e, s) f = (err e, s)

infixl 5 ◌>>=◌ ◌>>◌
abbrev pub ◌>>=◌ : {S E A B : Type 0} → Method S E A → (A → Method S E B) → Method S E B
◌>>=◌ m f s = then_on_ok (m s) f

abbrev pub ◌>>◌ : {S E B : Type 0} → Method S E (Unit {0}) → Method S E B → Method S E B
◌>>◌ m k s = then_on_ok (m s) (λ _. k)

abbrev pub pure : {S E A : Type 0} → A → Method S E A
pure a s = (ok a, s)

abbrev pub fail : {S E A : Type 0} → E → Method S E A
fail e s = (err e, s)

-- An assignment to fields of the state.
abbrev pub update : {S E : Type 0} → (S → S) → Method S E (Unit {0})
update f s = (ok tt, f s)
