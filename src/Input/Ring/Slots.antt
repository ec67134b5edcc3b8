-- ===== src/Input/Ring/Slots.antt =====
-- The slots that `InputRing` reads and writes, by their distance from a cursor that wraps.
use native.Mathlib.Nat.{mod-add-mod, mod-lt, mod-mod_of_dvd, dvd_of_mod-eq-zero}
use canopus_module_bluetooth.Base.{
  ℕ, zero, suc, ◌+◌, ◌-◌, ◌%◌, ◌≤◌, ◌<◌, ◌≡◌, ◌≢◌, refl, sym, ap, ◌∙◌, List, [], ◌∷◌, ◌++◌, length,
  arith,
}
use canopus_module_bluetooth.Base.Words.{u32_mod}
use canopus_module_bluetooth.Input.Ring.{put, copy_in, copy_out}

-- What the constructor asserts of `N`: a power of two that fits a u32, so it divides 2 ^ 32.
pub record IsCapacity (n : ℕ) : Type 0 where
  pub positive : 0 < n
  pub fits : n < u32_mod
  pub divides : u32_mod % n ≡ 0

mod-ne_shift : (n r d : ℕ) → r < n → 0 < d → d < n → (r + d) % n ≢ r
mod-ne_shift n r d h k l e = grind arith

pub length-copy_out : (n : ℕ) (f : ℕ → ℕ) (tail o k : ℕ) → length (copy_out n f tail o k) ≡ k
unfolding copy_out
length-copy_out n f tail o zero = refl
length-copy_out n f tail o (suc k) = ap suc (length-copy_out n f tail (o + 1) k)

pub copy_out-append :
    (n : ℕ) (f : ℕ → ℕ) (tail o j k : ℕ)
    → copy_out n f tail o (j + k) ≡ copy_out n f tail o j ++ copy_out n f tail (o + j) k
unfolding copy_out
copy_out-append n f tail o zero k = ground arith
copy_out-append n f tail o (suc j) k =
    let e : suc j + k ≡ suc (j + k) = omega arith in
    let e' : o + suc j ≡ (o + 1) + j = omega arith in
    rw (e, e') (ap (◌∷◌ (f ((tail + o) % n))) (copy_out-append n f tail (o + 1) j k))

module _ (n : ℕ) (c : IsCapacity n) where
  index_wrap : (a k : ℕ) → (a % u32_mod + k) % n ≡ (a + k) % n
  index_wrap a k =
      sym (mod-add-mod (a % u32_mod) n k)
      ∙ ap (λ (x : ℕ). (x + k) % n) (mod-mod_of_dvd n a (dvd_of_mod-eq-zero n c.divides))
      ∙ mod-add-mod a n k

  index_ne : (a i j : ℕ) → i < j → j < i + n → (a + i) % n ≢ (a + j) % n
  index_ne a i j h k e =
      mod-ne_shift n ((a + i) % n) (j - i) (mod-lt (a + i) c.positive) (omega arith) (omega arith)
        (mod-add-mod (a + i) n (j - i) ∙ ap (λ (x : ℕ). x % n) (omega arith) ∙ sym e)

  -- The same slots through another cursor.
  pub copy_out_shift :
      (f : ℕ → ℕ) (a d o k : ℕ) → copy_out n f ((a + d) % u32_mod) o k ≡ copy_out n f a (d + o) k
  unfolding copy_out
  copy_out_shift f a d o zero = refl
  copy_out_shift f a d o (suc k) =
      rw (index_wrap (a + d) o) (ground (arith, copy_out_shift f a d (o + 1) k))

  -- Writing at offset `i` is not seen from offset `o` on, `k` slots, unless `i` is among them.
  copy_out-put :
      (f : ℕ → ℕ) (a i v o k : ℕ)
      → o + k ≤ i
      → i < o + n
      → copy_out n (put f ((a + i) % n) v) a o k ≡ copy_out n f a o k
  unfolding copy_out
  copy_out-put f a i v o zero h l = refl
  copy_out-put f a i v o (suc k) h l =
      ground (arith, index_ne a o i, copy_out-put f a i v (o + 1) k)

  copy_in_shift :
      (f : ℕ → ℕ) (a d o : ℕ) (bs : List ℕ)
      → copy_in n f ((a + d) % u32_mod) o bs ≡ copy_in n f a (d + o) bs
  unfolding copy_in
  copy_in_shift f a d o [] = refl
  copy_in_shift f a d o (b ∷ bs) =
      rw (index_wrap (a + d) o)
        (ground (arith, copy_in_shift (put f ((a + (d + o)) % n) b) a d (o + 1) bs))

  -- What stands before the written slots stays.
  copy_out-copy_in_below :
      (f : ℕ → ℕ) (a i o k : ℕ) (bs : List ℕ)
      → o + k ≤ i
      → i + length bs ≤ o + n
      → copy_out n (copy_in n f a i bs) a o k ≡ copy_out n f a o k
  unfolding copy_in
  copy_out-copy_in_below f a i o k [] h l = refl
  copy_out-copy_in_below f a i o k (b ∷ bs) h l =
      copy_out-copy_in_below (put f ((a + i) % n) b) a (i + 1) o k bs (omega arith) (omega arith)
      ∙ copy_out-put f a i b o k h (omega arith)

  copy_out-copy_in :
      (f : ℕ → ℕ) (a i : ℕ) (bs : List ℕ)
      → length bs ≤ n
      → copy_out n (copy_in n f a i bs) a i (length bs) ≡ bs
  unfolding copy_in copy_out
  copy_out-copy_in f a i [] h = refl
  copy_out-copy_in f a i (b ∷ bs) h =
      let g : ℕ → ℕ = put f ((a + i) % n) b in
      ground (
        arith,
        copy_out-copy_in_below g a (i + 1) i 1 bs (omega arith) (omega arith),
        copy_out-copy_in g a (i + 1) bs (omega arith),
      )

  pub copy_out_after :
      (f : ℕ → ℕ) (tail w : ℕ) (bs : List ℕ)
      → w + length bs ≤ n
      → copy_out n (copy_in n f ((tail + w) % u32_mod) 0 bs) tail 0 (w + length bs)
        ≡ copy_out n f tail 0 w ++ bs
  copy_out_after f tail w bs h =
      let e : w + 0 ≡ w = omega arith in
      let e' : 0 + w ≡ w = omega arith in
      rw
        (
          copy_in_shift f tail w 0 bs,
          e,
          copy_out-append,
          e',
          copy_out-copy_in f tail w bs (omega arith),
        )
        (ap (λ (xs : List ℕ). xs ++ bs)
          (copy_out-copy_in_below f tail w 0 w bs (omega arith) (omega arith)))
