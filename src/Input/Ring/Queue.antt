-- ===== src/Input/Ring/Queue.antt =====
-- The ring as a first-in-first-out queue of bytes.
use canopus_module_bluetooth.Base.{
  ℕ, ◌+◌, ◌-◌, ◌%◌, ◌≤◌, ◌<◌, min, ◌≡◌, refl, sym, ap, ◌∙◌, List, [], ◌++◌, length, take, drop,
  arith, length-take, take-append, drop-append,
}
use canopus_module_bluetooth.Base.Words.{wrapping_add, wrapping_sub, u32_mod}
use canopus_module_bluetooth.Input.Ring.{InputRing, used, copy_in, copy_out, write, read, reset}
use canopus_module_bluetooth.Input.Ring.Slots.{
  IsCapacity, length-copy_out, copy_out-append, copy_out_shift, copy_out_after,
}

pub record IsValid (n : ℕ) (r : InputRing) : Type 0 where
  pub head_u32 : r.head < u32_mod
  pub tail_u32 : r.tail < u32_mod
  pub bounded : wrapping_sub r.head r.tail ≤ n

-- The published bytes, oldest first.
unfoldable pub contents : ℕ → InputRing → List ℕ
contents n r = copy_out n r.bytes r.tail 0 (wrapping_sub r.head r.tail)

-- The cursors after a commit of `k` bytes.
filled_after_write :
    (n head tail k : ℕ)
    → head < u32_mod
    → tail < u32_mod
    → n < u32_mod
    → wrapping_sub head tail + k ≤ n
    → (wrapping_sub (wrapping_add head k) tail ≡ wrapping_sub head tail + k)
      × (head ≡ (tail + wrapping_sub head tail) % u32_mod)
filled_after_write n head tail k hh ht hn hk = omega arith

filled_after_read :
    (n head tail k : ℕ)
    → head < u32_mod
    → tail < u32_mod
    → n < u32_mod
    → wrapping_sub head tail ≤ n
    → k ≤ wrapping_sub head tail
    → wrapping_sub head (wrapping_add tail k) + k ≡ wrapping_sub head tail
filled_after_read n head tail k hh ht hn hb hk = omega arith

drop-append_length :
    (xs ys : List ℕ) (k : ℕ) → length xs ≡ k → (take k (xs ++ ys) ≡ xs) × (drop k (xs ++ ys) ≡ ys)
drop-append_length xs ys k e = rw (← e) (take-append xs ys, drop-append xs ys)

-- What `write` accepts: as much of the input as there is room for.
abbrev pub accepted : ℕ → List ℕ → InputRing → ℕ
accepted n input r = min (length input) (n - length (contents n r))

-- What `read` hands out: as much as is there, up to the length of the caller's slice.
abbrev pub delivered : ℕ → ℕ → InputRing → ℕ
delivered n room r = min room (length (contents n r))

length-take-min : (xs : List ℕ) (k : ℕ) → length (take (min (length xs) k) xs) ≡ min (length xs) k
length-take-min xs k = omega (arith, length-take (min (length xs) k) xs)

module _ (n : ℕ) (c : IsCapacity n) (r : InputRing) (v : IsValid n r) where
  pub length-contents : length (contents n r) ≡ wrapping_sub r.head r.tail
  unfolding contents
  length-contents = length-copy_out n r.bytes r.tail 0 (wrapping_sub r.head r.tail)

  pub used-length : used n r ≡ length (contents n r)
  unfolding used
  used-length = omega (arith, v.bounded, length-contents)

  pub write_lem :
      (input : List ℕ)
      → let k = accepted n input r in
        write n input r ≡ (
          k,
          record {
            bytes = copy_in n r.bytes r.head 0 (take k input);
            head = wrapping_add r.head k;
            tail = r.tail;
          },
        )
  unfolding write
  write_lem input =
      let e : min (wrapping_sub r.head r.tail) n ≡ length (contents n r) =
        omega (arith, v.bounded, length-contents) in
      rw e (ground arith)

  pub write_count : (input : List ℕ) → (write n input r).0 ≡ accepted n input r
  write_count input = ap (λ p. p.0) (write_lem input)

  -- On a valid ring, `write` appends to the published bytes as much of the input as there is room
  -- for.
  pub contents-write :
      (input : List ℕ)
      → contents n (write n input r).1 ≡ contents n r ++ take (accepted n input r) input
  unfolding contents
  contents-write input =
      let k : ℕ = accepted n input r in
      let bs : List ℕ = take k input in
      let w : ℕ = wrapping_sub r.head r.tail in
      let len : length bs ≡ k = length-take-min input (n - length (contents n r)) in
      let fits : w + length bs ≤ n = omega (arith, len, length-contents, v.bounded) in
      let cursors =
        filled_after_write n r.head r.tail (length bs) v.head_u32 v.tail_u32 c.fits fits in
      rw write_lem (cc (copy_out_after n c r.bytes r.tail w bs fits, cursors.0, cursors.1, len))

  pub write-IsValid : (input : List ℕ) → IsValid n (write n input r).1
  write-IsValid input =
      rw write_lem (omega (arith, length-contents, v.bounded, c.fits, v.head_u32, v.tail_u32))

  pub read_lem :
      (room : ℕ)
      → let k = delivered n room r in
        read n room r
        ≡ (copy_out n r.bytes r.tail 0 k, k, record r { tail = wrapping_add r.tail k })
  unfolding read
  read_lem room =
      let e : min (wrapping_sub r.head r.tail) n ≡ length (contents n r) =
        omega (arith, v.bounded, length-contents) in
      rw e (ground arith)

  -- The first `k` published bytes, and what is published once the tail has passed them.
  pub contents_split :
      (k : ℕ)
      → k ≤ length (contents n r)
      → contents n r
        ≡ copy_out n r.bytes r.tail 0 k ++ contents n (record r { tail = wrapping_add r.tail k })
  unfolding contents
  contents_split k h =
      let rest : ℕ = wrapping_sub r.head (wrapping_add r.tail k) in
      let e : wrapping_sub r.head r.tail ≡ k + rest = omega (
        arith,
        filled_after_read n r.head r.tail k v.head_u32 v.tail_u32 c.fits v.bounded,
        length-contents,
      ) in
      let e' : k + 0 ≡ 0 + k = omega arith in
      rw (copy_out_shift n c r.bytes r.tail k 0 rest, e, e')
        (copy_out-append n r.bytes r.tail 0 k rest)

  pub advance :
      (k : ℕ)
      → k ≤ length (contents n r)
      → let r' = record r { tail = wrapping_add r.tail k } in
        (copy_out n r.bytes r.tail 0 k ≡ take k (contents n r))
        × (contents n r' ≡ drop k (contents n r))
        × IsValid n r'
  advance k h =
      let r' : InputRing = record r { tail = wrapping_add r.tail k } in
      let parts =
        drop-append_length (copy_out n r.bytes r.tail 0 k) (contents n r') k
          (length-copy_out n r.bytes r.tail 0 k) in
      let e = contents_split k h in
      (
        sym (ap (take k) e ∙ parts.0),
        sym (ap (drop k) e ∙ parts.1),
        omega (
          arith,
          filled_after_read n r.head r.tail k v.head_u32 v.tail_u32 c.fits v.bounded,
          length-contents,
          v.head_u32,
          v.bounded,
        ),
      )

  -- On a valid ring, `read` takes the oldest bytes off the queue, says how many, and leaves a valid
  -- ring.
  pub read-contents :
      (room : ℕ)
      → let k = delivered n room r in
        ((read n room r).0 ≡ take k (contents n r))
        × ((read n room r).1 ≡ k)
        × (contents n (read n room r).2 ≡ drop k (contents n r))
        × IsValid n (read n room r).2
  read-contents room =
      let parts = advance (delivered n room r) (omega arith) in
      rw read_lem (parts.0, refl, parts.1, parts.2)

  pub reset-contents : (contents n (reset n r) ≡ []) × IsValid n (reset n r)
  unfolding reset contents copy_out
  reset-contents =
      let e : wrapping_sub (wrapping_add r.head n) (wrapping_add r.head n) ≡ 0 = omega arith in
      (rw e refl, omega arith)
