-- ===== src/Input/Ring/Races.antt =====
-- What happens between the loads of `write` or `read` and its compare-exchange: the other side's
-- whole call, or resets of the ring.
use canopus_module_bluetooth.Base.{
  ℕ, zero, suc, ◌+◌, ◌*◌, ◌%◌, ◌≤◌, ◌<◌, ◌≡◌, ◌≢◌, ◌∙◌, sym, ap, refl, List, [], ◌++◌, take, drop,
  length, length-append, drop-append_le, take-append_le, min, arith,
}
use canopus_module_bluetooth.Base.Words.{wrapping_add, wrapping_sub, u32_mod}
use canopus_module_bluetooth.Input.Ring.{
  InputRing, Claim, claim_write, commit_write, claim_read, commit_read, copy_in, copy_out, write,
  read, reset,
}
use canopus_module_bluetooth.Input.Ring.Slots.{IsCapacity}
use canopus_module_bluetooth.Input.Ring.Queue.{
  IsValid, contents, accepted, delivered, length-contents, read_lem, write_lem, advance,
  contents-write, write-IsValid,
}

abbrev pub resets : ℕ → ℕ → InputRing → InputRing
resets zero n r = r
resets (suc j) n r = resets j n (reset n r)

resets_cursors :
    (j n : ℕ) (r : InputRing)
    → let r' = resets (suc j) n r in
      (r'.head ≡ (r.head + suc j * n) % u32_mod) × (r'.tail ≡ r'.head)
unfolding reset
resets_cursors zero n r = omega arith
resets_cursors (suc j) n r = omega (arith, resets_cursors j n (reset n r))

lost_write : (cl : Claim) (r : InputRing) → r.head ≢ cl.cursor → commit_write cl r ≡ (0, r)
unfolding commit_write
lost_write cl r h = ground (arith, h)

lost_read : (cl : Claim) (r : InputRing) → r.tail ≢ cl.cursor → commit_read cl r ≡ (0, r)
unfolding commit_read
lost_read cl r h = ground (arith, h)

cursor_moved : (h m : ℕ) → h < u32_mod → 0 < m → m < u32_mod → (h + m) % u32_mod ≢ h
cursor_moved h m p q l e = omega arith

empty_cursors : (n : ℕ) (r : InputRing) → r.tail ≡ r.head → contents n r ≡ []
unfolding contents copy_out
empty_cursors n r e =
    let none_left : wrapping_sub r.head r.tail ≡ 0 = omega arith in rw none_left refl

commit_unmoved :
    (cl : Claim) (r : InputRing)
    → r.head ≡ cl.cursor
    → commit_write cl r ≡ (cl.count, record r { head = wrapping_add cl.cursor cl.count })
unfolding commit_write
commit_unmoved cl r h = ground arith

module _ (n : ℕ) (c : IsCapacity n) (r : InputRing) (v : IsValid n r) where
  module _ (j : ℕ) (few : (j + 2) * n < u32_mod) where
    head_moved : (r.head + suc j * n) % u32_mod ≢ r.head
    head_moved =
        cursor_moved r.head (suc j * n) v.head_u32 (omega (arith, c.positive)) (omega arith)

    tail_moved : (r.head + suc j * n) % u32_mod ≢ r.tail
    tail_moved e =
        let w : ℕ = wrapping_sub r.head r.tail in
        cursor_moved r.tail (w + suc j * n) v.tail_u32 (omega (arith, c.positive))
          (omega (arith, v.bounded)) (omega (arith, v.head_u32, v.tail_u32))

  -- On a valid ring, a writer or a reader that loaded its cursors before some resets commits nothing after them:
  -- the ring stays as the resets left it, empty. For the cursors to come round to the same value
  -- it takes more resets than there are capacities in 2 ^ 32, less two.
  pub stale_claims_lost :
      (j : ℕ) (input : List ℕ) (room : ℕ)
      → (j + 2) * n < u32_mod
      → let (w, r') = claim_write n input r in
        let after = resets (suc j) n r' in
        let reader = (claim_read n room r).0 in
        (commit_write w after ≡ (0, after))
        × (commit_read reader after ≡ (0, after))
        × (contents n after ≡ [])
  unfolding claim_write claim_read
  stale_claims_lost j input room few =
      let r' : InputRing = (claim_write n input r).1 in
      let at = resets_cursors j n r' in
      (
        lost_write _ (resets (suc j) n r') (rw at.0 (head_moved j few)),
        lost_read _ (resets (suc j) n r') (rw (at.1, at.0) (tail_moved j few)),
        empty_cursors n (resets (suc j) n r') at.1,
      )

  -- The ring after the producer's loop: only the slots change.
  abbrev claimed : List ℕ → InputRing
  claimed input = record r { bytes = copy_in n r.bytes r.head 0 (take (accepted n input r) input) }

  claim_write_lem :
      (input : List ℕ)
      → claim_write n input r
        ≡ (record { cursor = r.head; count = accepted n input r }, claimed input)
  unfolding claim_write
  claim_write_lem input =
      let e : min (wrapping_sub r.head r.tail) n ≡ length (contents n r) =
        omega (arith, v.bounded, length-contents n c r v) in
      rw e refl

  read-claimed :
      (input : List ℕ) (room : ℕ)
      → let k = delivered n room r in
        let r1 = claimed input in
        read n room r1
        ≡ (copy_out n r1.bytes r.tail 0 k, k, record r1 { tail = wrapping_add r.tail k })
  read-claimed input room =
      let r1 : InputRing = claimed input in
      let v1 : IsValid n r1 = record {
        head_u32 = v.head_u32;
        tail_u32 = v.tail_u32;
        bounded = v.bounded;
      } in
      let e : length (contents n r1) ≡ length (contents n r) =
        length-contents n c r1 v1 ∙ sym (length-contents n c r v) in
      rw e at (read_lem n c r1 v1 room)

  -- On a valid ring, a reader's whole call between the two halves of a `write` changes neither: the reader gets the
  -- oldest of the bytes that were published, and the writer's bytes then follow the rest.
  pub write_around_read :
      (input : List ℕ) (room : ℕ)
      → let (w, r1) = claim_write n input r in
        let (out, count, r2) = read n room r1 in
        let (written, r3) = commit_write w r2 in
        (out ≡ take (delivered n room r) (contents n r))
        × (count ≡ delivered n room r)
        × (written ≡ accepted n input r)
        × (contents n r3
            ≡ drop (delivered n room r) (contents n r) ++ take (accepted n input r) input)
        × IsValid n r3
  write_around_read input room =
      let k : ℕ = delivered n room r in
      let m : ℕ = accepted n input r in
      let bs : List ℕ = take m input in
      let whole : InputRing = (write n input r).1 in
      let same : whole ≡ record (claimed input) { head = wrapping_add r.head m } =
        ap (λ p. p.1) (write_lem n c r v input) in
      let in_old : k ≤ length (contents n r) = omega arith in
      let grown : contents n whole ≡ contents n r ++ bs = contents-write n c r v input in
      let in_new : k ≤ length (contents n whole) = rw (grown, length-append) (omega arith) in
      let parts = advance n c whole (write-IsValid n c r v input) k in_new in
      let out : copy_out n whole.bytes whole.tail 0 k ≡ take k (contents n r) =
        parts.0 ∙ ap (take k) grown ∙ take-append_le k (contents n r) bs in_old in
      let left : contents n (record whole { tail = wrapping_add whole.tail k })
          ≡ drop k (contents n r) ++ bs =
        parts.1 ∙ ap (drop k) grown ∙ drop-append_le k (contents n r) bs in_old in
      rw (claim_write_lem, read-claimed, commit_unmoved)
        (rw same at out, refl, refl, rw same at left, rw same at (parts.2))
