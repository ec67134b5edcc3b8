-- ===== src/Input/Ring.antt =====
-- `InputRing<N>`: a single-producer, single-consumer byte ring. The capacity `N` is the argument
-- `n` of each operation, the slots are a function of the index, and the cursors are u32 that wrap.
-- An operation whose commit can lose against `reset` is also given in two steps, what it does up
-- to its compare-exchange (`claim_write`, `claim_read`) and the compare-exchange itself.
pub mod Slots
pub mod Queue
pub mod Stream
pub mod Races
use canopus_module_bluetooth.Base.{
  ℕ, zero, suc, ◌+◌, ◌-◌, ◌%◌, min, List, [], ◌∷◌, length, take, ◌==◌, if◌then◌else◌,
}
use canopus_module_bluetooth.Base.Words.{wrapping_add, wrapping_sub}

pub record InputRing : Type 0 where
  pub bytes : ℕ → ℕ
  pub head : ℕ
  pub tail : ℕ

abbrev pub new : InputRing
new = record { bytes = λ _. 0; head = 0; tail = 0 }

-- `head.wrapping_sub(tail).min(N as u32) as usize`
abbrev pub filled : ℕ → ℕ → ℕ → ℕ
filled n head tail = min (wrapping_sub head tail) n

unfoldable pub used : ℕ → InputRing → ℕ
used n r = filled n r.head r.tail

unfoldable pub free : ℕ → InputRing → ℕ
free n r = n - used n r

abbrev pub put : (ℕ → ℕ) → ℕ → ℕ → ℕ → ℕ
put f i v j = if i == j then v else f j

-- The producer's loop: `& mask`, with `mask = N - 1` and `N` a power of two, is `% N`.
unfoldable pub copy_in : ℕ → (ℕ → ℕ) → ℕ → ℕ → List ℕ → ℕ → ℕ
copy_in n bytes head offset [] = bytes
copy_in n bytes head offset (b ∷ bs) =
    copy_in n (put bytes ((head + offset) % n) b) head (offset + 1) bs

-- The consumer's loop over the slots from `tail + offset` on.
unfoldable pub copy_out : ℕ → (ℕ → ℕ) → ℕ → ℕ → ℕ → List ℕ
copy_out n bytes tail offset zero = []
copy_out n bytes tail offset (suc k) =
    bytes ((tail + offset) % n) ∷ copy_out n bytes tail (offset + 1) k

-- The cursor that was loaded, and the number of bytes to commit.
pub record Claim : Type 0 where
  pub cursor : ℕ
  pub count : ℕ

unfoldable pub claim_write : ℕ → List ℕ → InputRing → Claim × InputRing
claim_write n input r =
    let count = min (length input) (n - filled n r.head r.tail) in
    (
      record { cursor = r.head; count = count },
      record r { bytes = copy_in n r.bytes r.head 0 (take count input) },
    )

unfoldable pub commit_write : Claim → InputRing → ℕ × InputRing
commit_write c r =
    if r.head == c.cursor
    then (c.count, record r { head = wrapping_add c.cursor c.count })
    else (0, r)

unfoldable pub write : ℕ → List ℕ → InputRing → ℕ × InputRing
unfolding claim_write commit_write
write n input r = let (c, r') = claim_write n input r in commit_write c r'

-- `room` is the length of the caller's output slice.
unfoldable pub claim_read : ℕ → ℕ → InputRing → Claim × List ℕ
claim_read n room r =
    let count = min room (filled n r.head r.tail) in
    (record { cursor = r.tail; count = count }, copy_out n r.bytes r.tail 0 count)

unfoldable pub commit_read : Claim → InputRing → ℕ × InputRing
commit_read c r =
    if r.tail == c.cursor
    then (c.count, record r { tail = wrapping_add c.cursor c.count })
    else (0, r)

-- The bytes that stand in the output slice, and the number that `read` returns.
unfoldable pub read : ℕ → ℕ → InputRing → List ℕ × ℕ × InputRing
unfolding claim_read commit_read
read n room r =
    let (c, out) = claim_read n room r in let (count, r') = commit_read c r in (out, count, r')

unfoldable pub reset : ℕ → InputRing → InputRing
reset n r = let head : ℕ = wrapping_add r.head n in record r { head = head; tail = head }
