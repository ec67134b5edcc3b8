-- ===== src/Input/Ring/Stream.antt =====
-- Any history of the one writer and the one reader, at the granularity of whole calls.
use mathlib.Core.List.{append_assoc, append-nil}
use canopus_module_bluetooth.Base.{
  ℕ, ◌≡◌, ◌∙◌, sym, ap, List, [], ◌∷◌, ◌++◌, take, take-append-drop,
}
use canopus_module_bluetooth.Input.Ring.{InputRing, write, read}
use canopus_module_bluetooth.Input.Ring.Slots.{IsCapacity}
use canopus_module_bluetooth.Input.Ring.Queue.{
  IsValid, contents, delivered, write_count, contents-write, write-IsValid, read-contents,
}

pub data Transfer : Type 0 where
  writes : List ℕ → Transfer
  reads : ℕ → Transfer

abbrev pub transfer : ℕ → InputRing → Transfer → InputRing
transfer n r (writes input) = (write n input r).1
transfer n r (reads room) = (read n room r).2

abbrev pub run : ℕ → InputRing → List Transfer → InputRing
run n r [] = r
run n r (t ∷ ts) = run n (transfer n r t) ts

-- The bytes of each `write` that the count it returned says were taken, in order.
abbrev pub sent : ℕ → InputRing → List Transfer → List ℕ
sent n r [] = []
sent n r (writes input ∷ ts) = take (write n input r).0 input ++ sent n (write n input r).1 ts
sent n r (reads room ∷ ts) = sent n (read n room r).2 ts

-- The bytes that each `read` put into the caller's slice, in order.
abbrev pub received : ℕ → InputRing → List Transfer → List ℕ
received n r [] = []
received n r (writes input ∷ ts) = received n (write n input r).1 ts
received n r (reads room ∷ ts) = (read n room r).0 ++ received n (read n room r).2 ts

module _ (n : ℕ) (c : IsCapacity n) where
  pub run-IsValid : (r : InputRing) (ts : List Transfer) → IsValid n r → IsValid n (run n r ts)
  run-IsValid r [] v = v
  run-IsValid r (writes input ∷ ts) v =
      run-IsValid (write n input r).1 ts (write-IsValid n c r v input)
  run-IsValid r (reads room ∷ ts) v =
      run-IsValid (read n room r).2 ts (read-contents n c r v room).3

  -- Over any history of a valid ring, what was pending at the start and what the writer was told it had sent is
  -- what the reader received followed by what is still pending: nothing is lost, repeated or
  -- reordered, also where the cursors wrap.
  pub stream_conserved :
      (r : InputRing) (ts : List Transfer)
      → IsValid n r
      → contents n r ++ sent n r ts ≡ received n r ts ++ contents n (run n r ts)
  stream_conserved r [] v = append-nil (contents n r)
  stream_conserved r (writes input ∷ ts) v =
      let r' : InputRing = (write n input r).1 in
      let taken : List ℕ = take (write n input r).0 input in
      let e : contents n r' ≡ contents n r ++ taken =
        rw (write_count n c r v input) (contents-write n c r v input) in
      sym (append_assoc (contents n r) taken (sent n r' ts))
      ∙ ap (λ (xs : List ℕ). xs ++ sent n r' ts) (sym e)
      ∙ stream_conserved r' ts (write-IsValid n c r v input)
  stream_conserved r (reads room ∷ ts) v =
      let r' : InputRing = (read n room r).2 in
      let (out, _, rest, v') = read-contents n c r v room in
      let k : ℕ = delivered n room r in
      let e : contents n r ≡ (read n room r).0 ++ contents n r' =
        rw (out, rest) (sym (take-append-drop k (contents n r))) in
      ap (λ (xs : List ℕ). xs ++ sent n r' ts) e
      ∙ append_assoc (read n room r).0 (contents n r') (sent n r' ts)
      ∙ ap (◌++◌ (read n room r).0) (stream_conserved r' ts v')
      ∙ sym (append_assoc (read n room r).0 (received n r' ts) (contents n (run n r' ts)))
