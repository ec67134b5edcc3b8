-- ===== src/Device/Controls/Queue.antt =====
-- The queue of controls is first in, first out, and drops the newest.
use canopus_module_bluetooth.Base.{
  ℕ, zero, suc, ◌+◌, ◌-◌, ◌%◌, ◌≤◌, ◌<◌, ◌≡◌, ◌⊎◌, refl, sym, ap, ◌∙◌, Bool, true, false, Option,
  some, none, List, [], ◌∷◌, ◌++◌, leb, ◌==◌, if-elim, arith, inl, inr, ==_refl,
}
use canopus_module_bluetooth.Base.Words.{wrapping_add, wrapping_sub, u32_mod}
use canopus_module_bluetooth.Device.Controls.{
  ControlQueue, ControlEventV1, push, pop, clear, stored, control_capacity, event_size,
}

-- The kinds in `n` slots from the counter `start` on.
unfoldable pub items : (ℕ → ℕ) → ℕ → ℕ → List ℕ
items slots start zero = []
items slots start (suc n) = slots (start % control_capacity) ∷ items slots (wrapping_add start 1) n

abbrev pub waiting : ControlQueue → ℕ
waiting q = wrapping_sub q.head q.tail

-- What a reader would read, oldest first.
abbrev pub contents : ControlQueue → List ℕ
contents q = items q.slots q.tail (waiting q)

pub record IsValid (q : ControlQueue) : Type 0 where
  pub head_word : q.head < u32_mod
  pub tail_word : q.tail < u32_mod
  pub bounded : waiting q ≤ control_capacity

-- A write to another slot keeps the items.
items-stored :
    (slots : ℕ → ℕ) (kind at start d n : ℕ)
    → at ≡ (start + d) % control_capacity
    → n ≤ d
    → d < control_capacity
    → items (stored slots at kind) start n ≡ items slots start n
unfolding items
items-stored slots kind at start d zero e h k = refl
items-stored slots kind at start d (suc n) e h k =
    let other : (start % control_capacity == at) ≡ false = ground (arith, e) in
    rw other (
      ap (◌∷◌ (slots (start % control_capacity))) (
        items-stored slots kind at (wrapping_add start 1) (d - 1) n (omega (arith, e)) (omega arith)
          (omega arith)))

items-last :
    (slots : ℕ → ℕ) (start n : ℕ)
    → items slots start (suc n)
      ≡ items slots start n ++ (slots ((start + n) % control_capacity) ∷ [])
unfolding items
items-last slots start zero = ap (λ i. slots i ∷ []) (omega arith)
items-last slots start (suc n) =
    let same : (start + suc n) % control_capacity ≡ (wrapping_add start 1 + n) % control_capacity =
      omega arith in
    rw same
      (ap (◌∷◌ (slots (start % control_capacity))) (items-last slots (wrapping_add start 1) n))

-- The result of `push`.
abbrev pub Pushed : ℕ → ControlQueue → Bool × ControlQueue → Type 0
Pushed kind q r =
    ((r.0 ≡ true) × (waiting q < control_capacity) × (contents r.1 ≡ contents q ++ (kind ∷ [])))
    ⊎ ((r.0 ≡ false) × (waiting q ≡ control_capacity) × (contents r.1 ≡ contents q))

-- On a valid queue, a push appends the control if fewer than eight wait, and else answers false
-- and leaves the controls that wait; the queue stays valid, also where the counters wrap.
pub push-Pushed :
    (kind : ℕ) (q : ControlQueue)
    → IsValid q
    → Pushed kind q (push kind q) × IsValid (push kind q).1
unfolding push
push-Pushed kind q v =
    let n : ℕ = waiting q in
    let at : ℕ = q.head % control_capacity in
    let P : Bool × ControlQueue → Type 0 = λ r. Pushed kind q r × IsValid r.1 in
    if-elim P (leb control_capacity n)
      (λ full. (
        inr (refl, ground (arith, v.bounded), refl),
        record { head_word = v.head_word; tail_word = v.tail_word; bounded = v.bounded },
      ))
      (λ room.
        let free : n < control_capacity = ground arith in
        let more : wrapping_sub (wrapping_add q.head 1) q.tail ≡ suc n =
          omega (arith, v.head_word, v.tail_word, free) in
        let here : (q.tail + n) % control_capacity ≡ at = omega (arith, v.head_word, v.tail_word) in
        let own : (at == at) ≡ true = ==_refl at in
        let appended : items (stored q.slots at kind) q.tail (suc n) ≡ contents q ++ (kind ∷ []) =
          items-last (stored q.slots at kind) q.tail n
          ∙ rw (here, own, items-stored q.slots kind at q.tail n n (sym here) (omega arith) free)
              refl in
        (
          inl (refl, free, rw more appended),
          record {
            head_word = omega arith;
            tail_word = v.tail_word;
            bounded = omega (arith, more, free);
          },
        ))

-- The result of `pop`.
abbrev pub Popped : ControlQueue → Option ControlEventV1 × ControlQueue → Type 0
Popped q r =
    ((r.0 ≡ none) × (contents q ≡ []) × (r.1 ≡ q))
    ⊎ ((event : ControlEventV1) × (r.0 ≡ some event)
        × (contents q ≡ event.kind ∷ contents r.1)
        × (event.sequence ≡ wrapping_add q.tail 1)
        × (event.struct_size ≡ event_size))

-- On a valid queue, a pop takes the oldest control, numbered by the counter after it, or finds
-- none and changes nothing; the queue stays valid.
pub pop-Popped : (q : ControlQueue) → IsValid q → Popped q (pop q) × IsValid (pop q).1
unfolding pop items
pop-Popped q v =
    let P : Option ControlEventV1 × ControlQueue → Type 0 = λ r. Popped q r × IsValid r.1 in
    if-elim P (q.tail == q.head)
      (λ e.
        let none_waiting : waiting q ≡ 0 = ground (arith, v.head_word, e) in
        (inl (refl, rw none_waiting refl, refl), v))
      (λ e.
        let left : ℕ = wrapping_sub q.head (wrapping_add q.tail 1) in
        let some_waiting : waiting q ≡ suc left = ground (arith, v.head_word, v.tail_word, e) in
        (
          inr (_, refl, rw some_waiting refl, refl, refl),
          record {
            head_word = v.head_word;
            tail_word = omega arith;
            bounded = omega (arith, some_waiting, v.bounded);
          },
        ))

pub clear_lem : (q : ControlQueue) → IsValid q → (contents (clear q) ≡ []) × IsValid (clear q)
unfolding clear items
clear_lem q v =
    let none_waiting : wrapping_sub q.head q.head ≡ 0 = omega (arith, v.head_word) in
    (
      rw none_waiting refl,
      record {
        head_word = v.head_word;
        tail_word = v.head_word;
        bounded = omega (arith, v.head_word);
      },
    )
