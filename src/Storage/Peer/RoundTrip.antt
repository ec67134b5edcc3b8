-- ===== src/Storage/Peer/RoundTrip.antt =====
-- `decode` undoes `encode`.
use canopus_module_bluetooth.Base.{
  ℕ, suc, ◌%◌, ◌≤◌, ◌<◌, ◌≡◌, refl, sym, ap, ◌∙◌, Bool, true, false, List, [], ◌∷◌, replicate,
  splice, take, drop, length, get_or, ltb, ◌==◌, some, if-elim, arith, take-splice_before,
  drop-splice, take-splice_front, length-splice, length-take, min, zero, take-length, Bool-cases,
  inl, inr,
}
use canopus_module_bluetooth.Base.Words.{le32, from_le32, from_le32-le32, u8_mod}
use canopus_module_bluetooth.Base.Int.{pos}
use canopus_module_bluetooth.Discovery.{
  trimmed, no_name, DeviceName, device_name_capacity, from_bytes, is_zero, Address,
}
use canopus_module_bluetooth.Manager.{Peer, bonded}
use canopus_module_bluetooth.Storage.{checksum}
use canopus_module_bluetooth.Storage.Peer.{
  record_size, magic, unknown_name, as_str, unsummed, encode, decode,
}

-- The bytes of a record before the name, with the four of its class last.
abbrev head : ℕ → ℕ → ℕ → ℕ → ℕ → ℕ → ℕ → List ℕ → List ℕ → List ℕ
head a b c d e f n class rest =
    0x42
    ∷ 0x41
    ∷ 0x50
    ∷ 0x31
    ∷ a
    ∷ b
    ∷ c
    ∷ d
    ∷ e
    ∷ f
    ∷ n
    ∷ 0
    ∷ get_or class 0 0
    ∷ get_or class 1 0
    ∷ get_or class 2 0
    ∷ get_or class 3 0
    ∷ rest

pub of_six :
    (P : Address → Type 0)
    → ((a b c d e f : ℕ) → P (a ∷ b ∷ c ∷ d ∷ e ∷ f ∷ []))
    → (address : Address) → length address ≡ 6
    → P address
of_six P h (a ∷ b ∷ c ∷ d ∷ e ∷ f ∷ []) k = h a b c d e f
of_six P h [] k = absurd (omega arith)
of_six P h (a ∷ []) k = absurd (omega arith)
of_six P h (a ∷ b ∷ []) k = absurd (omega arith)
of_six P h (a ∷ b ∷ c ∷ []) k = absurd (omega arith)
of_six P h (a ∷ b ∷ c ∷ d ∷ []) k = absurd (omega arith)
of_six P h (a ∷ b ∷ c ∷ d ∷ e ∷ []) k = absurd (omega arith)
of_six P h (a ∷ b ∷ c ∷ d ∷ e ∷ f ∷ g ∷ rest) k = absurd (omega arith)

-- The zeros of a record from its name on.
abbrev rest_room : List ℕ
rest_room = replicate 68 0

module _ (is_utf8 : List ℕ → Bool) where
  abbrev pub remembered : Peer → Peer
  remembered peer = record peer {
    rssi = pos 0;
    bond = bonded;
    name = from_bytes (as_str is_utf8 peer.name);
  }

  decode-head :
      (a b c d e f x : ℕ) (name rest : List ℕ)
      → is_zero (a ∷ b ∷ c ∷ d ∷ e ∷ f ∷ []) ≡ false
      → length rest ≡ 68
      → length name ≤ device_name_capacity
      → take (length name) rest ≡ name
      → is_utf8 name ≡ true
      → from_le32 (drop 64 rest) ≡ checksum (take 80 (head a b c d e f (length name) (le32 x) rest))
      → decode is_utf8 (head a b c d e f (length name) (le32 x) rest)
        ≡ some (record {
          address = a ∷ b ∷ c ∷ d ∷ e ∷ f ∷ [];
          name = from_bytes name;
          rssi = pos 0;
          class_of_device = x;
          bond = bonded;
        })
  unfolding decode
  decode-head a b c d e f x name rest nonzero size small read utf8 summed =
      let sum : ℕ = checksum (take 80 (head a b c d e f (length name) (le32 x) rest)) in
      let fits : ltb device_name_capacity (length name) ≡ false = ground arith in
      let same : (sum == sum) ≡ true = ground arith in
      rw (size, fits, nonzero, summed, same, read, utf8, from_le32-le32 x) refl

  unsummed-head :
      (peer : Peer) (a b c d e f : ℕ)
      → length (as_str is_utf8 peer.name) ≤ device_name_capacity
      → let name = as_str is_utf8 peer.name in
        unsummed is_utf8 (record peer { address = a ∷ b ∷ c ∷ d ∷ e ∷ f ∷ [] })
        ≡ head a b c d e f (length name) (le32 peer.class_of_device) (splice 0 name rest_room)
  unfolding unsummed
  unsummed-head peer a b c d e f small =
      let kept : length (as_str is_utf8 peer.name) % u8_mod ≡ length (as_str is_utf8 peer.name) =
        omega arith in
      rw kept refl

  encode-head :
      (peer : Peer) (a b c d e f : ℕ)
      → length (as_str is_utf8 peer.name) ≤ device_name_capacity
      → let name = as_str is_utf8 peer.name in
        let body =
          head a b c d e f (length name) (le32 peer.class_of_device) (splice 0 name rest_room) in
        encode is_utf8 (record peer { address = a ∷ b ∷ c ∷ d ∷ e ∷ f ∷ [] })
        ≡ head a b c d e f
            (length name)
            (le32 peer.class_of_device)
            (splice 64 (le32 (checksum (take 80 body))) (splice 0 name rest_room))
  unfolding encode
  encode-head peer a b c d e f small =
      ap (λ r. splice 80 (le32 (checksum (take 80 r))) r) (unsummed-head peer a b c d e f small)

  Decodes : Peer → Address → Type 0
  Decodes peer address =
      is_zero address ≡ false
      → decode is_utf8 (encode is_utf8 (record peer { address = address }))
        ≡ some (remembered (record peer { address = address }))

  decodes :
      (peer : Peer)
      → length (as_str is_utf8 peer.name) ≤ device_name_capacity
      → is_utf8 (as_str is_utf8 peer.name) ≡ true
      → (a b c d e f : ℕ) → Decodes peer (a ∷ b ∷ c ∷ d ∷ e ∷ f ∷ [])
  unfolding Decodes
  decodes peer small utf8 a b c d e f nonzero =
      let name : List ℕ = as_str is_utf8 peer.name in
      let x : ℕ = peer.class_of_device in
      let named : List ℕ = splice 0 name rest_room in
      let sum : ℕ = checksum (take 80 (head a b c d e f (length name) (le32 x) named)) in
      let room : length named ≡ 68 = length-splice 0 name rest_room in
      let rest : List ℕ = splice 64 (le32 sum) named in
      let written : take (length name) rest ≡ name =
        take-splice_before (length name) 64 (le32 sum) named small
        ∙ take-splice_front name rest_room (omega arith) in
      let ends : drop 64 rest ≡ le32 sum = drop-splice 64 (le32 sum) named room in
      let before : take 64 rest ≡ take 64 named =
        take-splice_before 64 64 (le32 sum) named (omega arith) in
      let summed : from_le32 (drop 64 rest)
          ≡ checksum (take 80 (head a b c d e f (length name) (le32 x) rest)) =
        rw (ends, before) (from_le32-le32 sum) in
      rw (encode-head peer a b c d e f small) (
        decode-head a b c d e f x name rest nonzero (length-splice 64 (le32 sum) named ∙ room) small
          written utf8 summed)

-- A name as the source keeps it: the array has 64 bytes, and the used part is within it.
pub record IsName (name : DeviceName) : Type 0 where
  pub array : length name.bytes ≡ device_name_capacity
  pub within : name.len ≤ device_name_capacity

module _ (is_utf8 : List ℕ → Bool) where
  as_str_small :
      (name : DeviceName) → IsName name → length (as_str is_utf8 name) ≤ device_name_capacity
  unfolding as_str
  as_str_small name v =
      if-elim (λ (b : List ℕ). length b ≤ device_name_capacity) (is_utf8 (take name.len name.bytes))
        (λ _. omega (arith, length-take name.len name.bytes, v.array)) (λ _. omega arith)

  as_str_utf8 :
      (name : DeviceName) → is_utf8 unknown_name ≡ true → is_utf8 (as_str is_utf8 name) ≡ true
  unfolding as_str
  as_str_utf8 name known =
      if-elim (λ b. is_utf8 b ≡ true) (is_utf8 (take name.len name.bytes)) (λ e. e) (λ _. known)

  pub length-encode : (peer : Peer) → length (encode is_utf8 peer) ≡ record_size
  unfolding encode unsummed
  length-encode peer =
      let zeros : List ℕ = replicate record_size 0 in
      let marked : List ℕ = splice 4 peer.address (splice 0 magic zeros) in
      let name : List ℕ = as_str is_utf8 peer.name in
      let sized : List ℕ = splice 10 ((length name % u8_mod) ∷ []) marked in
      let classed : List ℕ = splice 12 (le32 peer.class_of_device) sized in
      rw
        (
          length-splice 80 (le32 _) (splice 16 name classed),
          length-splice 16 name classed,
          length-splice 12 (le32 peer.class_of_device) sized,
          length-splice 10 _ marked,
          length-splice 4 peer.address _,
        )
        refl

  -- The record of a peer with a nonzero address of six bytes and a name within its array decodes
  -- to that peer, bonded, with no signal strength and with the name as its text is read back, if
  -- the substitute for a name that is not UTF-8 is itself UTF-8.
  pub decode-encode :
      (peer : Peer)
      → is_utf8 unknown_name ≡ true
      → length peer.address ≡ 6
      → is_zero peer.address ≡ false
      → IsName peer.name
      → decode is_utf8 (encode is_utf8 peer) ≡ some (remembered is_utf8 peer)
  unfolding Decodes
  decode-encode peer known six nonzero v =
      of_six (Decodes is_utf8 peer)
        (decodes is_utf8 peer (as_str_small peer.name v) (as_str_utf8 peer.name known)) peer.address
        six nonzero

get_or-take : (i k : ℕ) (xs : List ℕ) → i < k → get_or (take k xs) i 0 ≡ get_or xs i 0
get_or-take i zero xs h = absurd (omega arith)
get_or-take i (suc k) [] h = refl
get_or-take zero (suc k) (x ∷ xs) h = refl
get_or-take (suc i) (suc k) (x ∷ xs) h = get_or-take i k xs (omega arith)

trimmed_le : (raw : List ℕ) (n : ℕ) → trimmed raw n ≤ n
unfolding trimmed
trimmed_le raw zero = omega arith
trimmed_le raw (suc n) = ground (arith, trimmed_le raw n)

trimmed_twice : (raw : List ℕ) (n : ℕ) → trimmed raw (trimmed raw n) ≡ trimmed raw n
unfolding trimmed
trimmed_twice raw zero = refl
trimmed_twice raw (suc n) = elim (Bool-cases (get_or raw n 0 == 0)) [
  | inl e ↦ rw e (trimmed_twice raw n)
  | inr e ↦ rw (e, e) refl
]

trimmed-take : (raw : List ℕ) (m k : ℕ) → m ≤ k → trimmed (take k raw) m ≡ trimmed raw m
unfolding trimmed
trimmed-take raw zero k h = refl
trimmed-take raw (suc m) k h =
    rw (get_or-take m k raw (omega arith), trimmed-take raw m k (omega arith)) refl

-- The used part of a name that `from_bytes` made is that name again.
pub from_bytes_again :
    (raw : List ℕ) → from_bytes (take (from_bytes raw).len (from_bytes raw).bytes) ≡ from_bytes raw
unfolding from_bytes
from_bytes_again raw =
    let full : ℕ = min (length raw) device_name_capacity in
    let len : ℕ = trimmed raw full in
    let small : len ≤ full = trimmed_le raw full in
    let kept : List ℕ = take len raw in
    let size : length kept ≡ len = omega (arith, length-take len raw, small) in
    let bounded : min len device_name_capacity ≡ len = omega (arith, small) in
    let used : take (length kept) (splice 0 kept no_name.bytes) ≡ kept =
      take-splice_front kept no_name.bytes (omega (arith, size, small)) in
    let used' : take len (splice 0 kept no_name.bytes) ≡ kept =
      ap (λ k. take k (splice 0 kept no_name.bytes)) (sym size) ∙ used in
    let whole : take len kept ≡ kept = ap (λ k. take k kept) (sym size) ∙ take-length kept in
    rw (used', size, bounded, trimmed-take raw len len (omega arith), trimmed_twice raw full, whole)
      refl
