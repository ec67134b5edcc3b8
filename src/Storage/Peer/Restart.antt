-- ===== src/Storage/Peer/Restart.antt =====
-- The last headset across a restart.
use canopus_module_bluetooth.Base.{
  ℕ, ◌≡◌, ◌≢◌, refl, sym, ap, ◌∙◌, ◌⊎◌, inl, inr, Bool, true, false, List, length, get_or, Option,
  some, none, Bool-cases, bytes_eq→eq, arith,
}
use canopus_module_bluetooth.Discovery.{is_zero}
use canopus_module_bluetooth.Manager.{Peer}
use canopus_module_bluetooth.Storage.Files.{
  Nuttx, IsDisk, IsClearable, IsReadable, Replaces, read_file, read_file_lem, write_file,
  write_file-Replaces,
}
use canopus_module_bluetooth.Storage.Peer.{encode, decode, record_size, unknown_name}
use canopus_module_bluetooth.Storage.Peer.File.{
  Store, load, flush, flush_new, on_read, on_written, remember, is_saved, peer_path, temp_path,
}
use canopus_module_bluetooth.Storage.Peer.RoundTrip.{
  IsName, remembered, decode-encode, length-encode,
}

paths_differ : peer_path ≢ temp_path
paths_differ e = let same : 0x62 ≡ 0x74 = ap (λ path. get_or path 27 0) e in omega (arith, same)

module _ (N : Nuttx) (D : IsDisk N) where
  -- What is remembered as saved is what the file holds.
  abbrev pub IsInStep : Store N → Type 0
  IsInStep s =
      (s.saved ≡ none)
      ⊎ ((bytes : List ℕ) × (s.saved ≡ some bytes) × (D.contents s.machine peer_path ≡ some bytes))

  module _ (is_utf8 : List ℕ → Bool) where
    -- What `flush` leaves of a record that is not the saved one.
    abbrev Flushed : List ℕ → Bool × Store N → Type 0
    Flushed bytes r =
        IsInStep r.1 × ((r.0 ≡ false) ⊎ (D.contents r.1.machine peer_path ≡ some bytes))

    written :
        (bytes : List ℕ) (s : Store N) (r : Bool × N.Machine)
        → IsInStep s
        → Replaces N peer_path bytes D s.machine r
        → Flushed bytes (on_written N is_utf8 bytes s r)
    unfolding on_written
    written bytes s (true, m) v h = elim h [
      | inl (e, saved) ↦ (inr (bytes, refl, saved), inr saved)
      | inr (e, kept) ↦ absurd cc
    ]
    written bytes s (false, m) v h = elim h [
      | inl (e, saved) ↦ absurd cc
      | inr (e, kept) ↦ (
        elim v [
          | inl none_saved ↦ inl none_saved
          | inr (old, e', file) ↦ inr (old, e', kept ∙ file)
        ],
        inl refl,
      )
    ]

    saved_file :
        (bytes : List ℕ) (s : Store N) (o : Option (List ℕ))
        → s.saved ≡ o
        → IsInStep s
        → is_saved o bytes ≡ true
        → D.contents s.machine peer_path ≡ some bytes
    unfolding is_saved
    saved_file bytes s none e v h = absurd cc
    saved_file bytes s (some old) e v h = elim v [
      | inl e' ↦ absurd cc
      | inr (old', e', file) ↦ (let same : old ≡ bytes = bytes_eq→eq old bytes h in cc)
    ]

    flushes :
        (peer : Peer) (s : Store N)
        → IsInStep s
        → IsClearable N D temp_path s.machine
        → Flushed (encode is_utf8 peer) (flush N is_utf8 (some peer) s)
    unfolding flush flush_new
    flushes peer s v clear =
        let bytes : List ℕ = encode is_utf8 peer in
        elim (Bool-cases (is_saved s.saved bytes)) [
          | inl e ↦ rw e (v, inr (saved_file bytes s s.saved refl v e))
          | inr e ↦ rw e (
              written bytes s (write_file N temp_path peer_path bytes s.machine) v
                (write_file-Replaces N D temp_path peer_path bytes s.machine paths_differ clear))
        ]

    -- A flush keeps what is remembered as saved and the file in step, whether it succeeds or
    -- fails, if no temporary file is left over or its removal succeeds.
    pub flush-IsInStep :
        (peer : Option Peer) (s : Store N)
        → IsInStep s
        → IsClearable N D temp_path s.machine
        → IsInStep (flush N is_utf8 peer s).1
    unfolding flush
    flush-IsInStep none s v clear = v
    flush-IsInStep (some peer) s v clear = (flushes peer s v clear).0

    loads :
        (peer : Peer) (s : Store N)
        → D.contents s.machine peer_path ≡ some (encode is_utf8 peer)
        → IsReadable N peer_path record_size s.machine
        → decode is_utf8 (encode is_utf8 peer) ≡ some (remembered is_utf8 peer)
        → (load N is_utf8 s).0 ≡ some (remembered is_utf8 peer)
    unfolding load on_read remember
    loads peer s file readable decoded =
        let bytes : List ℕ = encode is_utf8 peer in
        let readable' : IsReadable N peer_path (length bytes) s.machine =
          rw (length-encode is_utf8 peer) readable in
        let r : Option (List ℕ) × N.Machine = read_file N peer_path record_size s.machine in
        let first : r.0 ≡ some bytes =
          ap (λ n. (read_file N peer_path n s.machine).0) (sym (length-encode is_utf8 peer))
          ∙ read_file_lem N D peer_path bytes s.machine file readable' in
        let whole : r ≡ (some bytes, r.1) = λ i. (first i, r.1) in rw (whole, decoded) refl

    -- On a disk that keeps to what POSIX says, with the store in step with its file, and no
    -- temporary file left over or its removal successful: a flush that succeeds, of a peer with a
    -- nonzero address of six bytes and a name within its array, is followed, after a restart, by a
    -- load of that peer, bonded, with no signal strength and with the name as its text is read
    -- back, if the open and the read of the whole record succeed and the substitute for a name that
    -- is not UTF-8 is itself UTF-8.
    pub peer_survives :
        (peer : Peer) (s : Store N) (saved : Option (List ℕ))
        → is_utf8 unknown_name ≡ true
        → length peer.address ≡ 6
        → is_zero peer.address ≡ false
        → IsName peer.name
        → IsInStep s
        → IsClearable N D temp_path s.machine
        → (flush N is_utf8 (some peer) s).0 ≡ true
        → IsReadable N peer_path record_size (flush N is_utf8 (some peer) s).1.machine
        → (load N is_utf8 (record (flush N is_utf8 (some peer) s).1 { saved = saved })).0
          ≡ some (remembered is_utf8 peer)
    peer_survives peer s saved known six nonzero name v clear done readable =
        elim (flushes peer s v clear).1 [
          | inl e ↦ absurd cc
          | inr file ↦
              loads peer (record (flush N is_utf8 (some peer) s).1 { saved = saved }) file readable
                (decode-encode is_utf8 peer known six nonzero name)
        ]
