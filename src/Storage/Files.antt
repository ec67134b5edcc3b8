-- ===== src/Storage/Files.antt =====
-- The calls on files, with the firmware's as a parameter.
use mathlib.Core.List.{append-nil}
use canopus_module_bluetooth.Base.{
  ℕ, ◌+◌, ◌≡◌, ◌≢◌, refl, ◌∙◌, ◌⊎◌, inl, inr, ap, Bool, true, false, not, ◌||◌, List, replicate,
  splice, length, drop, ◌++◌, [], Option, some, none, if◌then◌else◌, if-elim, arith,
  length-replicate, splice_whole, drop-nil, ◌==◌,
}
use canopus_module_bluetooth.Base.Int.{ℤ, pos, negsuc, ◌==ℤ◌}

abbrev pub FilePath : Type 0
FilePath = List ℕ

-- `nuttx_read` gives the count and what it writes to the front of the buffer. `nuttx_open` is called
-- for reading alone.
pub record Nuttx : Type 1 where
  pub Machine : Type 0
  pub open_file : FilePath → Machine → ℤ × Machine
  pub create : FilePath → ℕ → ℕ → Machine → ℤ × Machine
  pub read : ℤ → ℕ → Machine → ℤ × List ℕ × Machine
  pub write : ℤ → List ℕ → Machine → ℤ × Machine
  pub close : ℤ → Machine → ℤ × Machine
  pub unlink : FilePath → Machine → ℤ × Machine
  pub rename : FilePath → FilePath → Machine → ℤ × Machine

abbrev pub is_negative : ℤ → Bool
is_negative (pos n) = false
is_negative (negsuc n) = true

abbrev pub create_flags : ℕ
create_flags = 6

abbrev pub file_mode : ℕ
file_mode = 0x180

module _ (N : Nuttx) where
  -- The whole of a file of `size` bytes.
  unfoldable pub read_file : FilePath → ℕ → N.Machine → Option (List ℕ) × N.Machine
  read_file path size m =
      let opened : ℤ × N.Machine = N.open_file path m in
      let got : ℤ × List ℕ × N.Machine = N.read opened.0 size opened.1 in
      let closed : ℤ × N.Machine = N.close opened.0 got.2 in
      if is_negative opened.0
      then (none, opened.1)
      else if not (got.0 ==ℤ pos size)
      then (none, closed.1)
      else (some (splice 0 got.1 (replicate size 0)), closed.1)

  -- Writes a temporary file that then takes the place of `path`.
  unfoldable pub write_file : FilePath → FilePath → List ℕ → N.Machine → Bool × N.Machine
  write_file temp path bytes m =
      let gone : ℤ × N.Machine = N.unlink temp m in
      let created : ℤ × N.Machine = N.create temp create_flags file_mode gone.1 in
      let written : ℤ × N.Machine = N.write created.0 bytes created.1 in
      let closed : ℤ × N.Machine = N.close created.0 written.1 in
      let moved : ℤ × N.Machine = N.rename temp path closed.1 in
      if is_negative created.0
      then (false, created.1)
      else if not (written.0 ==ℤ pos (length bytes)) || not (closed.0 ==ℤ pos 0)
      then (false, (N.unlink temp closed.1).1)
      else if not (moved.0 ==ℤ pos 0)
      then (false, (N.unlink temp moved.1).1)
      else (true, moved.1)

  -- What POSIX says of these calls, of the files that a machine holds, where paths that differ name
  -- files that differ. `create_flags` has no O_TRUNC, so nothing is said of what `create` leaves of a
  -- file that is there, and a write puts its bytes over the first of those that the file holds.
  pub record IsDisk : Type 0 where
    pub contents : N.Machine → FilePath → Option (List ℕ)
    pub reads :
        (path : FilePath) (bytes : List ℕ) (size : ℕ) (m : N.Machine)
        → contents m path ≡ some bytes
        → is_negative (N.open_file path m).0 ≡ false
        → (N.read (N.open_file path m).0 size (N.open_file path m).1).0 ≡ pos (length bytes)
        → (N.read (N.open_file path m).0 size (N.open_file path m).1).1 ≡ bytes
    pub unlink_removes :
        (path : FilePath) (m : N.Machine)
        → (N.unlink path m).0 ≡ pos 0
        → contents (N.unlink path m).1 path ≡ none
    pub unlink_missing :
        (path : FilePath) (m : N.Machine)
        → contents m path ≡ none
        → contents (N.unlink path m).1 path ≡ none
    pub unlink_keeps :
        (path temp : FilePath) (m : N.Machine)
        → path ≢ temp
        → contents (N.unlink temp m).1 path ≡ contents m path
    pub create_keeps :
        (path temp : FilePath) (flags mode : ℕ) (m : N.Machine)
        → path ≢ temp
        → contents (N.create temp flags mode m).1 path ≡ contents m path
    pub create_makes :
        (temp : FilePath) (mode : ℕ) (m : N.Machine)
        → contents m temp ≡ none
        → is_negative (N.create temp create_flags mode m).0 ≡ false
        → contents (N.create temp create_flags mode m).1 temp ≡ some []
    pub write_keeps :
        (path temp : FilePath) (flags mode : ℕ) (bytes : List ℕ) (m : N.Machine)
        → path ≢ temp
        → let created = N.create temp flags mode m in
          contents (N.write created.0 bytes created.1).1 path ≡ contents created.1 path
    pub write_saves :
        (temp : FilePath) (mode : ℕ) (bytes old : List ℕ) (m : N.Machine)
        → let created = N.create temp create_flags mode m in
          let written = N.write created.0 bytes created.1 in
          is_negative created.0 ≡ false
          → contents created.1 temp ≡ some old
          → written.0 ≡ pos (length bytes)
          → contents written.1 temp ≡ some (bytes ++ drop (length bytes) old)
    pub close_keeps :
        (path : FilePath) (fd : ℤ) (m : N.Machine)
        → contents (N.close fd m).1 path ≡ contents m path
    pub rename_moves :
        (temp path : FilePath) (m : N.Machine)
        → (N.rename temp path m).0 ≡ pos 0
        → contents (N.rename temp path m).1 path ≡ contents m temp
    pub rename_fails :
        (temp path : FilePath) (m : N.Machine)
        → ((N.rename temp path m).0 ==ℤ pos 0) ≡ false
        → contents (N.rename temp path m).1 path ≡ contents m path

  pub ==ℤ→eq : (x : ℤ) (n : ℕ) → (x ==ℤ pos n) ≡ true → x ≡ pos n
  ==ℤ→eq (pos k) n h = ap pos (ground arith)
  ==ℤ→eq (negsuc k) n h = absurd (ground arith)

  -- What a write leaves at a path.
  abbrev pub Replaces : FilePath → List ℕ → (D : IsDisk) → N.Machine → Bool × N.Machine → Type 0
  Replaces path bytes D m r =
      ((r.0 ≡ true) × (D.contents r.1 path ≡ some bytes))
      ⊎ ((r.0 ≡ false) × (D.contents r.1 path ≡ D.contents m path))

  -- No temporary file is left over from before, or its removal succeeds.
  abbrev pub IsClearable : (D : IsDisk) → FilePath → N.Machine → Type 0
  IsClearable D temp m = (D.contents m temp ≡ none) ⊎ ((N.unlink temp m).0 ≡ pos 0)

  cleared :
      (D : IsDisk) (temp : FilePath) (m : N.Machine)
      → IsClearable D temp m
      → D.contents (N.unlink temp m).1 temp ≡ none
  cleared D temp m (inl missing) = D.unlink_missing temp m missing
  cleared D temp m (inr removed) = D.unlink_removes temp m removed

  -- A write from the start of an empty file leaves the bytes alone.
  write_fresh :
      (D : IsDisk) (temp : FilePath) (bytes : List ℕ) (m : N.Machine)
      → D.contents m temp ≡ none
      → let created = N.create temp create_flags file_mode m in
        let written = N.write created.0 bytes created.1 in
        is_negative created.0 ≡ false
        → written.0 ≡ pos (length bytes)
        → D.contents written.1 temp ≡ some bytes
  write_fresh D temp bytes m missing up whole =
      D.write_saves temp file_mode bytes [] m up (D.create_makes temp file_mode m missing up) whole
      ∙ ap some (ap (λ rest. bytes ++ rest) (drop-nil (length bytes)) ∙ append-nil bytes)

  -- On a disk that keeps to what POSIX says of the seven calls, a write of a file over another
  -- path, where no temporary file is left over or its removal succeeds, is all or nothing: it
  -- succeeds and the path holds the bytes and no more, or it fails, wherever it does, and the path
  -- holds what it held.
  pub write_file-Replaces :
      (D : IsDisk) (temp path : FilePath) (bytes : List ℕ) (m : N.Machine)
      → path ≢ temp
      → IsClearable D temp m
      → Replaces path bytes D m (write_file temp path bytes m)
  unfolding write_file
  write_file-Replaces D temp path bytes m apart clear =
      let gone : ℤ × N.Machine = N.unlink temp m in
      let created : ℤ × N.Machine = N.create temp create_flags file_mode gone.1 in
      let written : ℤ × N.Machine = N.write created.0 bytes created.1 in
      let closed : ℤ × N.Machine = N.close created.0 written.1 in
      let moved : ℤ × N.Machine = N.rename temp path closed.1 in
      let kept : D.contents created.1 path ≡ D.contents m path =
        D.create_keeps path temp create_flags file_mode gone.1 apart
        ∙ D.unlink_keeps path temp m apart in
      let kept' : D.contents closed.1 path ≡ D.contents m path =
        D.close_keeps path created.0 written.1
        ∙ (D.write_keeps path temp create_flags file_mode bytes gone.1 apart ∙ kept) in
      let P : Bool × N.Machine → Type 0 = Replaces path bytes D m in
      if-elim P (is_negative created.0) (λ _. inr (refl, kept))
        (λ up.
          if-elim P (not (written.0 ==ℤ pos (length bytes)) || not (closed.0 ==ℤ pos 0))
            (λ _. inr (refl, D.unlink_keeps path temp closed.1 apart ∙ kept'))
            (λ whole.
              if-elim P (not (moved.0 ==ℤ pos 0))
                (λ e. inr (
                  refl,
                  D.unlink_keeps path temp moved.1 apart
                      ∙ (D.rename_fails temp path closed.1 (ground (arith, e)) ∙ kept'),
                ))
                (λ e. inl (
                  refl,
                  D.rename_moves temp path closed.1 (==ℤ→eq moved.0 0 (ground (arith, e)))
                      ∙ (D.close_keeps temp created.0 written.1
                          ∙ write_fresh D temp bytes gone.1 (cleared D temp m clear) up
                              (==ℤ→eq written.0 (length bytes) (ground (arith, whole)))),
                ))))

  -- The open of a file and the read of all its `size` bytes succeed.
  abbrev pub IsReadable : FilePath → ℕ → N.Machine → Type 0
  IsReadable path size m =
      (is_negative (N.open_file path m).0 ≡ false)
      × ((N.read (N.open_file path m).0 size (N.open_file path m).1).0 ≡ pos size)

  pub read_file_lem :
      (D : IsDisk) (path : FilePath) (bytes : List ℕ) (m : N.Machine)
      → D.contents m path ≡ some bytes
      → IsReadable path (length bytes) m
      → (read_file path (length bytes) m).0 ≡ some bytes
  unfolding read_file
  read_file_lem D path bytes m h (up, whole) =
      let all = D.reads path bytes (length bytes) m h up whole in
      let n : ℕ = length bytes in
      let whole' : (n + 0 == n + 0) ≡ true = ground arith in
      rw (up, whole, all, whole', splice_whole bytes (replicate n 0) (length-replicate n 0)) refl
