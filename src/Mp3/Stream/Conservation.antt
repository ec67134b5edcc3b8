-- ===== src/Mp3/Stream/Conservation.antt =====
-- Histories of a stream: bytes come in, and steps are made.
use canopus_module_bluetooth.Base.{
  ℕ, ◌≡◌, refl, ap, sym, ◌∙◌, Bool, List, [], ◌∷◌, ◌++◌, take, drop, Option, none, some,
  take-append-drop,
}
use mathlib.Core.List.{append_assoc, append-nil}
use canopus_module_bluetooth.Mp3.{NanoMp3}
use canopus_module_bluetooth.Mp3.Window.{contents}
use canopus_module_bluetooth.Mp3.Window.Queue.{IsValid, push_lem}
use canopus_module_bluetooth.Mp3.Stream.{Mp3ByteStream, Outcome, decode_next, push}
use canopus_module_bluetooth.Mp3.Stream.Steps.{taken, decode_next-Steps}

pub data Transfer : Type 0 where
  pushes : List ℕ → Transfer
  decodes : ℕ → ℕ → Bool → Transfer

module _ (N : NanoMp3) where
  -- A history ends in a stream, with the bytes that `push` took and those that steps gave up, in
  -- order. `none` is a fault.
  abbrev pub push_all :
      List ℕ
      → Option (List ℕ × List ℕ × Mp3ByteStream N)
      → Option (List ℕ × List ℕ × Mp3ByteStream N)
  push_all bytes none = none
  push_all bytes (some (sent, done, s)) = some (bytes ++ sent, done, s)

  abbrev pub give_up :
      List ℕ
      → Option (List ℕ × List ℕ × Mp3ByteStream N)
      → Option (List ℕ × List ℕ × Mp3ByteStream N)
  give_up bytes none = none
  give_up bytes (some (sent, done, s)) = some (sent, bytes ++ done, s)

  abbrev pub after_step :
      Mp3ByteStream N
      → Option (Outcome N)
      → (Mp3ByteStream N → Option (List ℕ × List ℕ × Mp3ByteStream N))
      → Option (List ℕ × List ℕ × Mp3ByteStream N)
  after_step s none rest = none
  after_step s (some (r, out, t)) rest = give_up (take (taken r) (contents s.window)) (rest t)

  unfoldable pub run : List Transfer → Mp3ByteStream N → Option (List ℕ × List ℕ × Mp3ByteStream N)
  run [] s = some ([], [], s)
  run (pushes bytes ∷ ts) s = push_all (take (push N bytes s).0 bytes) (run ts (push N bytes s).1)
  run (decodes percent room end ∷ ts) s = after_step s (decode_next N percent room end s) (run ts)

  push_step :
      (bytes : List ℕ) (s : Mp3ByteStream N)
      → IsValid (s.window)
      → (contents (push N bytes s).1.window ≡ contents s.window ++ take (push N bytes s).0 bytes)
        × IsValid ((push N bytes s).1.window)
  unfolding push
  push_step bytes s v = let (count, grown, after) = push_lem bytes s.window v in (grown, after)

  -- Over any history of pushes and steps of a stream with a valid window, no read is out of bounds,
  -- and the bytes that were pending and those that `push` said it took are those that the steps said
  -- they took, followed by those still pending: nothing is lost, repeated or reordered.
  pub bytes_conserved :
      (ts : List Transfer) (s : Mp3ByteStream N)
      → IsValid (s.window)
      → (sent done : List ℕ) × (t : Mp3ByteStream N) × (run ts s ≡ some (sent, done, t))
        × (contents s.window ++ sent ≡ done ++ contents t.window)
        × IsValid (t.window)
  unfolding run
  bytes_conserved [] s v = ([], [], s, refl, append-nil (contents s.window), v)
  bytes_conserved (pushes bytes ∷ ts) s v =
      let (grown, valid) = push_step bytes s v in
      let (sent, done, t, returns, same, after) = bytes_conserved ts (push N bytes s).1 valid in
      (
        take (push N bytes s).0 bytes ++ sent,
        done,
        t,
        rw returns refl,
        sym (append_assoc (contents s.window) (take (push N bytes s).0 bytes) sent)
            ∙ ap (λ (xs : List ℕ). xs ++ sent) (sym grown)
            ∙ same,
        after,
      )
  bytes_conserved (decodes percent room end ∷ ts) s v =
      let ((r, out, s'), steps, st) = decode_next-Steps N room s v percent end in
      let (sent, done, t, returns, same, after) = bytes_conserved ts s' st.valid in
      let given : List ℕ = take (taken r) (contents s.window) in
      (
        sent,
        given ++ done,
        t,
        rw (steps, returns) refl,
        ap (λ (xs : List ℕ). xs ++ sent) (sym (take-append-drop (taken r) (contents s.window)))
            ∙ append_assoc given (drop (taken r) (contents s.window)) sent
            ∙ ap (λ (xs : List ℕ). given ++ (xs ++ sent)) (sym st.left)
            ∙ ap (◌++◌ given) same
            ∙ sym (append_assoc given done (contents t.window)),
        after,
      )
