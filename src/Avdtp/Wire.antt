-- ===== src/Avdtp/Wire.antt =====
-- `response` and `command`: what goes into the output buffer.
pub mod Frames
use canopus_module_bluetooth.Base.{
  ℕ, ◌+◌, ◌*◌, ◌%◌, bit_or, List, ◌∷◌, length, splice, ltb, if◌then◌else◌, ok, err, then_on_ok,
}
use canopus_module_bluetooth.Avdtp.{Source, Writer, overflow, msg_command}

-- `(transaction << 4) | message`, then the signal, then the payload.
abbrev pub frame : ℕ → ℕ → ℕ → List ℕ → List ℕ
frame transaction signal message payload =
    bit_or (transaction * 16 % 256) message ∷ signal ∷ payload

-- `response` writes to `out` and leaves the source alone.
unfoldable pub response : ℕ → ℕ → ℕ → List ℕ → Writer
response transaction signal message payload p =
    let len : ℕ = 2 + length payload in
    if ltb (length p.out) len
    then (err overflow, p)
    else (ok len, record p { out = splice 0 (frame transaction signal message payload) p.out })

unfoldable pub command : ℕ → List ℕ → Writer
command signal payload p =
    let transaction : ℕ = p.source.next_transaction % 16 in
    let advanced : Source = record (p.source) { next_transaction = (transaction + 1) % 16 } in
    then_on_ok (response transaction signal msg_command payload (record p { source = advanced }))
      λ len p'. (
        ok len,
        record p' {
          source = record (p'.source) {
            pending_transaction = transaction;
            pending_signal = signal;
          };
        },
      )
