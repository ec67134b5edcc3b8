-- ===== src/Avdtp/Wire/Frames.antt =====
-- What `response` and `command` write, and how long it is.
use canopus_module_bluetooth.Base.{
  Bool, zero, suc, if◌then◌else◌, false, ℕ, ◌+◌, ◌*◌, ◌%◌, ◌≤◌, ◌<◌, ◌≡◌, refl, true, bit_or, List,
  length, splice, take, take-splice, ◌==◌, ==_iff, ok, arith,
}
use canopus_module_bluetooth.Avdtp.{Port, msg_command}
use canopus_module_bluetooth.Avdtp.Wire.{frame, response, command}

-- The header byte is checked at all its values: 16 transactions and 4 message types.
abbrev holds_below : (ℕ → Bool) → ℕ → Bool
holds_below test zero = true
holds_below test (suc k) = if test k then holds_below test k else false

holds_at : (test : ℕ → Bool) (k i : ℕ) → i < k → holds_below test k ≡ true → test i ≡ true
holds_at test zero i l h = absurd (omega arith)
holds_at test (suc k) i l h = ground (arith, holds_at test k i)

abbrev agrees : ℕ → ℕ → Bool
agrees t m = bit_or (t * 16 % 256) m == (t * 16 + m)

headers_agree : holds_below (λ t. holds_below (agrees t) 4) 16 ≡ true
headers_agree = refl

pub header-eq : (t m : ℕ) → t < 16 → m < 4 → bit_or (t * 16 % 256) m ≡ t * 16 + m
header-eq t m ht hm =
    (==_iff _ _).0
      (holds_at (agrees t) 4 m hm (holds_at (λ x. holds_below (agrees x) 4) 16 t ht headers_agree))

module _ (p : Port) where
  pub response_fits :
      (t signal m : ℕ) (payload : List ℕ)
      → 2 + length payload ≤ length p.out
      → response t signal m payload p
        ≡ (ok (2 + length payload), record p { out = splice 0 (frame t signal m payload) p.out })
  unfolding response
  response_fits t signal m payload h = ground arith

  pub command_fits :
      (signal : ℕ) (payload : List ℕ)
      → 2 + length payload ≤ length p.out
      → let t = p.source.next_transaction % 16 in
        command signal payload p ≡ (
          ok (2 + length payload),
          record {
            source = record (p.source) {
              next_transaction = (t + 1) % 16;
              pending_transaction = t;
              pending_signal = signal;
            };
            out = splice 0 (frame t signal msg_command payload) p.out;
          },
        )
  unfolding command response
  command_fits signal payload h = ground arith

  pub written :
      (t signal m : ℕ) (payload : List ℕ)
      → 2 + length payload ≤ length p.out
      → take (2 + length payload) (splice 0 (frame t signal m payload) p.out)
        ≡ frame t signal m payload
  written t signal m payload h =
      let e : 2 + length payload ≡ 0 + length (frame t signal m payload) = omega arith in
      rw e (take-splice 0 (frame t signal m payload) p.out (omega arith))
