-- ===== src/Avdtp/Soundness/Scanning.antt =====
-- What the scan of a capabilities answer selects.
use canopus_module_bluetooth.Base.{
  ℕ, zero, suc, ◌≡◌, refl, if-elim, ltb, Option, none, some, List, [], ◌∷◌, length, take, drop,
  arith,
}
use canopus_module_bluetooth.Avdtp.{Port, SbcConfig, signal_set_configuration}
use canopus_module_bluetooth.Avdtp.Wire.{command, response}
use canopus_module_bluetooth.Avdtp.Sbc.{
  Scan, Scanned, done, malformed, stuck, sbc_offer, scan_service, scan, next_sink_capabilities,
  finish_scan, choose_sbc,
}
use canopus_module_bluetooth.Avdtp.Soundness.{IsEncodable, IsSound, command-IsSound}

sbc_offer-IsEncodable : (value : List ℕ) (c : SbcConfig) → sbc_offer value ≡ some c → IsEncodable c
unfolding sbc_offer
sbc_offer-IsEncodable value c h = ground arith

abbrev FoundIsEncodable : Option SbcConfig → Type 0
FoundIsEncodable o = (c : SbcConfig) → o ≡ some c → IsEncodable c

scan_service-encodable :
    (category len : ℕ) (value : List ℕ) (s : Scan)
    → FoundIsEncodable s.found
    → FoundIsEncodable (scan_service category len value s).found
unfolding scan_service
scan_service-encodable category len value s h c e =
    ground (arith, h c, sbc_offer-IsEncodable value c)

abbrev EndsEncodable : Scanned → Type 0
EndsEncodable (done s) = FoundIsEncodable s.found
EndsEncodable (malformed s) = Unit
EndsEncodable stuck = Unit

scan-encodable :
    (fuel : ℕ) (payload : List ℕ) (s : Scan)
    → FoundIsEncodable s.found
    → EndsEncodable (scan fuel payload s)
unfolding scan
scan-encodable fuel [] s h = h
scan-encodable fuel (category ∷ []) s h = tt
scan-encodable zero (category ∷ len ∷ rest) s h = tt
scan-encodable (suc fuel) (category ∷ len ∷ rest) s h =
    let next : Scan = scan_service category len (take len rest) s in
    if-elim EndsEncodable (ltb (length rest) len) (λ _. tt)
      (λ _.
        scan-encodable fuel (drop len rest) next
          (scan_service-encodable category len (take len rest) s h))

pub next_sink-IsSound :
    (p : Port) → IsSound (p.source) → IsSound (next_sink_capabilities p).1.source
unfolding next_sink_capabilities command response
next_sink-IsSound p v = ground (arith, v.late_state, v.late_pending)

finish_scan-IsSound :
    (r : Scanned) (p : Port)
    → EndsEncodable r
    → IsSound (p.source)
    → IsSound (finish_scan r p).1.source
unfolding finish_scan
finish_scan-IsSound stuck p h v = v
finish_scan-IsSound (malformed s) p h v = ground (arith, v.late_state, v.late_pending)
finish_scan-IsSound (done s) p h v = finish_choice s.found refl
  where
    finish_choice :
        (o : Option SbcConfig)
        → s.found ≡ o
        → IsSound (finish_scan (done (record s { found = o })) p).1.source
    finish_choice none e = next_sink-IsSound _ (record {
      transactions = v.transactions;
      pending = v.pending;
      sink_limit = v.sink_limit;
      fragment_limit = v.fragment_limit;
      buffer_size = v.buffer_size;
      late_state = v.late_state;
      late_pending = v.late_pending;
    })
    finish_choice (some c) e =
        command-IsSound signal_set_configuration _ _
          (record {
            transactions = v.transactions;
            pending = v.pending;
            sink_limit = v.sink_limit;
            fragment_limit = v.fragment_limit;
            buffer_size = v.buffer_size;
            late_state = λ _. h c e;
            late_pending = λ _. h c e;
          })
          (λ _. h c e)

pub choose_sbc-IsSound :
    (payload : List ℕ) (p : Port) → IsSound (p.source) → IsSound (choose_sbc payload p).1.source
unfolding choose_sbc
choose_sbc-IsSound payload p v =
    finish_scan-IsSound _ p (scan-encodable (length payload) payload _ (λ c e. cc)) v
