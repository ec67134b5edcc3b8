-- ===== src/Avdtp/Receive/Fragments.antt =====
-- Reassembly: a message cut into packets is dispatched as the same message in one packet.
use mathlib.Core.List.{append_assoc}
use canopus_module_bluetooth.Base.{
  ◌==◌, if◌then◌else◌, ℕ, ◌+◌, ◌*◌, ◌/◌, ◌%◌, ◌≤◌, ◌<◌, ◌≡◌, ◌∙◌, refl, sym, true, false, List, [],
  ◌∷◌, ◌++◌, length, length-append, take, splice, take-splice, length-splice, arith, ok, then_on_ok,
}
use canopus_module_bluetooth.Avdtp.{
  Port, Source, Writer, fragment_capacity, packet_single, packet_start, packet_continue, packet_end,
  is_down,
}
use canopus_module_bluetooth.Avdtp.Receive.{
  receive, receive_start, receive_more, finish_fragment, dispatch, reset_fragment,
}

-- The first byte of a packet.
abbrev pub header : ℕ → ℕ → ℕ → ℕ
header transaction packet_type message = transaction * 16 + packet_type * 4 + message

abbrev pub whole : ℕ → ℕ → ℕ → List ℕ → List ℕ
whole t m signal payload = header t packet_single m ∷ signal ∷ payload

-- The packets after the first: one CONTINUE for each of `middle`, and the END.
abbrev pub rest_of : ℕ → ℕ → List (List ℕ) → List ℕ → List (List ℕ)
rest_of t m [] last = (header t packet_end m ∷ last) ∷ []
rest_of t m (c ∷ cs) last = (header t packet_continue m ∷ c) ∷ rest_of t m cs last

abbrev pub fragmented : ℕ → ℕ → ℕ → List ℕ → List (List ℕ) → List ℕ → List (List ℕ)
fragmented t m signal first middle last =
    (header t packet_start m ∷ (length middle + 2) ∷ signal ∷ first) ∷ rest_of t m middle last

abbrev pub joined : List (List ℕ) → List ℕ → List ℕ
joined [] last = last
joined (c ∷ cs) last = c ++ joined cs last

-- The packets of one message: each but the last returns Ok(0), and the last one's result counts.
abbrev pub receive_all : List (List ℕ) → Writer
receive_all [] p = (ok 0, p)
receive_all (k ∷ []) p = receive k p
receive_all (k ∷ k' ∷ ks) p = then_on_ok (receive k p) λ _ p'. receive_all (k' ∷ ks) p'

-- The source has `acc`, of `received` packets out of `expected`, in its fragment buffer.
record IsCollecting (t m signal expected received : ℕ) (acc : List ℕ) (s : Source) : Type 0 where
  up : is_down s.link ≡ false
  active : s.fragment_active ≡ true
  transaction_kept : s.fragment_transaction ≡ t
  message_kept : s.fragment_message ≡ m
  signal_kept : s.fragment_signal ≡ signal
  expected_kept : s.fragment_expected_packets ≡ expected
  received_kept : s.fragment_received_packets ≡ received
  length_kept : s.fragment_length ≡ length acc
  held : take (length acc) s.fragment_payload ≡ acc
  capacity : length s.fragment_payload ≡ fragment_capacity

-- Two sources that differ in the fragment fields alone.
abbrev pub with_buffer : List ℕ → Port → Port
with_buffer buffer p = record p {
  source = reset_fragment (record (p.source) { fragment_payload = buffer });
}

collect :
    (acc c buffer : List ℕ)
    → length buffer ≡ fragment_capacity
    → length acc + length c ≤ fragment_capacity
    → take (length acc) buffer ≡ acc
    → take (length (acc ++ c)) (splice (length acc) c buffer) ≡ acc ++ c
collect acc c buffer cap fits held =
    rw (length-append, take-splice (length acc) c buffer (omega arith), held) refl

module _ (t m signal : ℕ) (ht : t < 16) (hm : m < 4) where
  receive_routes :
      (k : ℕ) (xs : List ℕ) (p : Port)
      → 0 < k
      → k < 4
      → is_down p.source.link ≡ false
      → length xs < 128
      → let packet = header t k m ∷ xs in
        receive packet p
        ≡ (if k == packet_start then receive_start t m packet p else receive_more k t m packet p)
  unfolding receive
  receive_routes k xs p pos hk up short =
      let a : (t * 16 + k * 4 + m) / 16 ≡ t = omega arith in
      let b : (t * 16 + k * 4 + m) / 4 % 4 ≡ k = omega arith in
      let c : (t * 16 + k * 4 + m) % 4 ≡ m = omega arith in rw (a, b, c, up) (ground arith)

  continue_step :
      (expected received : ℕ) (acc c : List ℕ) (p : Port)
      → IsCollecting t m signal expected received acc (p.source)
      → received + 1 < expected
      → length acc + length c ≤ fragment_capacity
      → receive_more packet_continue t m (header t packet_continue m ∷ c) p ≡ (
        ok 0,
        record p {
          source = record (p.source) {
            fragment_payload = splice (length acc) c p.source.fragment_payload;
            fragment_length = length acc + length c;
            fragment_received_packets = received + 1;
          };
        },
      )
  unfolding receive_more
  continue_step expected received acc c p h more fits =
      rw
        (
          h.active, h.transaction_kept, h.message_kept, h.received_kept, h.expected_kept,
          h.length_kept,
        )
        (ground arith)

  end_more :
      (received : ℕ) (acc last : List ℕ) (p : Port)
      → IsCollecting t m signal (received + 1) received acc (p.source)
      → length acc + length last ≤ fragment_capacity
      → receive_more packet_end t m (header t packet_end m ∷ last) p
        ≡ finish_fragment (record p {
          source = record (p.source) {
            fragment_payload = splice (length acc) last p.source.fragment_payload;
            fragment_length = length acc + length last;
            fragment_received_packets = received + 1;
          };
        })
  unfolding receive_more
  end_more received acc last p h fits =
      rw
        (
          h.active, h.transaction_kept, h.message_kept, h.received_kept, h.expected_kept,
          h.length_kept,
        )
        (ground arith)

  end_step :
      (received : ℕ) (acc last : List ℕ) (p : Port)
      → IsCollecting t m signal (received + 1) received acc (p.source)
      → length acc + length last ≤ fragment_capacity
      → receive_more packet_end t m (header t packet_end m ∷ last) p
        ≡ dispatch t m signal
            (acc ++ last)
            (with_buffer (splice (length acc) last p.source.fragment_payload) p)
  unfolding finish_fragment reset_fragment
  end_step received acc last p h fits =
      let kept : take (length acc + length last)
            (splice (length acc) last p.source.fragment_payload)
          ≡ acc ++ last =
        rw length-append at (collect acc last p.source.fragment_payload h.capacity fits h.held) in
      end_more received acc last p h fits
      ∙ rw (h.transaction_kept, h.message_kept, h.signal_kept, kept) refl

  receive_all-rest :
      (k : List ℕ) (cs : List (List ℕ)) (last : List ℕ) (p : Port)
      → receive_all (k ∷ rest_of t m cs last) p
        ≡ then_on_ok (receive k p) (λ _ p'. receive_all (rest_of t m cs last) p')
  receive_all-rest k [] last p = refl
  receive_all-rest k (c ∷ cs) last p = refl

  -- The loop over the packets after the first.
  rest_lem :
      (expected received : ℕ) (acc : List ℕ) (cs : List (List ℕ)) (last : List ℕ) (p : Port)
      → IsCollecting t m signal expected received acc (p.source)
      → expected ≡ received + length cs + 1
      → length acc + length (joined cs last) ≤ fragment_capacity
      → (buffer : List ℕ) × (length buffer ≡ fragment_capacity)
        × (receive_all (rest_of t m cs last) p
            ≡ dispatch t m signal (acc ++ joined cs last) (with_buffer buffer p))
  unfolding reset_fragment
  rest_lem expected received acc [] last p h count fits =
      let e : expected ≡ received + 1 = omega arith in
      (
        splice (length acc) last p.source.fragment_payload,
        length-splice (length acc) last p.source.fragment_payload ∙ h.capacity,
        rw (receive_routes packet_end last p (omega arith) (omega arith) h.up (omega arith))
            (end_step received acc last p (rw e at h) fits),
      )
  rest_lem expected received acc (c ∷ cs) last p h count fits =
      let sum = length-append c (joined cs last) in
      let short : length acc + length c ≤ fragment_capacity = omega arith in
      let buffer : List ℕ = splice (length acc) c p.source.fragment_payload in
      let p' : Port = record p {
        source = record (p.source) {
          fragment_payload = buffer;
          fragment_length = length acc + length c;
          fragment_received_packets = received + 1;
        };
      } in
      let h' : IsCollecting t m signal expected (received + 1) (acc ++ c) (p'.source) = record {
        up = h.up;
        active = h.active;
        transaction_kept = h.transaction_kept;
        message_kept = h.message_kept;
        signal_kept = h.signal_kept;
        expected_kept = h.expected_kept;
        received_kept = refl;
        length_kept = sym (length-append acc c);
        held = collect acc c p.source.fragment_payload h.capacity short h.held;
        capacity = length-splice (length acc) c p.source.fragment_payload ∙ h.capacity;
      } in
      let (final, cap, ih) =
        rest_lem expected (received + 1) (acc ++ c) cs last p' h' (omega arith)
          (omega (arith, length-append acc c)) in
      let first_step =
        receive_routes packet_continue c p (omega arith) (omega arith) h.up (omega arith)
        ∙ continue_step expected received acc c p h (omega arith) short in
      (
        final,
        cap,
        receive_all-rest (header t packet_continue m ∷ c) cs last p
            ∙ rw first_step (ih ∙ rw (append_assoc acc c (joined cs last)) refl),
      )

  start_step :
      (count : ℕ) (first : List ℕ) (p : Port)
      → signal < 64
      → 1 < count
      → p.source.fragment_active ≡ false
      → length first ≤ fragment_capacity
      → receive_start t m (header t packet_start m ∷ count ∷ signal ∷ first) p ≡ (
        ok 0,
        record p {
          source = record (p.source) {
            fragment_active = true;
            fragment_length = length first;
            fragment_transaction = t;
            fragment_message = m;
            fragment_signal = signal;
            fragment_expected_packets = count;
            fragment_received_packets = 1;
            fragment_payload = splice 0 first p.source.fragment_payload;
          };
        },
      )
  unfolding receive_start
  start_step count first p hs more quiet fits = rw quiet (ground arith)

  whole_step :
      (payload : List ℕ) (p : Port)
      → signal < 64
      → is_down p.source.link ≡ false
      → p.source.fragment_active ≡ false
      → length payload ≤ fragment_capacity
      → receive (whole t m signal payload) p ≡ dispatch t m signal payload p
  unfolding receive
  whole_step payload p hs up quiet fits =
      let a : (t * 16 + 0 * 4 + m) / 16 ≡ t = omega arith in
      let b : (t * 16 + 0 * 4 + m) / 4 % 4 ≡ 0 = omega arith in
      let c : (t * 16 + 0 * 4 + m) % 4 ≡ m = omega arith in
      let d : signal % 64 ≡ signal = omega arith in rw (a, b, c, d, up, quiet) (ground arith)

-- A message of up to 126 payload bytes, cut into a START packet, CONTINUE packets and an END
-- packet of any sizes that fit, and received on a connected source that is not reassembling, is
-- dispatched with the transaction, message type, signal and joined payload that the same message
-- has in a single packet; only the scratch buffer of the reassembly differs afterwards.
pub reassembly :
    (t m signal : ℕ) (first : List ℕ) (middle : List (List ℕ)) (last : List ℕ) (p : Port)
    → t < 16
    → m < 4
    → signal < 64
    → length middle + 2 < 256
    → length first ≤ 125
    → length first + length (joined middle last) ≤ fragment_capacity
    → is_down p.source.link ≡ false
    → p.source.fragment_active ≡ false
    → length p.source.fragment_payload ≡ fragment_capacity
    → let payload = first ++ joined middle last in
      (buffer : List ℕ) × (length buffer ≡ fragment_capacity)
      × (receive_all (fragmented t m signal first middle last) p
          ≡ dispatch t m signal payload (with_buffer buffer p))
      × (receive (whole t m signal payload) p ≡ dispatch t m signal payload p)
unfolding reset_fragment
reassembly t m signal first middle last p ht hm hs few short fits up quiet cap =
    let s : Source = p.source in
    let p' : Port = record p {
      source = record s {
        fragment_active = true;
        fragment_length = length first;
        fragment_transaction = t;
        fragment_message = m;
        fragment_signal = signal;
        fragment_expected_packets = length middle + 2;
        fragment_received_packets = 1;
        fragment_payload = splice 0 first s.fragment_payload;
      };
    } in
    let h : IsCollecting t m signal (length middle + 2) 1 first (p'.source) = record {
      up = up;
      active = refl;
      transaction_kept = refl;
      message_kept = refl;
      signal_kept = refl;
      expected_kept = refl;
      received_kept = refl;
      length_kept = refl;
      held = collect [] first s.fragment_payload cap (omega arith) refl;
      capacity = length-splice 0 first s.fragment_payload ∙ cap;
    } in
    let (buffer, cap', rest) =
      rest_lem t m signal ht hm (length middle + 2) 1 first middle last p' h (omega arith) fits in
    let begun =
      receive_routes t m signal ht hm packet_start ((length middle + 2) ∷ signal ∷ first) p
        (omega arith) (omega arith) up (omega arith)
      ∙ start_step t m signal ht hm (length middle + 2) first p hs (omega arith) quiet
          (omega arith) in
    (
      buffer,
      cap',
      receive_all-rest t m signal ht hm _ middle last p ∙ rw begun rest,
      whole_step t m signal ht hm (first ++ joined middle last) p hs up quiet
          (rw length-append fits),
    )
