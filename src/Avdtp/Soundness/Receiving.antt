-- ===== src/Avdtp/Soundness/Receiving.antt =====
-- `receive`.
use canopus_module_bluetooth.Base.{
  ℕ, ◌+◌, ◌%◌, ◌/◌, ◌≤◌, ◌≡◌, Bool, true, not, ◌&&◌, ◌||◌, if-elim, ltb, List, length, drop, splice,
  get_or, length-splice, ◌∙◌, Result, arith, ◌==◌, leb,
}
use canopus_module_bluetooth.Avdtp.{
  Source, Port, Error, packet_continue, packet_end, packet_single, packet_start, is_down, max_sdu,
  fragment_capacity,
}
use canopus_module_bluetooth.Avdtp.Answers.{is_nil}
use canopus_module_bluetooth.Avdtp.Receive.{
  dispatch, reset_fragment, receive_start, receive_more, finish_fragment, receive,
}
use canopus_module_bluetooth.Avdtp.Soundness.{IsSound}
use canopus_module_bluetooth.Avdtp.Soundness.Answering.{accept-IsSound, reject-IsSound}
use canopus_module_bluetooth.Avdtp.Soundness.Replying.{remote_command-IsSound}

abbrev Keeps : Result Error ℕ × Port → Type 0
Keeps r = IsSound r.1.source

dispatch-IsSound :
    (t m signal : ℕ) (payload : List ℕ) (p : Port)
    → IsSound (p.source)
    → IsSound (dispatch t m signal payload p).1.source
unfolding dispatch
dispatch-IsSound t m signal payload p v = ground (
  arith,
  accept-IsSound t signal payload p v,
  reject-IsSound t signal payload p v,
  remote_command-IsSound t signal payload p v,
)

reset_fragment-IsSound : (s : Source) → IsSound s → IsSound (reset_fragment s)
unfolding reset_fragment
reset_fragment-IsSound s v = record {
  transactions = v.transactions;
  pending = v.pending;
  sink_limit = v.sink_limit;
  fragment_limit = omega arith;
  buffer_size = v.buffer_size;
  late_state = v.late_state;
  late_pending = v.late_pending;
}

-- The fragment fields hold any values, but for the length, which fits the buffer.
buffered-IsSound :
    (s : Source) (active : Bool) (len t m signal expected received : ℕ) (payload : List ℕ)
    → IsSound s
    → len ≤ fragment_capacity
    → length payload ≡ fragment_capacity
    → IsSound (record s {
      fragment_active = active;
      fragment_length = len;
      fragment_transaction = t;
      fragment_message = m;
      fragment_signal = signal;
      fragment_expected_packets = expected;
      fragment_received_packets = received;
      fragment_payload = payload;
    })
buffered-IsSound s active len t m signal expected received payload v fits size = record {
  transactions = v.transactions;
  pending = v.pending;
  sink_limit = v.sink_limit;
  fragment_limit = fits;
  buffer_size = size;
  late_state = v.late_state;
  late_pending = v.late_pending;
}

receive_start-IsSound :
    (t m : ℕ) (packet : List ℕ) (p : Port)
    → IsSound (p.source)
    → IsSound (receive_start t m packet p).1.source
unfolding receive_start
receive_start-IsSound t m packet p v =
    let payload : List ℕ = drop 3 packet in
    if-elim Keeps (p.source.fragment_active) (λ _. reset_fragment-IsSound (p.source) v)
      (λ _.
        if-elim Keeps
          (ltb (length packet) 3 || ltb (get_or packet 1 0) 2 || not (get_or packet 2 0 / 64 == 0))
          (λ _. v)
          (λ _.
            if-elim Keeps (ltb fragment_capacity (length payload)) (λ _. v)
              (λ e.
                buffered-IsSound (p.source) true (length payload) t m (get_or packet 2 0 % 64)
                  (get_or packet 1 0) 1 (splice 0 payload p.source.fragment_payload) v
                  (ground arith)
                  (length-splice 0 payload p.source.fragment_payload ∙ v.buffer_size))))

finish_fragment-IsSound : (p : Port) → IsSound (p.source) → IsSound (finish_fragment p).1.source
unfolding finish_fragment
finish_fragment-IsSound p v = dispatch-IsSound _ _ _ _ _ (reset_fragment-IsSound (p.source) v)

receive_more-IsSound :
    (k t m : ℕ) (packet : List ℕ) (p : Port)
    → IsSound (p.source)
    → IsSound (receive_more k t m packet p).1.source
unfolding receive_more
receive_more-IsSound k t m packet p v =
    let s : Source = p.source in
    let reset : IsSound (reset_fragment s) = reset_fragment-IsSound s v in
    let next : ℕ = s.fragment_received_packets + 1 in
    let fragment : List ℕ = drop 1 packet in
    let len : ℕ = s.fragment_length + length fragment in
    if-elim Keeps
      (not s.fragment_active || not (t == s.fragment_transaction) || not (m == s.fragment_message))
      (λ _. reset)
      (λ _.
        if-elim Keeps
          (k == packet_continue && leb s.fragment_expected_packets next
            || k == packet_end && not (next == s.fragment_expected_packets))
          (λ _. reset)
          (λ _.
            if-elim Keeps (ltb fragment_capacity len) (λ _. reset)
              (λ e.
                let s1 : Source = record s {
                  fragment_payload = splice s.fragment_length fragment s.fragment_payload;
                  fragment_length = len;
                  fragment_received_packets = next;
                } in
                let v1 : IsSound s1 =
                  buffered-IsSound s s.fragment_active len s.fragment_transaction s.fragment_message
                    s.fragment_signal s.fragment_expected_packets next
                    (splice s.fragment_length fragment s.fragment_payload) v (ground arith)
                    (length-splice s.fragment_length fragment s.fragment_payload ∙ v.buffer_size) in
                if-elim Keeps (k == packet_continue) (λ _. v1)
                  (λ _.
                    if-elim Keeps (not (k == packet_end)) (λ _. reset_fragment-IsSound s1 v1)
                      (λ _. finish_fragment-IsSound (record p { source = s1 }) v1)))))

pub receive-IsSound :
    (packet : List ℕ) (p : Port) → IsSound (p.source) → IsSound (receive packet p).1.source
unfolding receive
receive-IsSound packet p v =
    let first : ℕ = get_or packet 0 0 in
    let reset = reset_fragment-IsSound (p.source) v in
    if-elim Keeps (is_down p.source.link || is_nil packet || ltb max_sdu (length packet))
      (λ _. reset)
      (λ _.
        if-elim Keeps (first / 4 % 4 == packet_single)
          (λ _.
            if-elim Keeps (p.source.fragment_active) (λ _. reset)
              (λ _.
                if-elim Keeps (ltb (length packet) 2 || not (get_or packet 1 0 / 64 == 0)) (λ _. v)
                  (λ _. dispatch-IsSound _ _ _ _ p v)))
          (λ _.
            if-elim Keeps (first / 4 % 4 == packet_start)
              (λ _. receive_start-IsSound _ _ packet p v)
              (λ _. receive_more-IsSound _ _ _ packet p v)))
