-- ===== src/Avrcp/Soundness/Packets.antt =====
-- `receive` keeps what holds of the controller.
use canopus_module_bluetooth.Base.{
  ℕ, ◌+◌, ◌*◌, ◌/◌, ◌%◌, ◌≤◌, ◌<◌, inl, inr, refl, true, false, not, ◌&&◌, ◌||◌, List, [], ◌∷◌,
  Result, ok, err, length, get_or, take, drop, ltb, leb, ◌==◌, if-elim, arith, then_on_ok, All,
  bytes_eq,
}
use canopus_module_bluetooth.Avrcp.{
  Controller, Port, Error, is_disconnected, no_transaction, max_volume, response, avc_accepted,
  avc_interim, avc_changed, avc_control, avc_notify, pdu_set_absolute_volume,
  pdu_register_notification, pdu_get_capabilities, event_volume_changed, opcode_vendor_dependent,
  company_id,
}
use canopus_module_bluetooth.Avrcp.Soundness.{
  HasLabels, IsSound, Keeps, refreshed, response-controller, pass_through_response-controller,
  revolumed, retargeted, labels_at,
}
use canopus_module_bluetooth.Avrcp.Receive.{
  receive, receive_pass_through, pass_through_response, answer_command, accept_volume,
  receive_command, opcode_pass_through, capability_company_id, capability_events_supported,
  receive_notification, receive_volume_answer, receive_response, receive_vendor, is_refusal,
  bad_header,
}

then-Keeps :
    {A B : Type 0} (r : Result Error A × Port) (f : A → Port → Result Error B × Port)
    → Keeps r
    → ((a : A) (q : Port) → IsSound q.controller → Keeps (f a q))
    → Keeps (then_on_ok r f)
then-Keeps (ok a, q) f v h = h a q v
then-Keeps (err e, q) f v h = v

response-Keeps :
    (t ctype pdu : ℕ) (parameters : List ℕ) (p : Port)
    → IsSound p.controller
    → Keeps (response t ctype pdu parameters p)
response-Keeps t ctype pdu parameters p v = rw (response-controller t ctype pdu parameters p) v

answer_command-Keeps :
    (t ctype pdu : ℕ) (parameters : List ℕ) (p : Port)
    → IsSound p.controller
    → Keeps (answer_command t ctype pdu parameters p)
unfolding answer_command
answer_command-Keeps t ctype pdu parameters p v =
    then-Keeps (response t ctype pdu parameters p) _ (response-Keeps t ctype pdu parameters p v)
      (λ a q w. w)

accept_volume-Keeps :
    (t pdu volume : ℕ) (p : Port)
    → volume ≤ max_volume
    → IsSound p.controller
    → Keeps (accept_volume t pdu volume p)
unfolding accept_volume
accept_volume-Keeps t pdu volume p h v =
    then-Keeps (response t avc_accepted pdu (volume ∷ []) _) _
      (response-Keeps t avc_accepted pdu (volume ∷ []) _ (revolumed p.controller volume h v))
      (λ a q w. w)

receive_pass_through-Keeps :
    (t ctype : ℕ) (packet : List ℕ) (p : Port)
    → IsSound p.controller
    → Keeps (receive_pass_through t ctype packet p)
unfolding receive_pass_through
receive_pass_through-Keeps t ctype packet p v =
    if-elim Keeps (not (ctype == avc_control) || ltb (length packet) 8) (λ _. v)
      (λ _.
        if-elim Keeps (not (length packet == 8 + get_or packet 7 0)) (λ _. v)
          (λ _.
            then-Keeps (pass_through_response t _ packet p) _
              (rw (pass_through_response-controller t _ packet p) v) (λ a q w. w)))

receive_command-Keeps :
    (t ctype pdu : ℕ) (parameters : List ℕ) (p : Port)
    → t < 16
    → IsSound p.controller
    → Keeps (receive_command t ctype pdu parameters p)
unfolding receive_command
receive_command-Keeps t ctype pdu parameters p h v =
    let c : Controller = p.controller in
    let volume : ℕ = get_or parameters 0 0 in
    if-elim Keeps
      (ctype == 0x01
        && pdu == pdu_get_capabilities
        && bytes_eq parameters (capability_company_id ∷ []))
      (λ _. answer_command-Keeps t _ pdu _ p v)
      (λ _.
        if-elim Keeps
          (ctype == 0x01
            && pdu == pdu_get_capabilities
            && bytes_eq parameters (capability_events_supported ∷ []))
          (λ _. answer_command-Keeps t _ pdu _ p v)
          (λ _.
            if-elim Keeps
              (ctype == avc_control
                && pdu == pdu_set_absolute_volume
                && length parameters == 1
                && leb volume max_volume)
              (λ g. accept_volume-Keeps t pdu volume p (ground arith) v)
              (λ _.
                if-elim Keeps
                  (ctype == avc_notify
                    && pdu == pdu_register_notification
                    && length parameters == 5
                    && volume == event_volume_changed)
                  (λ _. answer_command-Keeps t _ pdu _ _ (retargeted c t (inl h) v))
                  (λ _. answer_command-Keeps t _ pdu parameters p v))))

-- The notification's transaction is given up.
unnotified :
    (c : Controller)
    → HasLabels c
    → HasLabels
        (record c { notification_transaction = no_transaction; notification_registered = false })
unnotified c v = record {
  next_label = v.next_label;
  control_label = v.control_label;
  notification_label = inr refl;
  target_label = v.target_label;
  apart = elim v.control_label [ inl small ↦ inr (omega arith) | inr e ↦ inl e ];
  registered_live = inl refl;
  volume_limit = v.volume_limit;
}

uncontrolled :
    (c : Controller) → HasLabels c → HasLabels (record c { control_transaction = no_transaction })
uncontrolled c v = record {
  next_label = v.next_label;
  control_label = inr refl;
  notification_label = v.notification_label;
  target_label = v.target_label;
  apart = inl refl;
  registered_live = v.registered_live;
  volume_limit = v.volume_limit;
}

-- The interim response to a live registration.
confirmed :
    (c : Controller)
    → c.notification_transaction < 16
    → HasLabels c
    → HasLabels (record c { notification_registered = true })
confirmed c h v = record {
  next_label = v.next_label;
  control_label = v.control_label;
  notification_label = v.notification_label;
  target_label = v.target_label;
  apart = v.apart;
  registered_live = inr (omega arith);
  volume_limit = v.volume_limit;
}

receive_notification-Keeps :
    (ctype volume : ℕ) (p : Port)
    → p.controller.notification_transaction < 16
    → volume ≤ max_volume
    → IsSound p.controller
    → Keeps (receive_notification ctype volume p)
unfolding receive_notification
receive_notification-Keeps ctype volume p live h v =
    let c : Controller = record p.controller { volume = volume } in
    let louder : IsSound c = revolumed p.controller volume h v in
    if-elim Keeps (ctype == avc_interim && not c.notification_registered)
      (λ _. refreshed _ (confirmed c live louder.labels))
      (λ _.
        if-elim Keeps (ctype == avc_changed && c.notification_registered)
          (λ _. refreshed _ (unnotified c louder.labels)) (λ _. louder))

receive_volume_answer-Keeps :
    (ctype : ℕ) (parameters : List ℕ) (p : Port)
    → IsSound p.controller
    → Keeps (receive_volume_answer ctype parameters p)
unfolding receive_volume_answer
receive_volume_answer-Keeps ctype parameters p v =
    let c : Controller = record p.controller { control_transaction = no_transaction } in
    let free : HasLabels c = uncontrolled p.controller v.labels in
    let volume : ℕ = get_or parameters 0 0 in
    if-elim Keeps (ctype == avc_accepted && length parameters == 1 && leb volume max_volume)
      (λ g. refreshed _ (labels_at c c.state volume (ground arith) free))
      (λ _. if-elim Keeps (is_refusal ctype) (λ _. refreshed c free) (λ _. v))

receive_response-Keeps :
    (t ctype pdu : ℕ) (parameters : List ℕ) (p : Port)
    → t < 16
    → IsSound p.controller
    → Keeps (receive_response t ctype pdu parameters p)
unfolding receive_response
receive_response-Keeps t ctype pdu parameters p h v =
    let c : Controller = p.controller in
    if-elim Keeps
      (pdu == pdu_register_notification
        && t == c.notification_transaction
        && length parameters == 2
        && get_or parameters 0 0 == event_volume_changed)
      (λ g. receive_notification-Keeps ctype _ p (ground arith) (omega arith) v)
      (λ _.
        if-elim Keeps
          (pdu == pdu_register_notification && t == c.notification_transaction && is_refusal ctype)
          (λ _. refreshed _ (unnotified c v.labels))
          (λ _.
            if-elim Keeps (pdu == pdu_set_absolute_volume && t == c.control_transaction)
              (λ _. receive_volume_answer-Keeps ctype parameters p v) (λ _. v)))

receive_vendor-Keeps :
    (t direction ctype : ℕ) (packet : List ℕ) (p : Port)
    → t < 16
    → IsSound p.controller
    → Keeps (receive_vendor t direction ctype packet p)
unfolding receive_vendor
receive_vendor-Keeps t direction ctype packet p h v =
    let pdu : ℕ = get_or packet 9 0 in
    if-elim Keeps (ltb (length packet) 13 || not (get_or packet 5 0 == opcode_vendor_dependent))
      (λ _. v)
      (λ _.
        if-elim Keeps (not (length packet == 13 + (get_or packet 11 0 * 256 + get_or packet 12 0)))
          (λ _. v)
          (λ _.
            if-elim Keeps
              (not (bytes_eq (take 3 (drop 6 packet)) company_id)
                || not (get_or packet 10 0 % 4 == 0))
              (λ _. v)
              (λ _.
                if-elim Keeps (direction == 0)
                  (λ _. receive_command-Keeps t ctype pdu (drop 13 packet) p h v)
                  (λ _. receive_response-Keeps t ctype pdu (drop 13 packet) p h v))))

first_byte : (packet : List ℕ) → All (λ b. b < 256) packet → get_or packet 0 0 / 16 < 16
first_byte [] h = omega arith
first_byte (b ∷ packet) h = omega (arith, h.0)

pub receive-IsSound :
    (packet : List ℕ) (p : Port)
    → All (λ b. b < 256) packet
    → IsSound p.controller
    → Keeps (receive packet p)
unfolding receive
receive-IsSound packet p bytes v =
    let t : ℕ = get_or packet 0 0 / 16 in
    let label : t < 16 = first_byte packet bytes in
    let direction : ℕ = get_or packet 0 0 / 2 % 2 in
    let ctype : ℕ = get_or packet 3 0 % 16 in
    if-elim Keeps (ltb (length packet) 6 || is_disconnected p.controller.state) (λ _. v)
      (λ _.
        if-elim Keeps (bad_header packet) (λ _. v)
          (λ _.
            if-elim Keeps (get_or packet 5 0 == opcode_pass_through)
              (λ _.
                if-elim Keeps (direction == 0) (λ _. receive_pass_through-Keeps t ctype packet p v)
                  (λ _. v))
              (λ _. receive_vendor-Keeps t direction ctype packet p label v)))
