-- ===== src/Avrcp/Soundness.antt =====
-- What holds of the controller whatever its methods do.
pub mod Packets
pub mod Runs
use canopus_module_bluetooth.Base.{
  ℕ, suc, ◌+◌, ◌*◌, ◌/◌, ◌%◌, ◌≤◌, ◌<◌, ◌≡◌, ◌≢◌, ◌⊎◌, inl, inr, refl, ap, sym, splice, Bool, true,
  false, not, ◌&&◌, ◌||◌, List, [], ◌∷◌, Option, some, none, Result, ok, err, length, get_or, take,
  drop, ltb, leb, ◌==◌, if◌then◌else◌, Bool-cases, if-elim, arith, then_on_ok,
}
use canopus_module_bluetooth.Avrcp.{
  Controller, Port, frame, no_room, packet_error, State, disconnected, ready, Error, new,
  refresh_state, is_disconnected, is_off, no_transaction, max_volume, response, command,
  send_command, allocate_transaction, set_absolute_volume, connected, connected_for_volume_sync,
  target_volume_changed, register_volume_notification, disconnect, avc_control, avc_notify,
  pdu_set_absolute_volume, pdu_register_notification, event_volume_changed,
}
use canopus_module_bluetooth.Avrcp.Transactions.{Allocates, allocate_transaction-Allocates}
use canopus_module_bluetooth.Avrcp.Receive.{
  Event, receive, receive_pass_through, pass_through_response, answer_command, accept_volume,
  receive_command, receive_notification, receive_volume_answer, receive_response, receive_vendor,
}

-- A transaction label, or none.
abbrev pub IsLabel : ℕ → Type 0
IsLabel t = (t < 16) ⊎ (t ≡ no_transaction)

-- What the transactions of a controller are, whatever its state.
pub record HasLabels (c : Controller) : Type 0 where
  pub next_label : c.next_transaction < 16
  pub control_label : IsLabel c.control_transaction
  pub notification_label : IsLabel c.notification_transaction
  pub target_label : IsLabel c.target_notification_transaction
  pub apart :
      (c.control_transaction ≡ no_transaction)
      ⊎ (c.control_transaction ≢ c.notification_transaction)
  pub registered_live :
      (c.notification_registered ≡ false) ⊎ (c.notification_transaction ≢ no_transaction)
  pub volume_limit : c.volume ≤ max_volume

-- The state is the one that the transactions say, or the controller is disconnected and has none.
abbrev pub IsSettled : Controller → Type 0
IsSettled c =
    (c.state ≡ (refresh_state c).state)
    ⊎ ((c.state ≡ disconnected)
        × (c.control_transaction ≡ no_transaction)
        × (c.notification_transaction ≡ no_transaction))

pub record IsSound (c : Controller) : Type 0 where
  pub labels : HasLabels c
  pub settled : IsSettled c

pub new-IsSound : IsSound new
unfolding new
new-IsSound = record {
  labels = record {
    next_label = omega arith;
    control_label = omega arith;
    notification_label = omega arith;
    target_label = omega arith;
    apart = omega arith;
    registered_live = inl refl;
    volume_limit = omega arith;
  };
  settled = inr (refl, refl, refl);
}

pub refreshed : (c : Controller) → HasLabels c → IsSound (refresh_state c)
unfolding refresh_state
refreshed c v = record {
  labels = record {
    next_label = v.next_label;
    control_label = v.control_label;
    notification_label = v.notification_label;
    target_label = v.target_label;
    apart = v.apart;
    registered_live = v.registered_live;
    volume_limit = v.volume_limit;
  };
  settled = inl refl;
}

-- `command` fails without a change, or takes a fresh label and changes only the next one.
Sent : Port → Result Error (ℕ × ℕ) × Port → Type 0
Sent p r =
    (r ≡ (err packet_error, p))
    ⊎ ((len t next : ℕ) × (out : List ℕ) × (r ≡ (
      ok (len, t),
      record { controller = record p.controller { next_transaction = next }; out = out },
    ))
        × (next < 16)
        × (t < 16)
        × (t ≢ p.controller.control_transaction)
        × (t ≢ p.controller.notification_transaction))

command-Sent :
    (ctype pdu : ℕ) (parameters : List ℕ) (p : Port) → Sent p (command ctype pdu parameters p)
unfolding command send_command Sent
command-Sent ctype pdu parameters p = elim (Bool-cases (no_room parameters p.out)) [
  | inl e ↦ rw e (inl refl)
  | inr e ↦
      (let c : Controller = p.controller in
        let v = allocate_transaction-Allocates c in
        let c' : Controller = (allocate_transaction c).1 in
        let same : c' ≡ record c { next_transaction = c'.next_transaction } =
          ap (λ (x : Controller). record x { next_transaction = c'.next_transaction }) v.others in
        let sent = splice 0 (frame v.label 0 ctype pdu parameters) p.out in
        let whole : allocate_transaction c
            ≡ (some v.label, record c { next_transaction = c'.next_transaction }) =
          λ i. (v.allocated i, same i) in
        rw (e, whole)
          (inr (
            13 + length parameters,
            v.label,
            c'.next_transaction,
            sent,
            refl,
            omega (arith, v.follows),
            v.in_range,
            v.not_control,
            v.not_notification,
          )))
]

pub response-controller :
    (t ctype pdu : ℕ) (parameters : List ℕ) (p : Port)
    → (response t ctype pdu parameters p).1.controller ≡ p.controller
unfolding response
response-controller t ctype pdu parameters p = ground arith

pub pass_through_response-controller :
    (t ctype : ℕ) (packet : List ℕ) (p : Port)
    → (pass_through_response t ctype packet p).1.controller ≡ p.controller
unfolding pass_through_response
pass_through_response-controller t ctype packet p = ground arith

abbrev pub Keeps : {A : Type 0} → Result Error A × Port → Type 0
Keeps r = IsSound r.1.controller

pub labels_at :
    (c : Controller) (state : State) (volume : ℕ)
    → volume ≤ max_volume
    → HasLabels c
    → HasLabels (record c { state = state; volume = volume })
labels_at c state volume h v = record {
  next_label = v.next_label;
  control_label = v.control_label;
  notification_label = v.notification_label;
  target_label = v.target_label;
  apart = v.apart;
  registered_live = v.registered_live;
  volume_limit = h;
}

-- What a method makes of a controller that keeps its state and its transactions.
pub revolumed :
    (c : Controller) (volume : ℕ)
    → volume ≤ max_volume
    → IsSound c
    → IsSound (record c { volume = volume })
unfolding refresh_state
revolumed c volume h v = record {
  labels = labels_at c c.state volume h v.labels;
  settled = v.settled;
}

pub retargeted :
    (c : Controller) (t : ℕ)
    → IsLabel t
    → IsSound c
    → IsSound (record c { target_notification_transaction = t })
unfolding refresh_state
retargeted c t h v = record {
  labels = record {
    next_label = v.labels.next_label;
    control_label = v.labels.control_label;
    notification_label = v.labels.notification_label;
    target_label = h;
    apart = v.labels.apart;
    registered_live = v.labels.registered_live;
    volume_limit = v.labels.volume_limit;
  };
  settled = v.settled;
}

pub set_absolute_volume-IsSound :
    (volume : ℕ) (p : Port) → IsSound (p.controller) → Keeps (set_absolute_volume volume p)
unfolding set_absolute_volume Sent
set_absolute_volume-IsSound volume p v =
    if-elim Keeps (is_off p.controller.state || ltb max_volume volume) (λ _. v)
      (λ g. elim (command-Sent avc_control pdu_set_absolute_volume (volume ∷ []) p) [
        | inl e ↦ rw e v
        | inr (len, t, next, out, e, small, label, not_control, not_notification) ↦ rw e (
            refreshed
              (record p.controller {
                next_transaction = next;
                volume = volume;
                control_transaction = t;
              })
              (record {
                next_label = small;
                control_label = inl label;
                notification_label = v.labels.notification_label;
                target_label = v.labels.target_label;
                apart = inr not_notification;
                registered_live = v.labels.registered_live;
                volume_limit = ground arith;
              }))
      ])

pub register-IsSound : (p : Port) → IsSound (p.controller) → Keeps (register_volume_notification p)
unfolding register_volume_notification Sent
register-IsSound p v =
    if-elim Keeps
      (is_off p.controller.state || not (p.controller.notification_transaction == no_transaction))
      (λ _. v)
      (λ g.
        elim (command-Sent avc_notify pdu_register_notification
          (event_volume_changed ∷ 0 ∷ 0 ∷ 0 ∷ 0 ∷ []) p) [
            | inl e ↦ rw e v
            | inr (len, t, next, out, e, small, label, not_control, not_notification) ↦ rw e (
                refreshed
                  (record p.controller {
                    next_transaction = next;
                    notification_transaction = t;
                    notification_registered = false;
                  })
                  (record {
                    next_label = small;
                    control_label = v.labels.control_label;
                    notification_label = inl label;
                    target_label = v.labels.target_label;
                    apart = inr (λ e'. not_control (sym e'));
                    registered_live = inl refl;
                    volume_limit = v.labels.volume_limit;
                  }))
          ])

closes_only : (s : State) → is_disconnected s ≡ true → s ≡ disconnected
unfolding is_disconnected
closes_only disconnected h = refl
closes_only State.ready h = cc
closes_only State.waiting_set_volume h = cc
closes_only State.waiting_interim h = cc
closes_only State.registered h = cc
closes_only State.failed h = cc

pub never_refreshed_off : (c : Controller) → is_disconnected (refresh_state c).state ≡ false
unfolding refresh_state is_disconnected
never_refreshed_off c = ground arith

-- A disconnected controller has no live transaction.
idle :
    (c : Controller)
    → is_disconnected c.state ≡ true
    → IsSound c
    → (c.control_transaction ≡ no_transaction) × (c.notification_transaction ≡ no_transaction)
idle c h v = elim v.settled [
  | inl e ↦ absurd (
      let f = never_refreshed_off c in
      let g : is_disconnected (refresh_state c).state ≡ true = rw (sym e) h in cc)
  | inr s ↦ (s.1, s.2)
]

opened :
    (c : Controller) (volume : ℕ)
    → is_disconnected c.state ≡ true
    → volume ≤ max_volume
    → IsSound c
    → IsSound (record c { state = ready; volume = volume })
unfolding refresh_state
opened c volume h small v =
    let none_live = idle c h v in
    record {
      labels = labels_at c ready volume small v.labels;
      settled = inl (rw (none_live.0, none_live.1) refl);
    }

pub connected-IsSound :
    (volume : ℕ) (p : Port) → IsSound (p.controller) → Keeps (connected volume p)
unfolding connected
connected-IsSound volume p v =
    if-elim Keeps (not (is_disconnected p.controller.state) || ltb max_volume volume) (λ _. v)
      (λ g.
        set_absolute_volume-IsSound volume _
          (opened p.controller volume (ground arith) (ground arith) v))

pub connected_for_volume_sync-IsSound :
    (volume : ℕ) (p : Port) → IsSound (p.controller) → Keeps (connected_for_volume_sync volume p)
unfolding connected_for_volume_sync
connected_for_volume_sync-IsSound volume p v =
    if-elim Keeps (not (is_disconnected p.controller.state) || ltb max_volume volume) (λ _. v)
      (λ g. opened p.controller volume (ground arith) (ground arith) v)

pub target_volume_changed-IsSound :
    (volume : ℕ) (p : Port) → IsSound (p.controller) → Keeps (target_volume_changed volume p)
unfolding target_volume_changed
target_volume_changed-IsSound volume p v =
    let c : Controller = p.controller in
    if-elim Keeps (is_disconnected c.state || ltb max_volume volume) (λ _. v)
      (λ g.
        let louder = revolumed c volume (ground arith) v in
        if-elim Keeps (c.target_notification_transaction == no_transaction) (λ _. louder)
          (λ _.
            rw (response-controller c.target_notification_transaction _ _ _ _)
              (retargeted (record c { volume = volume }) no_transaction (inr refl) louder)))
