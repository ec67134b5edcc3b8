-- ===== src/Manager/Controller.antt =====
-- `Controller<P>`: each method takes the controller and returns its result with the controller that
-- it leaves, on the error path too.
use canopus_module_bluetooth.Base.{
  ℕ, Bool, true, false, not, ◌||◌, Option, none, some, Result, ok, err, if◌then◌else◌, is_some,
}
use canopus_module_bluetooth.Base.Int.{pos}
use canopus_module_bluetooth.Discovery.{Address, DiscoveredDevice}
use canopus_module_bluetooth.Discovery
use canopus_module_bluetooth.Manager.{
  Platform, Model, Peer, ScanState, ConnectionState, BondPreparation, idle, starting, scanning,
  stopping, scan_failed, disconnected, waiting_for_scan_stop, checking_bond, removing_bond, pairing,
  connecting, configuring, ready, disconnecting, failed, stream_idle, stream_open, unknown_bond,
  bonded, already_bonded, pair, removing, touch, default_model, is_scanning, is_at_rest, is_peer,
  is_waiting_for_scan_stop, is_removing_bond, is_pairing, can_play_tone,
}

pub record Controller (P : Platform) (D : Type 0) : Type 0 where
  pub model : Model D
  pub platform : P.State
  pub force_pair : Bool

module _ (P : Platform) (D : Type 0) (no_details : D) where
  abbrev pub Outcome : Type 0
  Outcome = Result (P.Error) (Unit {0}) × Controller P D

  unfoldable pub new : P.State → Controller P D
  new p = record { model = default_model no_details; platform = p; force_pair = false }

  -- `self.model.connection = ..; self.model.touch()`.
  unfoldable pub set_connection : ConnectionState → Controller P D → Controller P D
  set_connection s c = record c { model = touch (record c.model { connection = s }) }

  unfoldable pub set_scan : ScanState → Controller P D → Controller P D
  set_scan s c = record c { model = touch (record c.model { scan = s }) }

  -- `match self.platform.call() { Ok(()) => .., Err(error) => { ..; Err(error) } }`: what each arm does
  -- to the controller.
  unfoldable pub on_answer :
      (Controller P D → Controller P D)
      → (Controller P D → Controller P D)
      → Controller P D
      → Result (P.Error) (Unit {0}) × P.State
      → Outcome
  on_answer f g c (ok u, p) = (ok tt, f (record c { platform = p }))
  on_answer f g c (err e, p) = (err e, g (record c { platform = p }))

  -- `let Some(x) = option else { return Ok(()) }; ..`.
  unfoldable pub on_some :
      {A : Type 0} → Option A → (A → Controller P D → Outcome) → Controller P D → Outcome
  on_some none f c = (ok tt, c)
  on_some (some x) f c = f x c

  unfoldable pub start_scan : Controller P D → Outcome
  start_scan c =
      let scanned = (Discovery.begin_scan c.model.devices).1 in
      let begun : Controller P D = record c {
        model = touch (record c.model { devices = scanned; scan = starting; last_error = pos 0 });
      } in
      on_answer (set_scan scanning) (set_scan scan_failed) begun (P.start_discovery 20 c.platform)

  unfoldable pub stop_scan : Controller P D → Outcome
  stop_scan c =
      if not (is_scanning c.model.scan)
      then (ok tt, c)
      else on_answer (λ x. x) (set_scan scanning) (set_scan stopping c)
          (P.stop_discovery c.platform)

  unfoldable pub discovery_result : DiscoveredDevice → Controller P D → Controller P D
  discovery_result d c = record c {
    model = touch (record c.model { devices = (Discovery.upsert d c.model.devices).1 });
  }

  unfoldable pub begin_pair : Address → Controller P D → Outcome
  begin_pair a c =
      on_answer (λ x. x) (set_connection failed) (set_connection pairing c)
        (P.create_bond a c.platform)

  unfoldable pub begin_connect : Address → Controller P D → Outcome
  begin_connect a c =
      on_answer (λ x. x) (set_connection failed) (set_connection connecting c)
        (P.connect_avdtp a c.platform)

  -- The answers of `prepare_bond`, once the connection is `CheckingBond`.
  unfoldable pub follow_preparation :
      Address → Result (P.Error) BondPreparation → Controller P D → Outcome
  follow_preparation a (ok already_bonded) c = begin_connect a c
  follow_preparation a (ok removing) c = (ok tt, set_connection removing_bond c)
  follow_preparation a (ok pair) c = begin_pair a c
  follow_preparation a (err e) c = (err e, set_connection failed c)

  unfoldable pub check_bond : Peer → Controller P D → Outcome
  check_bond peer c =
      let asked = P.prepare_bond peer.address c.force_pair c.platform in
      follow_preparation peer.address asked.0
        (record (set_connection checking_bond c) { platform = asked.1 })

  unfoldable pub begin_bond_or_connect : Controller P D → Outcome
  begin_bond_or_connect c = on_some c.model.selected check_bond c

  unfoldable pub touched : Outcome → Outcome
  touched (ok u, c) = (ok u, record c { model = touch c.model })
  touched (err e, c) = (err e, c)

  unfoldable pub discovery_stopped : Controller P D → Outcome
  discovery_stopped c =
      let rested : Controller P D = record c { model = record c.model { scan = idle } } in
      touched (
        if is_waiting_for_scan_stop c.model.connection
        then begin_bond_or_connect rested
        else (ok tt, rested))

  unfoldable pub select_peer : Peer → Bool → Controller P D → Outcome
  select_peer peer force c =
      let chosen : Controller P D = record c {
        force_pair = force;
        model = record c.model { selected = some peer; last_error = pos 0 };
      } in
      let waiting : Controller P D = record chosen {
        model = touch (record chosen.model { connection = waiting_for_scan_stop; scan = stopping });
      } in
      if is_some c.model.connected || not (is_at_rest c.model.connection)
      then (ok tt, c)
      else if is_scanning c.model.scan
      then on_answer (λ x. x)
          (λ x. record x {
            model = touch (record x.model { scan = scanning; connection = failed });
          })
          waiting (P.stop_discovery c.platform)
      else begin_bond_or_connect chosen

  unfoldable pub peer_of : DiscoveredDevice → Peer
  peer_of d = record {
    address = d.address;
    name = d.name;
    rssi = d.rssi;
    class_of_device = d.class_of_device;
    bond = unknown_bond;
  }

  unfoldable pub select : ℕ → Controller P D → Outcome
  select i c = on_some (Discovery.get c.model.devices i) (λ d. select_peer (peer_of d) false) c

  unfoldable pub reconnect : Controller P D → Outcome
  reconnect c = on_some c.model.remembered (λ peer. select_peer peer false) c

  unfoldable pub or_else : Option Peer → Option Peer → Option Peer
  or_else none r = r
  or_else (some p) r = some p

  unfoldable pub pair_again : Controller P D → Outcome
  pair_again c =
      on_some (or_else c.model.selected c.model.remembered) (λ peer. select_peer peer true) c

  unfoldable pub bond_removed : Address → Bool → Controller P D → Outcome
  bond_removed a success c =
      if not (is_peer c.model.selected a) || not (is_removing_bond c.model.connection)
      then (ok tt, c)
      else if not success
      then (ok tt, set_connection failed c)
      else begin_pair a c

  -- `peer.bond = BondState::Bonded`.
  unfoldable pub as_bonded : Option Peer → Option Peer
  as_bonded none = none
  as_bonded (some p) = some (record p { bond = bonded })

  unfoldable pub bond_complete : Address → Bool → Controller P D → Outcome
  bond_complete a success c =
      let peer = as_bonded c.model.selected in
      if not (is_peer c.model.selected a) || not (is_pairing c.model.connection)
      then (ok tt, c)
      else if not success
      then (ok tt, set_connection failed c)
      else begin_connect a (record c {
        model = record c.model { selected = peer; remembered = or_else peer c.model.remembered };
      })

  unfoldable pub connected : Address → Controller P D → Controller P D
  connected a c =
      let peer = as_bonded c.model.selected in
      if not (is_peer c.model.selected a)
      then c
      else set_connection configuring (record c {
        model = record c.model { connected = peer; remembered = or_else peer c.model.remembered };
      })

  unfoldable pub stream_ready : Controller P D → Controller P D
  stream_ready c = record c {
    model = touch (record c.model { connection = ready; stream = stream_open });
  }

  unfoldable pub disconnect : Controller P D → Outcome
  disconnect c =
      on_some c.model.connected
        (λ peer x.
          on_answer (λ y. y) (set_connection ready) (set_connection disconnecting x)
            (P.disconnect_avdtp peer.address x.platform))
        c

  unfoldable pub disconnected_event : Address → Controller P D → Controller P D
  disconnected_event a c = if not (is_peer c.model.connected a) then c else record c {
    model = touch (record c.model {
      connected = none;
      selected = none;
      connection = disconnected;
      stream = stream_idle;
      details = no_details;
    });
  }

  unfoldable pub play_test_tone : Controller P D → Outcome
  play_test_tone c =
      if not (can_play_tone c.model.connection c.model.stream)
      then (ok tt, c)
      else on_answer (λ x. x) (λ x. x) c (P.play_test_tone c.platform)
