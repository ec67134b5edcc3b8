-- ===== src/Manager/Soundness.antt =====
-- Every sequence of the controller's methods, on every platform.
use canopus_module_bluetooth.Base.{
  ℕ, ◌≡◌, refl, Bool, true, false, not, ◌||◌, Option, none, some, List, [], ◌∷◌, is_some,
  Bool-cases, Option-cases, inl, inr, arith, if-elim,
}
use canopus_module_bluetooth.Base.Int.{ℤ, pos}
use canopus_module_bluetooth.Discovery.{Address, DiscoveredDevice, get}
use canopus_module_bluetooth.Discovery.Table.{empty_table-IsTable}
use canopus_module_bluetooth.Manager.{
  Platform, Model, Peer, ScanState, ConnectionState, scanning, stopping, disconnected,
  waiting_for_scan_stop, configuring, ready, disconnecting, failed, stream_idle, stream_open, touch,
  default_model, is_scanning, is_at_rest, is_peer, is_removing_bond, is_pairing, can_play_tone,
}
use canopus_module_bluetooth.Manager.Controller.{
  Controller, Outcome, new, set_connection, on_answer, start_scan, stop_scan, discovery_result,
  peer_of, discovery_stopped, select_peer, select, reconnect, or_else, pair_again, bond_removed,
  as_bonded, bond_complete, connected, stream_ready, disconnect, disconnected_event, play_test_tone,
}
use canopus_module_bluetooth.Manager.Invariant.{
  Linked, IsSound, touch-IsSound, Linked-as_bonded, as_bonded-Linked, set_connection-IsSound,
  on_answer-IsSound, begin_pair-IsSound, begin_connect-IsSound, on_some-IsSound, some-is_some,
  begin_bond_or_connect-IsSound, start_scan-IsSound, stop_scan-IsSound, discovery_result-IsSound,
  discovery_stopped-IsSound,
}

-- A method of the controller with its arguments.
pub data Call : Type 0 where
  on_start_scan : Call
  on_stop_scan : Call
  on_discovery_result : DiscoveredDevice → Call
  on_discovery_stopped : Call
  on_select : ℕ → Call
  on_reconnect : Call
  on_pair_again : Call
  on_bond_removed : Address → Bool → Call
  on_bond_complete : Address → Bool → Call
  on_connected : Address → Call
  on_stream_ready : Call
  on_disconnect : Call
  on_disconnected : Address → Call
  on_play_test_tone : Call

unfoldable pub step :
    (P : Platform) (D : Type 0) (no_details : D) → Call → Controller P D → Controller P D
step P D n on_start_scan c = (start_scan P D n c).1
step P D n on_stop_scan c = (stop_scan P D n c).1
step P D n (on_discovery_result d) c = discovery_result P D n d c
step P D n on_discovery_stopped c = (discovery_stopped P D n c).1
step P D n (on_select i) c = (select P D n i c).1
step P D n on_reconnect c = (reconnect P D n c).1
step P D n on_pair_again c = (pair_again P D n c).1
step P D n (on_bond_removed a b) c = (bond_removed P D n a b c).1
step P D n (on_bond_complete a b) c = (bond_complete P D n a b c).1
step P D n (on_connected a) c = connected P D n a c
step P D n on_stream_ready c = stream_ready P D n c
step P D n on_disconnect c = (disconnect P D n c).1
step P D n (on_disconnected a) c = disconnected_event P D n a c
step P D n on_play_test_tone c = (play_test_tone P D n c).1

unfoldable pub run :
    (P : Platform) (D : Type 0) (no_details : D) → List Call → Controller P D → Controller P D
run P D n [] c = c
run P D n (k ∷ ks) c = run P D n ks (step P D n k c)

module _ (P : Platform) (D : Type 0) (n : D) where
  -- The model with a new selected peer, when no peer is connected.
  chosen_model-IsSound :
      (m : Model D) (peer : Peer) (s : ConnectionState) (k : ScanState) (z : ℤ)
      → IsSound m
      → m.connected ≡ none
      → IsSound (record m { selected = some peer; connection = s; scan = k; last_error = z })
  chosen_model-IsSound m peer s k z v e = record {
    counted = v.counted;
    table = v.table;
    linked = rw e tt;
    chosen = λ _. refl;
  }

  -- The same, after `stop_discovery` was refused.
  dropped_model-IsSound :
      (m : Model D) → IsSound m → IsSound (record m { scan = scanning; connection = failed })
  dropped_model-IsSound m v = record {
    counted = v.counted;
    table = v.table;
    linked = v.linked;
    chosen = λ k. cc;
  }

  abbrev Sound : Outcome P D n → Type 0
  Sound r = IsSound r.1.model

  select_peer-IsSound :
      (peer : Peer) (force : Bool) (c : Controller P D)
      → IsSound c.model
      → IsSound (select_peer P D n peer force c).1.model
  unfolding select_peer
  select_peer-IsSound peer force c v = elim (Option-cases c.model.connected) [
    | inr (p, e) ↦
        if-elim Sound (is_some c.model.connected || not (is_at_rest c.model.connection)) (λ _. v)
          (λ g. (let w = some-is_some P D n c.model.connected p e in ground arith))
    | inl e ↦
        if-elim Sound (is_some c.model.connected || not (is_at_rest c.model.connection)) (λ _. v)
          (λ _.
            (let m = c.model in
              let waiting = record m {
                selected = some peer;
                connection = waiting_for_scan_stop;
                scan = stopping;
                last_error = pos 0;
              } in
              let w =
                touch-IsSound waiting
                  (chosen_model-IsSound m peer waiting_for_scan_stop stopping (pos 0) v e) in
              if-elim Sound (is_scanning m.scan)
                (λ _.
                  on_answer-IsSound P D n (λ x. x)
                    (λ x. record x {
                      model = touch (record x.model { scan = scanning; connection = failed });
                    })
                    (record c { force_pair = force; model = touch waiting })
                    (P.stop_discovery c.platform) (λ p. w)
                    (λ p.
                      touch-IsSound
                        (record (touch waiting) { scan = scanning; connection = failed })
                        (dropped_model-IsSound (touch waiting) w)))
                (λ _.
                  begin_bond_or_connect-IsSound P D n
                    (record c {
                      force_pair = force;
                      model = record m { selected = some peer; last_error = pos 0 };
                    })
                    (chosen_model-IsSound m peer m.connection m.scan (pos 0) v e))))
  ]

  select-IsSound :
      (i : ℕ) (c : Controller P D) → IsSound c.model → IsSound (select P D n i c).1.model
  unfolding select
  select-IsSound i c v =
      on_some-IsSound P D n (get c.model.devices i) (λ d. select_peer P D n (peer_of P D n d) false)
        c v (λ d _. select_peer-IsSound (peer_of P D n d) false c v)

  reconnect-IsSound : (c : Controller P D) → IsSound c.model → IsSound (reconnect P D n c).1.model
  unfolding reconnect
  reconnect-IsSound c v =
      on_some-IsSound P D n c.model.remembered (λ p. select_peer P D n p false) c v
        (λ p _. select_peer-IsSound p false c v)

  pair_again-IsSound : (c : Controller P D) → IsSound c.model → IsSound (pair_again P D n c).1.model
  unfolding pair_again
  pair_again-IsSound c v =
      on_some-IsSound P D n (or_else P D n c.model.selected c.model.remembered)
        (λ p. select_peer P D n p true) c v (λ p _. select_peer-IsSound p true c v)

  peer_is_some : (o : Option Peer) (a : Address) → is_peer o a ≡ true → is_some o ≡ true
  unfolding is_peer
  peer_is_some none a h = h
  peer_is_some (some p) a h = refl

  bond_removed-IsSound :
      (a : Address) (b : Bool) (c : Controller P D)
      → IsSound c.model
      → IsSound (bond_removed P D n a b c).1.model
  unfolding bond_removed
  bond_removed-IsSound a b c v = elim (Bool-cases (is_peer c.model.selected a)) [
    | inr e ↦ rw e v
    | inl e ↦
        if-elim Sound
          (not (is_peer c.model.selected a) || not (is_removing_bond c.model.connection)) (λ _. v)
          (λ _.
            if-elim Sound (not b) (λ _. set_connection-IsSound P D n failed c v (λ k. cc))
              (λ _. begin_pair-IsSound P D n a c v (peer_is_some c.model.selected a e)))
  ]

  as_bonded-is_some : (o : Option Peer) → is_some o ≡ true → is_some (as_bonded P D n o) ≡ true
  unfolding as_bonded
  as_bonded-is_some none h = h
  as_bonded-is_some (some p) h = refl

  bonded_model-IsSound :
      (m : Model D) (r : Option Peer)
      → IsSound m
      → IsSound (record m { selected = as_bonded P D n m.selected; remembered = r })
  bonded_model-IsSound m r v = record {
    counted = v.counted;
    table = v.table;
    linked = Linked-as_bonded P D n m.connected m.selected v.linked;
    chosen = λ h. as_bonded-is_some m.selected (v.chosen h);
  }

  bond_complete-IsSound :
      (a : Address) (b : Bool) (c : Controller P D)
      → IsSound c.model
      → IsSound (bond_complete P D n a b c).1.model
  unfolding bond_complete
  bond_complete-IsSound a b c v = elim (Bool-cases (is_peer c.model.selected a)) [
    | inr e ↦ rw e v
    | inl e ↦
        if-elim Sound (not (is_peer c.model.selected a) || not (is_pairing c.model.connection))
          (λ _. v)
          (λ _.
            if-elim Sound (not b) (λ _. set_connection-IsSound P D n failed c v (λ k. cc))
              (λ _.
                (let peer = as_bonded P D n c.model.selected in
                  let r = or_else P D n peer c.model.remembered in
                  begin_connect-IsSound P D n a
                    (record c { model = record c.model { selected = peer; remembered = r } })
                    (bonded_model-IsSound c.model r v)
                    (as_bonded-is_some c.model.selected (peer_is_some c.model.selected a e)))))
  ]

  linked_model-IsSound :
      (m : Model D) (r : Option Peer)
      → IsSound m
      → IsSound (record m { connected = as_bonded P D n m.selected; remembered = r })
  linked_model-IsSound m r v = record {
    counted = v.counted;
    table = v.table;
    linked = as_bonded-Linked P D n m.selected;
    chosen = v.chosen;
  }

  connected-IsSound :
      (a : Address) (c : Controller P D) → IsSound c.model → IsSound (connected P D n a c).model
  unfolding connected
  connected-IsSound a c v = elim (Bool-cases (is_peer c.model.selected a)) [
    | inr e ↦
        if-elim (λ (x : Controller P D). IsSound x.model) (not (is_peer c.model.selected a))
          (λ _. v) (λ g. ground arith)
    | inl e ↦
        if-elim (λ (x : Controller P D). IsSound x.model) (not (is_peer c.model.selected a))
          (λ _. v)
          (λ _.
            (let peer = as_bonded P D n c.model.selected in
              let r = or_else P D n peer c.model.remembered in
              set_connection-IsSound P D n configuring
                (record c { model = record c.model { connected = peer; remembered = r } })
                (linked_model-IsSound c.model r v) (λ _. peer_is_some c.model.selected a e)))
  ]

  stream_ready-IsSound :
      (c : Controller P D) → IsSound c.model → IsSound (stream_ready P D n c).model
  unfolding stream_ready
  stream_ready-IsSound c v =
      touch-IsSound (record c.model { connection = ready; stream = stream_open })
        record { counted = v.counted; table = v.table; linked = v.linked; chosen = λ k. cc }

  Linked_is_some : (l s : Option Peer) (p : Peer) → Linked l s → l ≡ some p → is_some s ≡ true
  Linked_is_some l s p h e = peer_is_some s p.address (rw e at h).0

  disconnect-IsSound : (c : Controller P D) → IsSound c.model → IsSound (disconnect P D n c).1.model
  unfolding disconnect
  disconnect-IsSound c v =
      on_some-IsSound P D n c.model.connected
        (λ peer x.
          on_answer P D n (λ y. y) (set_connection P D n ready)
            (set_connection P D n disconnecting x) (P.disconnect_avdtp peer.address x.platform))
        c v
        (λ peer e.
          (let w =
              set_connection-IsSound P D n disconnecting c v
                (λ _. Linked_is_some c.model.connected c.model.selected peer v.linked e) in
            on_answer-IsSound P D n (λ y. y) (set_connection P D n ready)
              (set_connection P D n disconnecting c) (P.disconnect_avdtp peer.address c.platform)
              (λ p. w)
              (λ p.
                set_connection-IsSound P D n ready
                  (record (set_connection P D n disconnecting c) { platform = p }) w (λ k. cc))))

  disconnected_event-IsSound :
      (a : Address) (c : Controller P D)
      → IsSound c.model
      → IsSound (disconnected_event P D n a c).model
  unfolding disconnected_event
  disconnected_event-IsSound a c v =
      if-elim (λ (x : Controller P D). IsSound x.model) (not (is_peer c.model.connected a)) (λ _. v)
        (λ _.
          (let gone = record c.model {
            connected = none;
            selected = none;
            connection = disconnected;
            stream = stream_idle;
            details = n;
          } in
            touch-IsSound gone
              record { counted = v.counted; table = v.table; linked = tt; chosen = λ k. cc }))

  play_test_tone-IsSound :
      (c : Controller P D) → IsSound c.model → IsSound (play_test_tone P D n c).1.model
  unfolding play_test_tone
  play_test_tone-IsSound c v =
      if-elim Sound (not (can_play_tone c.model.connection c.model.stream)) (λ _. v)
        (λ _.
          on_answer-IsSound P D n (λ x. x) (λ x. x) c (P.play_test_tone c.platform) (λ p. v)
            (λ p. v))

  step-IsSound : (k : Call) (c : Controller P D) → IsSound c.model → IsSound (step P D n k c).model
  unfolding step
  step-IsSound on_start_scan c v = start_scan-IsSound P D n c v
  step-IsSound on_stop_scan c v = stop_scan-IsSound P D n c v
  step-IsSound (on_discovery_result d) c v = discovery_result-IsSound P D n d c v
  step-IsSound on_discovery_stopped c v = discovery_stopped-IsSound P D n c v
  step-IsSound (on_select i) c v = select-IsSound i c v
  step-IsSound on_reconnect c v = reconnect-IsSound c v
  step-IsSound on_pair_again c v = pair_again-IsSound c v
  step-IsSound (on_bond_removed a b) c v = bond_removed-IsSound a b c v
  step-IsSound (on_bond_complete a b) c v = bond_complete-IsSound a b c v
  step-IsSound (on_connected a) c v = connected-IsSound a c v
  step-IsSound on_stream_ready c v = stream_ready-IsSound c v
  step-IsSound on_disconnect c v = disconnect-IsSound c v
  step-IsSound (on_disconnected a) c v = disconnected_event-IsSound a c v
  step-IsSound on_play_test_tone c v = play_test_tone-IsSound c v

  run-IsSound :
      (ks : List Call) (c : Controller P D) → IsSound c.model → IsSound (run P D n ks c).model
  unfolding run
  run-IsSound [] c v = v
  run-IsSound (k ∷ ks) c v = run-IsSound ks (step P D n k c) (step-IsSound k c v)

  -- On every platform, after any sequence of the controller's methods from a new controller: the
  -- generation is between 1 and 2^32 - 1; the table of devices fits in its array, is ordered and
  -- has distinct, nonzero addresses; a connected peer is bonded and has the address of the selected
  -- one; and in every state but `Disconnected`, `Ready` and `Failed` a peer is selected.
  pub controller-IsSound :
      (ks : List Call) (p : P.State) → IsSound (run P D n ks (new P D n p)).model
  unfolding new default_model
  controller-IsSound ks p = run-IsSound ks (new P D n p) record {
    counted = (omega arith, omega arith);
    table = empty_table-IsTable;
    linked = tt;
    chosen = λ h. cc;
  }
