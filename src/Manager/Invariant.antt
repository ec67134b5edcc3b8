-- ===== src/Manager/Invariant.antt =====
-- The invariant of the model, and the calls of the platform and the methods for scans.
use canopus_module_bluetooth.Base.{
  ℕ, ◌≤◌, ◌<◌, ◌^◌, ◌≡◌, refl, max, Bool, true, false, Option, none, some, Result, ok, err, is_some,
  Bool-cases, inl, inr, arith, bytes_eq_refl,
}
use canopus_module_bluetooth.Base.Int.{pos}
use canopus_module_bluetooth.Base.Words.{wrapping_add}
use canopus_module_bluetooth.Discovery.{Address, DiscoveredDevice, begin_scan, upsert}
use canopus_module_bluetooth.Discovery.Table.{IsTable, upsert-IsTable, begin_scan-IsTable}
use canopus_module_bluetooth.Manager.{
  Platform, Model, Peer, ScanState, ConnectionState, BondPreparation, idle, starting, scanning,
  stopping, scan_failed, disconnected, checking_bond, removing_bond, pairing, connecting, ready,
  failed, bonded, already_bonded, pair, removing, touch, is_scanning, is_peer,
  is_waiting_for_scan_stop,
}
use canopus_module_bluetooth.Manager.Controller.{
  Controller, Outcome, set_connection, set_scan, on_answer, start_scan, stop_scan, discovery_result,
  begin_pair, begin_connect, follow_preparation, on_some, check_bond, begin_bond_or_connect,
  touched, discovery_stopped, as_bonded,
}

-- The states of a connection attempt or of its end: all but `Disconnected`, `Ready` and `Failed`.
abbrev pub is_busy : ConnectionState → Bool
is_busy disconnected = false
is_busy ready = false
is_busy failed = false
is_busy _ = true

-- A connected peer is bonded, and its address is the selected one.
abbrev pub Linked : Option Peer → Option Peer → Type 0
Linked none s = Unit
Linked (some p) s = (is_peer s p.address ≡ true) × (p.bond ≡ bonded)

pub record IsSound {D : Type 0} (m : Model D) : Type 0 where
  pub counted : (1 ≤ m.generation) × (m.generation < 2 ^ 32)
  pub table : IsTable m.devices
  pub linked : Linked m.connected m.selected
  pub chosen : is_busy m.connection ≡ true → is_some m.selected ≡ true

touch-counted : (n : ℕ) → (1 ≤ max (wrapping_add n 1) 1) × (max (wrapping_add n 1) 1 < 2 ^ 32)
touch-counted n = (omega arith, omega (arith))

pub touch-IsSound : {D : Type 0} (m : Model D) → IsSound m → IsSound (touch m)
unfolding touch
touch-IsSound m v = record {
  counted = touch-counted m.generation;
  table = v.table;
  linked = v.linked;
  chosen = v.chosen;
}

pub Linked-as_bonded :
    (P : Platform) (D : Type 0) (n : D) (l s : Option Peer)
    → Linked l s
    → Linked l (as_bonded P D n s)
unfolding as_bonded is_peer
Linked-as_bonded P D n none s h = tt
Linked-as_bonded P D n (some p) none h = h
Linked-as_bonded P D n (some p) (some q) h = h

pub as_bonded-Linked :
    (P : Platform) (D : Type 0) (n : D) (s : Option Peer) → Linked (as_bonded P D n s) s
unfolding as_bonded is_peer
as_bonded-Linked P D n none = tt
as_bonded-Linked P D n (some p) = (bytes_eq_refl p.address, refl)

module _ (P : Platform) (D : Type 0) (n : D) where
  pub set_connection-IsSound :
      (s : ConnectionState) (c : Controller P D)
      → IsSound c.model
      → (is_busy s ≡ true → is_some c.model.selected ≡ true)
      → IsSound (set_connection P D n s c).model
  unfolding set_connection
  set_connection-IsSound s c v h =
      touch-IsSound (record c.model { connection = s })
        record { counted = v.counted; table = v.table; linked = v.linked; chosen = h }

  pub set_scan-IsSound :
      (s : ScanState) (c : Controller P D) → IsSound c.model → IsSound (set_scan P D n s c).model
  unfolding set_scan
  set_scan-IsSound s c v =
      touch-IsSound (record c.model { scan = s })
        record { counted = v.counted; table = v.table; linked = v.linked; chosen = v.chosen }

  pub on_answer-IsSound :
      (f g : Controller P D → Controller P D) (c : Controller P D)
      → (r : Result (P.Error) (Unit {0}) × P.State)
      → ((p : P.State) → IsSound (f (record c { platform = p })).model)
      → ((p : P.State) → IsSound (g (record c { platform = p })).model)
      → IsSound (on_answer P D n f g c r).1.model
  unfolding on_answer
  on_answer-IsSound f g c (ok u, p) h k = h p
  on_answer-IsSound f g c (err e, p) h k = k p

  -- The calls of the platform that set a state of the connection first and `Failed` on an error.
  pub attempt-IsSound :
      (s : ConnectionState) (c : Controller P D) (r : Result (P.Error) (Unit {0}) × P.State)
      → IsSound c.model
      → is_some c.model.selected ≡ true
      → IsSound
          (on_answer P D n
            (λ x. x)
            (set_connection P D n failed)
            (set_connection P D n s c)
            r).1.model
  attempt-IsSound s c r v h =
      on_answer-IsSound (λ x. x) (set_connection P D n failed) (set_connection P D n s c) r
        (λ p. set_connection-IsSound s c v (λ _. h))
        (λ p.
          set_connection-IsSound failed (record (set_connection P D n s c) { platform = p })
            (set_connection-IsSound s c v (λ _. h)) (λ k. cc))

  pub begin_pair-IsSound :
      (a : Address) (c : Controller P D)
      → IsSound c.model
      → is_some c.model.selected ≡ true
      → IsSound (begin_pair P D n a c).1.model
  unfolding begin_pair
  begin_pair-IsSound a c v h = attempt-IsSound pairing c (P.create_bond a c.platform) v h

  pub begin_connect-IsSound :
      (a : Address) (c : Controller P D)
      → IsSound c.model
      → is_some c.model.selected ≡ true
      → IsSound (begin_connect P D n a c).1.model
  unfolding begin_connect
  begin_connect-IsSound a c v h = attempt-IsSound connecting c (P.connect_avdtp a c.platform) v h

  follow_preparation-IsSound :
      (a : Address) (r : Result (P.Error) BondPreparation) (c : Controller P D)
      → IsSound c.model
      → is_some c.model.selected ≡ true
      → IsSound (follow_preparation P D n a r c).1.model
  unfolding follow_preparation
  follow_preparation-IsSound a (ok already_bonded) c v h = begin_connect-IsSound a c v h
  follow_preparation-IsSound a (ok removing) c v h =
      set_connection-IsSound removing_bond c v (λ _. h)
  follow_preparation-IsSound a (ok pair) c v h = begin_pair-IsSound a c v h
  follow_preparation-IsSound a (err e) c v h = set_connection-IsSound failed c v (λ k. cc)

  set_connection-selected :
      (s : ConnectionState) (c : Controller P D)
      → (set_connection P D n s c).model.selected ≡ c.model.selected
  unfolding set_connection touch
  set_connection-selected s c = refl

  pub on_some-IsSound :
      {A : Type 0} (o : Option A) (f : A → Controller P D → Outcome P D n) (c : Controller P D)
      → IsSound c.model
      → ((x : A) → o ≡ some x → IsSound (f x c).1.model)
      → IsSound (on_some P D n o f c).1.model
  unfolding on_some
  on_some-IsSound none f c v h = v
  on_some-IsSound (some x) f c v h = h x refl

  pub some-is_some : {A : Type 0} (o : Option A) (x : A) → o ≡ some x → is_some o ≡ true
  some-is_some o x e = rw e refl

  check_bond-IsSound :
      (peer : Peer) (c : Controller P D)
      → IsSound c.model
      → is_some c.model.selected ≡ true
      → IsSound (check_bond P D n peer c).1.model
  unfolding check_bond
  check_bond-IsSound peer c v h =
      let asked = P.prepare_bond peer.address c.force_pair c.platform in
      follow_preparation-IsSound peer.address asked.0
        (record (set_connection P D n checking_bond c) { platform = asked.1 })
        (set_connection-IsSound checking_bond c v (λ _. h))
        (rw (set_connection-selected checking_bond c) h)

  pub begin_bond_or_connect-IsSound :
      (c : Controller P D) → IsSound c.model → IsSound (begin_bond_or_connect P D n c).1.model
  unfolding begin_bond_or_connect
  begin_bond_or_connect-IsSound c v =
      on_some-IsSound c.model.selected (check_bond P D n) c v
        (λ peer e. check_bond-IsSound peer c v (some-is_some c.model.selected peer e))

  pub start_scan-IsSound :
      (c : Controller P D) → IsSound c.model → IsSound (start_scan P D n c).1.model
  unfolding start_scan
  start_scan-IsSound c v =
      on_answer-IsSound (set_scan P D n scanning) (set_scan P D n scan_failed)
        (record c { model = touch begun }) (P.start_discovery 20 c.platform)
        (λ p. set_scan-IsSound scanning (record c { model = touch begun; platform = p }) w)
        (λ p. set_scan-IsSound scan_failed (record c { model = touch begun; platform = p }) w)
    where
      begun : Model D
      begun = record c.model {
        devices = (begin_scan c.model.devices).1;
        scan = starting;
        last_error = pos 0;
      }

      w : IsSound (touch begun)
      w = touch-IsSound begun record {
        counted = v.counted;
        table = begin_scan-IsTable c.model.devices;
        linked = v.linked;
        chosen = v.chosen;
      }

  pub stop_scan-IsSound :
      (c : Controller P D) → IsSound c.model → IsSound (stop_scan P D n c).1.model
  unfolding stop_scan
  stop_scan-IsSound c v = elim (Bool-cases (is_scanning c.model.scan)) [
    | inl e ↦ rw e (
        on_answer-IsSound (λ x. x) (set_scan P D n scanning) (set_scan P D n stopping c)
          (P.stop_discovery c.platform) (λ p. set_scan-IsSound stopping c v)
          (λ p.
            set_scan-IsSound scanning (record (set_scan P D n stopping c) { platform = p })
              (set_scan-IsSound stopping c v)))
    | inr e ↦ rw e v
  ]

  pub discovery_result-IsSound :
      (d : DiscoveredDevice) (c : Controller P D)
      → IsSound c.model
      → IsSound (discovery_result P D n d c).model
  unfolding discovery_result
  discovery_result-IsSound d c v =
      touch-IsSound (record c.model { devices = (upsert d c.model.devices).1 })
        record {
          counted = v.counted;
          table = upsert-IsTable d c.model.devices v.table;
          linked = v.linked;
          chosen = v.chosen;
        }

  touched-IsSound : (r : Outcome P D n) → IsSound r.1.model → IsSound (touched P D n r).1.model
  unfolding touched
  touched-IsSound (ok u, c) v = touch-IsSound c.model v
  touched-IsSound (err e, c) v = v

  pub discovery_stopped-IsSound :
      (c : Controller P D) → IsSound c.model → IsSound (discovery_stopped P D n c).1.model
  unfolding discovery_stopped
  discovery_stopped-IsSound c v =
      let rested : Controller P D = record c { model = record c.model { scan = idle } } in
      let w : IsSound rested.model = record {
        counted = v.counted;
        table = v.table;
        linked = v.linked;
        chosen = v.chosen;
      } in
      elim (Bool-cases (is_waiting_for_scan_stop c.model.connection)) [
        | inl e ↦ rw e (
            touched-IsSound (begin_bond_or_connect P D n rested)
              (begin_bond_or_connect-IsSound rested w))
        | inr e ↦ rw e (touched-IsSound (ok tt, rested) w)
      ]
