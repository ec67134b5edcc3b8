-- ===== src/Avrcp/Soundness/Runs.antt =====
-- Any sequence of the controller's methods, each with the output buffer of its caller.
use canopus_module_bluetooth.Base.{ℕ, ◌<◌, List, [], ◌∷◌, All}
use canopus_module_bluetooth.Avrcp.{
  Controller, Port, new, set_absolute_volume, connected, connected_for_volume_sync,
  target_volume_changed, register_volume_notification, disconnect,
}
use canopus_module_bluetooth.Avrcp.Receive.{receive}
use canopus_module_bluetooth.Avrcp.Soundness.{
  IsSound, new-IsSound, set_absolute_volume-IsSound, register-IsSound, connected-IsSound,
  connected_for_volume_sync-IsSound, target_volume_changed-IsSound,
}
use canopus_module_bluetooth.Avrcp.Soundness.Packets.{receive-IsSound}

pub data Call : Type 0 where
  connects : ℕ → List ℕ → Call
  connects_for_sync : ℕ → Call
  changes_volume : ℕ → List ℕ → Call
  sets_volume : ℕ → List ℕ → Call
  registers : List ℕ → Call
  receives : List ℕ → List ℕ → Call
  disconnects : Call

abbrev with_out : Controller → List ℕ → Port
with_out c out = record { controller = c; out = out }

unfoldable pub step : Call → Controller → Controller
step (connects volume out) c = (connected volume (with_out c out)).1.controller
step (connects_for_sync volume) c = (connected_for_volume_sync volume (with_out c [])).1.controller
step (changes_volume volume out) c = (target_volume_changed volume (with_out c out)).1.controller
step (sets_volume volume out) c = (set_absolute_volume volume (with_out c out)).1.controller
step (registers out) c = (register_volume_notification (with_out c out)).1.controller
step (receives packet out) c = (receive packet (with_out c out)).1.controller
step disconnects c = disconnect c

unfoldable pub run : Controller → List Call → Controller
run c [] = c
run c (call ∷ calls) = run (step call c) calls

-- What a received packet consists of.
unfoldable pub HasBytes : Call → Type 0
HasBytes (receives packet out) = All (λ b. b < 256) packet
HasBytes _ = Unit

step-IsSound : (call : Call) (c : Controller) → HasBytes call → IsSound c → IsSound (step call c)
unfolding step HasBytes disconnect
step-IsSound (connects volume out) c h v = connected-IsSound volume (with_out c out) v
step-IsSound (connects_for_sync volume) c h v =
    connected_for_volume_sync-IsSound volume (with_out c []) v
step-IsSound (changes_volume volume out) c h v =
    target_volume_changed-IsSound volume (with_out c out) v
step-IsSound (sets_volume volume out) c h v = set_absolute_volume-IsSound volume (with_out c out) v
step-IsSound (registers out) c h v = register-IsSound (with_out c out) v
step-IsSound (receives packet out) c h v = receive-IsSound packet (with_out c out) h v
step-IsSound disconnects c h v = new-IsSound

run-IsSound :
    (c : Controller) (calls : List Call) → All HasBytes calls → IsSound c → IsSound (run c calls)
unfolding run
run-IsSound c [] h v = v
run-IsSound c (call ∷ calls) h v = run-IsSound (step call c) calls h.1 (step-IsSound call c h.0 v)

-- After any sequence of calls from a new controller, with any output buffers and any received
-- packets of bytes, each transaction is none or a label below 16, the two live ones differ, the
-- volume is at most 127, only a live notification counts as registered, and the state is the one
-- that the transactions say, or the controller is disconnected with none live.
pub remote-IsSound : (calls : List Call) → All HasBytes calls → IsSound (run new calls)
remote-IsSound calls h = run-IsSound new calls h new-IsSound
