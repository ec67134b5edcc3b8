-- ===== src/Avdtp/Soundness/Runs.antt =====
-- Every sequence of calls and packets.
use canopus_module_bluetooth.Base.{ℕ, Bool, List, [], ◌∷◌, arith}
use canopus_module_bluetooth.Avdtp.{Source, Port, new}
use canopus_module_bluetooth.Avdtp.Receive.{receive}
use canopus_module_bluetooth.Avdtp.Local.{connect, start, suspend}
use canopus_module_bluetooth.Avdtp.Wire.{command, response}
use canopus_module_bluetooth.Avdtp.Soundness.{IsSound, new-IsSound}
use canopus_module_bluetooth.Avdtp.Soundness.Receiving.{receive-IsSound}

connect-IsSound : (p : Port) → IsSound (p.source) → IsSound (connect p).1.source
unfolding connect command response
connect-IsSound p v = ground (arith, v.late_state, v.late_pending)

start-IsSound : (p : Port) → IsSound (p.source) → IsSound (start p).1.source
unfolding start command response
start-IsSound p v = ground (arith, v.late_state, v.late_pending)

suspend-IsSound : (p : Port) → IsSound (p.source) → IsSound (suspend p).1.source
unfolding suspend command response
suspend-IsSound p v = ground (arith, v.late_state, v.late_pending)

-- What the transport does with a source: its calls, with the output buffer of each, and the field
-- that it sets when the media channel opens or closes.
pub data Call : Type 0 where
  connects starts suspends : List ℕ → Call
  receives : List ℕ → List ℕ → Call
  sets_media : Bool → Call

abbrev pub step : Source → Call → Source
step s (connects out) = (connect (record { source = s; out = out })).1.source
step s (starts out) = (start (record { source = s; out = out })).1.source
step s (suspends out) = (suspend (record { source = s; out = out })).1.source
step s (receives packet out) = (receive packet (record { source = s; out = out })).1.source
step s (sets_media b) = record s { media_connected = b }

abbrev pub run : Source → List Call → Source
run s [] = s
run s (c ∷ cs) = run (step s c) cs

step-IsSound : (s : Source) (c : Call) → IsSound s → IsSound (step s c)
step-IsSound s (connects out) v = connect-IsSound _ v
step-IsSound s (starts out) v = start-IsSound _ v
step-IsSound s (suspends out) v = suspend-IsSound _ v
step-IsSound s (receives packet out) v = receive-IsSound packet _ v
step-IsSound s (sets_media b) v = record {
  transactions = v.transactions;
  pending = v.pending;
  sink_limit = v.sink_limit;
  fragment_limit = v.fragment_limit;
  buffer_size = v.buffer_size;
  late_state = v.late_state;
  late_pending = v.late_pending;
}

run-IsSound : (s : Source) (cs : List Call) → IsSound s → IsSound (run s cs)
run-IsSound s [] v = v
run-IsSound s (c ∷ cs) v = run-IsSound (step s c) cs (step-IsSound s c v)

-- After any calls and any packets, well formed or not, from a new source: the transaction labels
-- are below 16, at most eight sinks are listed, the reassembly buffer is within its 126 bytes,
-- and from Configuring on through Suspending, and while a SET_CONFIGURATION, OPEN, START or
-- SUSPEND is pending, the selected configuration is one that the encoder supports.
pub source-IsSound : (g : ℕ) (cs : List Call) → IsSound (run (new g) cs)
source-IsSound g cs = run-IsSound (new g) cs (new-IsSound g)
