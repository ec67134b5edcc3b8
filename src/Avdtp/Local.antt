-- ===== src/Avdtp/Local.antt =====
-- What the source starts by itself: `connected`, `start` and `suspend`.
use canopus_module_bluetooth.Base.{
  Bool, not, ◌||◌, [], ◌∷◌, ◌==◌, if◌then◌else◌, ok, err, then_on_ok,
}
use canopus_module_bluetooth.Avdtp.{
  Port, Writer, LinkState, State, bad_state, is_down, in_state, shifted, signal_discover,
  signal_start, signal_suspend,
}
use canopus_module_bluetooth.Avdtp.Wire.{command}

unfoldable pub connect : Writer
connect p =
    if not (is_down p.source.link)
    then (err bad_state, p)
    else then_on_ok (command signal_discover [] p) λ len p'. (
      ok len,
      record p' {
        source = record (p'.source) { link = LinkState.connected; state = State.discovering };
      },
    )

abbrev refuses : State → Port → Bool
refuses wanted p =
    is_down p.source.link
    || not (in_state p.source.state wanted)
    || p.source.remote_seid == 0
    || not (p.source.pending_signal == 0)

unfoldable pub start : Writer
start p =
    if refuses State.opened p
    then (err bad_state, p)
    else then_on_ok (command signal_start (shifted p.source.remote_seid ∷ []) p)
        λ len p'. (ok len, record p' { source = record (p'.source) { state = State.starting } })

unfoldable pub suspend : Writer
suspend p =
    if refuses State.streaming p
    then (err bad_state, p)
    else then_on_ok (command signal_suspend (shifted p.source.remote_seid ∷ []) p)
        λ len p'. (ok len, record p' { source = record (p'.source) { state = State.suspending } })
