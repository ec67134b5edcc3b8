-- ===== src/Media/Clock.antt =====
-- `PacketClock`: pacing against one anchor on the monotonic clock. Times are u32 milliseconds that
-- wrap, and the microseconds are u64.
pub mod Schedule
use canopus_module_bluetooth.Base.{
  ℕ, ◌+◌, ◌-◌, ◌*◌, ◌/◌, ◌%◌, ◌^◌, min, max, Bool, true, false, not, ltb, if◌then◌else◌,
}
use canopus_module_bluetooth.Base.Words.{wrapping_sub, u32_mod, div_ceil}
use canopus_module_bluetooth.Media.{sample_rate}

pub data Pace : Type 0 where
  send : Pace
  wait : ℕ → Pace

pub record PacketClock : Type 0 where
  pub anchor_ms : ℕ
  pub sent_samples : ℕ
  pub lead_ms : ℕ
  pub running : Bool
  pub worst_lag_ms : ℕ

abbrev pub catch_up_limit_ms : ℕ
catch_up_limit_ms = 400

abbrev pub u64_mod : ℕ
u64_mod = 2 ^ 64

unfoldable pub with_lead : ℕ → PacketClock
with_lead lead_ms = record {
  anchor_ms = 0;
  sent_samples = 0;
  lead_ms = lead_ms;
  running = false;
  worst_lag_ms = 0;
}

unfoldable pub reset : PacketClock → PacketClock
reset c = record c { running = false; sent_samples = 0 }

abbrev pub elapsed_us : PacketClock → ℕ → ℕ
elapsed_us c now_ms = wrapping_sub now_ms c.anchor_ms * 1_000

abbrev pub sent_us : PacketClock → ℕ
sent_us c = c.sent_samples * 1_000_000 % u64_mod / sample_rate

abbrev pub target_us : PacketClock → ℕ → ℕ
target_us c now_ms = elapsed_us c now_ms + c.lead_ms * 1_000

abbrev pub lag_ms : PacketClock → ℕ → ℕ
lag_ms c now_ms = min ((elapsed_us c now_ms - sent_us c) / 1_000) (u32_mod - 1)

unfoldable pub poll : ℕ → PacketClock → Pace × PacketClock
poll now_ms c =
    if not c.running
    then (send, c)
    else if ltb (target_us c now_ms) (sent_us c)
    then (wait (max (div_ceil (sent_us c - target_us c now_ms) 1_000) 1 % u32_mod), c)
    else let lagged : PacketClock = record c {
      worst_lag_ms = max c.worst_lag_ms (lag_ms c now_ms);
    } in
      (
        send,
        if ltb catch_up_limit_ms (lag_ms c now_ms)
            then record lagged { anchor_ms = now_ms; sent_samples = 0 }
            else lagged,
      )

-- The first packet of a run anchors the clock.
unfoldable pub sent : ℕ → ℕ → PacketClock → PacketClock
sent now_ms samples c =
    let c' : PacketClock =
      if not c.running
      then record c { anchor_ms = now_ms; sent_samples = 0; running = true }
      else c in
    record c' { sent_samples = min (c'.sent_samples + samples) (u64_mod - 1) }

unfoldable pub take_worst_lag_ms : PacketClock → ℕ × PacketClock
take_worst_lag_ms c = (c.worst_lag_ms, record c { worst_lag_ms = 0 })
