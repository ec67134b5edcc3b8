-- ===== src/Mp3/Window.antt =====
-- The input window of `Mp3ByteStream`: the fields `input`, `input_start` and `input_end`.
pub mod Queue
use canopus_module_bluetooth.Base.{
  ℕ, ◌+◌, ◌-◌, min, List, length, take, drop, splice, replicate, ltb, leb, ◌==◌, if◌then◌else◌,
}
use canopus_module_bluetooth.Mp3.{required_input_window, compact_threshold}

pub record Window : Type 0 where
  pub input : List ℕ
  pub input_start : ℕ
  pub input_end : ℕ

unfoldable pub new : Window
new = record { input = replicate required_input_window 0; input_start = 0; input_end = 0 }

unfoldable pub pending : Window → ℕ
pending w = w.input_end - w.input_start

-- `&self.input[self.input_start..self.input_end]`.
unfoldable pub contents : Window → List ℕ
contents w = take (w.input_end - w.input_start) (drop w.input_start w.input)

unfoldable pub free : Window → ℕ
unfolding pending
free w =
    if leb compact_threshold w.input_start
    then length w.input - pending w
    else length w.input - w.input_end

unfoldable pub compact : Window → Window
compact w = if w.input_start == 0 then w else record {
  input = splice 0 (take (w.input_end - w.input_start) (drop w.input_start w.input)) w.input;
  input_start = 0;
  input_end = w.input_end - w.input_start;
}

unfoldable pub append : List ℕ → Window → Window
append bytes w = record w {
  input = splice w.input_end bytes w.input;
  input_end = w.input_end + length bytes;
}

unfoldable pub push : List ℕ → Window → ℕ × Window
push bytes w =
    let count : ℕ = min (length bytes) (free w) in
    (
      count,
      append (take count bytes) (if ltb (length w.input - w.input_end) count then compact w else w),
    )

unfoldable pub consume : ℕ → Window → Window
consume count w =
    let start : ℕ = w.input_start + count in
    if start == w.input_end
    then record w { input_start = 0; input_end = 0 }
    else record w { input_start = start }

unfoldable pub clear : Window → Window
clear w = record w { input_start = 0; input_end = 0 }
