-- ===== src/Input/Endpoint/Late.antt =====
-- Late work: what the Bluetooth owner still does for a session that is over.
use canopus_module_bluetooth.Base.{
  ℕ, ◌+◌, ◌%◌, ◌≤◌, ◌<◌, ◌≡◌, ◌⊎◌, Bool, false, List, [], ◌∷◌, ◌==◌, if◌then◌else◌,
}
use canopus_module_bluetooth.Base.Words.{u32_mod, wrapping_add}
use canopus_module_bluetooth.Input.Endpoint.Soundness.{
  Call, opens, closes, starts, pauses, resumes, stops, flushes, drains, sets_format, writes,
  sets_volume, restores_volume, consumes, plays, adds_pcm_frames, adds_rtp_packets, underruns,
  drained, fails,
}

-- A call of the owner that carries the generation `g`.
abbrev pub works_for : ℕ → Call → Bool
works_for g (plays g' rate channels bitpool) = g' == g
works_for g (adds_pcm_frames g' k) = g' == g
works_for g (adds_rtp_packets g' k) = g' == g
works_for g (underruns g') = g' == g
works_for g (drained g' empty) = g' == g
works_for g (fails g' error) = g' == g
works_for g opens = false
works_for g closes = false
works_for g starts = false
works_for g pauses = false
works_for g resumes = false
works_for g stops = false
works_for g flushes = false
works_for g drains = false
works_for g (sets_format f) = false
works_for g (writes input) = false
works_for g (sets_volume v) = false
works_for g (restores_volume v) = false
works_for g (consumes room) = false

-- The calls but the owner's for the generation `g`.
abbrev pub without_late : ℕ → List Call → List Call
without_late g [] = []
without_late g (call ∷ calls) =
    let rest : List Call = without_late g calls in if works_for g call then rest else call ∷ rest

-- A call moves the generation by one or not at all.
abbrev Moves : ℕ → ℕ → Type 0
Moves before after = (after ≡ before) ⊎ (after ≡ wrapping_add before 1)

-- The generation is past `g`, and no run of `left` calls takes it around to `g`.
IsPast : ℕ → ℕ → ℕ → Type 0
IsPast g left generation =
    (d : ℕ) × (1 ≤ d) × (d + left < u32_mod) × (generation ≡ (g + d) % u32_mod)
