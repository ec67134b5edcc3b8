-- ===== src/Avdtp/Sbc.antt =====
-- `choose_sbc` and the walk over the discovered sinks.
use canopus_module_bluetooth.Base.{
  ℕ, zero, suc, ◌+◌, ◌/◌, ◌%◌, min, max, bit_and, Bool, true, false, not, ◌&&◌, ◌||◌, Option, none,
  some, List, [], ◌∷◌, length, take, drop, splice, get_or, ltb, leb, ◌==◌, if◌then◌else◌, err,
}
use canopus_module_bluetooth.Avdtp.{
  Port, Source, Writer, State, SbcConfig, bad_packet, unsupported, shifted, category_media_codec,
  category_delay_reporting, signal_get_all_capabilities, signal_set_configuration,
}
use canopus_module_bluetooth.Avdtp.Wire.{command}

-- sbc_tone_frames.rs
abbrev pub min_bitpool : ℕ
min_bitpool = 27

abbrev pub max_bitpool : ℕ
max_bitpool = 53

abbrev pub preferred_max_bitpool : ℕ
preferred_max_bitpool = 39

abbrev pub offers : ℕ → ℕ → Bool
offers byte mask = bit_and byte mask == mask

-- What one Media Codec service asks for, if this source can meet it.
unfoldable pub sbc_offer : List ℕ → Option SbcConfig
sbc_offer value =
    let frequency_channel : ℕ =
      if offers (get_or value 2 0) 0x22
      then 0x22
      else if offers (get_or value 2 0) 0x21
      then 0x21
      else 0 in
    let shape : ℕ = bit_and (get_or value 3 0) 0x15 in
    let maximum : ℕ = min (min (get_or value 5 0) max_bitpool) preferred_max_bitpool in
    let minimum : ℕ = max (get_or value 4 0) min_bitpool in
    if not (frequency_channel == 0) && shape == 0x15 && leb minimum maximum
    then some (record {
      frequency_channel = frequency_channel;
      blocks_subbands_allocation = 0x15;
      minimum_bitpool = minimum;
      maximum_bitpool = maximum;
    })
    else none

abbrev is_sbc : ℕ → ℕ → List ℕ → Bool
is_sbc category len value =
    category == category_media_codec
    && len == 6
    && get_or value 0 0 / 16 == 0
    && get_or value 0 0 % 16 == 0
    && get_or value 1 0 == 0

-- What the loop carries: the best configuration, the delay flag, `last_codec_caps`.
pub record Scan : Type 0 where
  pub found : Option SbcConfig
  pub delay : Bool
  pub caps : List ℕ

abbrev or_else : Option SbcConfig → Option SbcConfig → Option SbcConfig
or_else none b = b
or_else (some a) b = some a

unfoldable pub scan_service : ℕ → ℕ → List ℕ → Scan → Scan
unfolding sbc_offer
scan_service category len value s = record {
  found = if is_sbc category len value then or_else (sbc_offer value) s.found else s.found;
  delay = if category == category_delay_reporting && len == 0 then true else s.delay;
  caps = if category == category_media_codec then splice 0 value s.caps else s.caps;
}

-- How the loop over the services ends: `stuck` is no outcome of the code, the fuel ran out.
pub data Scanned : Type 0 where
  done malformed : Scan → Scanned
  stuck : Scanned

-- The loop, over `payload[offset..]`; each round takes two bytes at least.
unfoldable pub scan : ℕ → List ℕ → Scan → Scanned
scan fuel [] s = done s
scan fuel (category ∷ []) s = malformed s
scan zero (category ∷ len ∷ rest) s = stuck
scan (suc fuel) (category ∷ len ∷ rest) s =
    let next = scan fuel (drop len rest) (scan_service category len (take len rest) s) in
    if ltb (length rest) len then malformed s else next

unfoldable pub next_sink_capabilities : Writer
next_sink_capabilities p =
    let pos : ℕ = p.source.sink_pos + 1 in
    let moved : Source = record (p.source) { sink_pos = pos } in
    if leb p.source.sink_count pos || leb 8 pos
    then (err unsupported, record p { source = moved })
    else let seid : ℕ = get_or p.source.sinks pos 0 in
      command signal_get_all_capabilities (shifted seid ∷ []) (record p {
        source = record moved {
          remote_seid = seid;
          delay_reporting = false;
          reported_delay_100us = 0;
          state = State.reading_capabilities;
        };
      })

-- The payload of SET_CONFIGURATION.
abbrev pub configuration_bytes : ℕ → ℕ → SbcConfig → Bool → List ℕ
configuration_bytes remote_seid local_seid config delay =
    shifted remote_seid
    ∷ shifted local_seid
    ∷ 1
    ∷ 0
    ∷ 7
    ∷ 6
    ∷ 0
    ∷ 0
    ∷ config.frequency_channel
    ∷ config.blocks_subbands_allocation
    ∷ config.minimum_bitpool
    ∷ config.maximum_bitpool
    ∷ (if delay then 8 ∷ 0 ∷ [] else [])

abbrev configure : SbcConfig → Bool → Writer
configure config delay p =
    command signal_set_configuration
      (configuration_bytes p.source.remote_seid p.source.local_seid config delay)
      (record p {
        source = record (p.source) {
          selected_sbc = config;
          delay_reporting = delay;
          state = State.configuring;
        };
      })

abbrev with_caps : List ℕ → Port → Port
with_caps caps p = record p { source = record (p.source) { last_codec_caps = caps } }

abbrev choose : Option SbcConfig → Bool → Writer
choose none delay p = next_sink_capabilities p
choose (some config) delay p = configure config delay p

unfoldable pub finish_scan : Scanned → Writer
finish_scan (done s) p = choose s.found s.delay (with_caps s.caps p)
finish_scan (malformed s) p = (err bad_packet, with_caps s.caps p)
finish_scan stuck p = (err bad_packet, p)

abbrev pub scan_start : Source → Scan
scan_start s = record { found = none; delay = false; caps = s.last_codec_caps }

-- The fuel is the payload's length.
unfoldable pub choose_sbc : List ℕ → Writer
unfolding finish_scan
choose_sbc payload p = finish_scan (scan (length payload) payload (scan_start p.source)) p
