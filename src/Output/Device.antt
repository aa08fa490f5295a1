-- ===== src/Output/Device.antt =====
-- The choice of a playback device in pkg/audio/output/malgo.go, and the device's capabilities in
-- query.go. The errors of matchDevice are constructors here: their texts also list the names of the
-- devices.
pub mod Choice
pub mod Highest
use sendspin_go.Prelude.{
  ℕ, suc, Bool, true, false, List, [], ◌∷◌, Option, none, some, ltb, ◌==◌, ◌&&◌, if◌then◌else◌,
  length,
}
use sendspin_go.Prelude.Text.{String, slice, str_eq, find?}

-- The device's ID is only handed back to the library.
pub record PlaybackDevice : Type 0 where
  pub name : String
  pub is_default : Bool
  pub id : ℕ

pub data Match : Type 0 where
  found : PlaybackDevice → Match
  library_default : Match
  not_found : Match
  ambiguous : ℕ → Match

-- The loop over IsDefault.
unfoldable pub first_default : List PlaybackDevice → Option PlaybackDevice
first_default [] = none
first_default (d ∷ devices) = if d.is_default then some d else first_default devices

unfoldable pub first_named : List PlaybackDevice → String → Option PlaybackDevice
first_named [] requested = none
first_named (d ∷ devices) requested =
    if str_eq d.name requested then some d else first_named devices requested

-- The condition on the text before the first ", ".
unfoldable pub short_match : PlaybackDevice → String → Bool
short_match d requested = elim (find? d.name ", ") [
  | none ↦ false
  | some idx ↦ ltb 0 idx && str_eq (slice d.name 0 idx) requested
]

unfoldable pub short_matches : List PlaybackDevice → String → List PlaybackDevice
unfolding short_match
short_matches [] requested = []
short_matches (d ∷ devices) requested =
    if short_match d requested
    then d ∷ short_matches devices requested
    else short_matches devices requested

unfoldable pub match_device : List PlaybackDevice → String → Match
unfolding first_default first_named short_matches
match_device devices requested =
    if str_eq requested ""
    then elim devices [
      | [] ↦ library_default
      | d ∷ rest ↦ elim (first_default (d ∷ rest)) [ none ↦ found d | some c ↦ found c ]
    ]
    else elim (first_named devices requested) [
      | some d ↦ found d
      | none ↦ elim (short_matches devices requested) [
        | [] ↦ not_found
        | d ∷ rest ↦ elim rest [ [] ↦ found d | e ∷ more ↦ ambiguous (length (d ∷ e ∷ more)) ]
      ]
    ]

-- The formats of the library that formatBits tells apart.
pub data FormatType : Type 0 where
  format_s16 format_s24 format_s32 format_f32 format_other : FormatType

pub record DataFormat : Type 0 where
  pub format : FormatType
  pub sample_rate : ℕ

unfoldable pub format_bits : FormatType → ℕ
format_bits format_s16 = 16
format_bits format_s24 = 24
format_bits format_s32 = 32
format_bits format_f32 = 32
format_bits format_other = 0

-- The highest sample rate and bit depth so far; 0 and 0 mean "no cap".
pub record Caps : Type 0 where
  pub max_sample_rate : ℕ
  pub max_bit_depth : ℕ

unfoldable pub raise : Caps → DataFormat → Caps
unfolding format_bits
raise c f =
    let bits = format_bits f.format in
    if bits == 0 then c else record {
      max_sample_rate =
          if ltb c.max_sample_rate f.sample_rate then f.sample_rate else c.max_sample_rate;
      max_bit_depth = if ltb c.max_bit_depth bits then bits else c.max_bit_depth;
    }

unfoldable pub caps_loop : List DataFormat → Caps → Caps
unfolding raise
caps_loop [] c = c
caps_loop (f ∷ formats) c = caps_loop formats (raise c f)

unfoldable pub caps_from_formats : List DataFormat → Caps
unfolding caps_loop
caps_from_formats formats = caps_loop formats (record { max_sample_rate = 0; max_bit_depth = 0 })
