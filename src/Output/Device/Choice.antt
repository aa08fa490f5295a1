-- ===== src/Output/Device/Choice.antt =====
-- matchDevice of pkg/audio/output/malgo.go against a description by selections.
use sendspin_go.Prelude.{
  ◌≡◌, refl, inl, inr, false, not, ◌&&◌, Bool, List, [], ◌∷◌, ◌++◌, none, some, arith,
  if◌then◌else◌, length,
}
use sendspin_go.Prelude.Text.{String, str_eq}
use sendspin_go.Prelude.Before.{before, find?-before, len-positive}
use sendspin_go.Output.Device.{
  PlaybackDevice, Match, first_default, first_named, short_match, short_matches, match_device,
}

abbrev pub select : (PlaybackDevice → Bool) → List PlaybackDevice → List PlaybackDevice
select p [] = []
select p (d ∷ ds) = if p d then d ∷ select p ds else select p ds

-- The first of the candidates, in order of preference.
abbrev pub head_or : Match → List PlaybackDevice → Match
head_or m [] = m
head_or m (d ∷ ds) = Match.found d

-- A device that stands alone, or the error.
abbrev pub only : List PlaybackDevice → Match
only [] = Match.not_found
only (d ∷ []) = Match.found d
only (d ∷ e ∷ ds) = Match.ambiguous (length (d ∷ e ∷ ds))

abbrev pub named : String → PlaybackDevice → Bool
named requested d = str_eq d.name requested

-- The short name, before the first ", ", is the one requested.
abbrev pub short_named : String → PlaybackDevice → Bool
short_named requested d = elim (before ", " d.name) [
  | none ↦ false
  | some u ↦ not (str_eq u "") && str_eq u requested
]

-- What the comment above matchDevice promises.
abbrev pub promised : List PlaybackDevice → String → Match
promised devices requested =
    if str_eq requested ""
    then head_or Match.library_default (select (λ d. d.is_default) devices ++ devices)
    else head_or (only (select (short_named requested) devices)) (select (named requested) devices)

first_default_lem :
    (devices rest : List PlaybackDevice) (m : Match)
    → head_or m (select (λ d. d.is_default) devices ++ rest)
      ≡ elim (first_default devices) [ none ↦ head_or m rest | some c ↦ Match.found c ]
unfolding first_default
first_default_lem [] rest m = refl
first_default_lem (d ∷ devices) rest m = ground (arith, first_default_lem devices rest m)

first_named_lem :
    (devices : List PlaybackDevice) (requested : String) (m : Match)
    → head_or m (select (named requested) devices)
      ≡ elim (first_named devices requested) [ none ↦ m | some c ↦ Match.found c ]
unfolding first_named
first_named_lem [] requested m = refl
first_named_lem (d ∷ devices) requested m = ground (arith, first_named_lem devices requested m)

short_match_lem :
    (d : PlaybackDevice) (requested : String) → short_match d requested ≡ short_named requested d
unfolding short_match
short_match_lem d requested = elim (find?-before ", " d.name refl) [
  | inl (u, b, f, e) ↦ ground (arith, b, f, e, len-positive u)
  | inr (b, f) ↦ ground (arith, b, f)
]

short_matches_lem :
    (devices : List PlaybackDevice) (requested : String)
    → short_matches devices requested ≡ select (short_named requested) devices
unfolding short_matches
short_matches_lem [] requested = refl
short_matches_lem (d ∷ devices) requested =
    ground (arith, short_matches_lem devices requested, short_match_lem d requested)

only_lem :
    (ds : List PlaybackDevice)
    → only ds ≡ elim ds [
      | [] ↦ Match.not_found
      | d ∷ rest ↦ elim rest [
        | [] ↦ Match.found d
        | e ∷ more ↦ Match.ambiguous (length (d ∷ e ∷ more))
      ]
    ]
only_lem [] = refl
only_lem (d ∷ []) = refl
only_lem (d ∷ e ∷ ds) = refl

-- With no name requested, matchDevice gives the first device marked as the default, else the first
-- device, else the library's own default. With a name, it gives the first device of that name; if
-- there is none, the one device whose name before its first ", " is the request and not empty, and an error that
-- says "not found" or "ambiguous" where there is none or more than one.
pub match_device_lem :
    (devices : List PlaybackDevice) (requested : String)
    → match_device devices requested ≡ promised devices requested
unfolding match_device
match_device_lem [] requested =
    ground (arith, first_named_lem [] requested (only []), short_matches_lem [] requested)
match_device_lem (d ∷ ds) requested =
    let devices = d ∷ ds in
    ground (
      arith,
      first_default_lem devices devices Match.library_default,
      first_named_lem devices requested (only (short_matches devices requested)),
      short_matches_lem devices requested,
      only_lem (short_matches devices requested),
    )
