-- ===== src/Receiver/Formats.antt =====
-- buildSupportedFormats of pkg/sendspin/receiver.go: the formats that a player advertises, under
-- the caps of its device and with the preferred codec first.
pub mod Negotiated
use sendspin_go.Prelude.{Bool, true, false, not, ◌&&◌, List, [], ◌∷◌, ◌++◌, if◌then◌else◌}
use sendspin_go.Prelude.Int.{ℤ, pos, ltb_ℤ}
use sendspin_go.Prelude.Text.{String, str_eq}
use sendspin_go.Roles.{AudioFormat}

abbrev pub stereo : String → ℤ → ℤ → AudioFormat
stereo codec sample_rate bit_depth = record {
  codec = codec;
  channels = pos 2;
  sample_rate = sample_rate;
  bit_depth = bit_depth;
}

abbrev pub pcm_formats : List AudioFormat
pcm_formats =
    stereo "pcm" (pos 192000) (pos 24)
    ∷ stereo "pcm" (pos 176400) (pos 24)
    ∷ stereo "pcm" (pos 96000) (pos 24)
    ∷ stereo "pcm" (pos 88200) (pos 24)
    ∷ stereo "pcm" (pos 48000) (pos 16)
    ∷ stereo "pcm" (pos 44100) (pos 16)
    ∷ []

abbrev pub coded_formats : List AudioFormat
coded_formats =
    stereo "flac" (pos 192000) (pos 24)
    ∷ stereo "flac" (pos 96000) (pos 24)
    ∷ stereo "flac" (pos 48000) (pos 24)
    ∷ stereo "flac" (pos 44100) (pos 16)
    ∷ stereo "opus" (pos 48000) (pos 16)
    ∷ []

-- allFormats
abbrev pub all_formats : List AudioFormat
all_formats = pcm_formats ++ coded_formats

-- The caps let the format through; 0 is no cap.
unfoldable pub within : ℤ → ℤ → AudioFormat → Bool
within max_sample_rate max_bit_depth f =
    if ltb_ℤ (pos 0) max_sample_rate && ltb_ℤ max_sample_rate f.sample_rate
    then false
    else if ltb_ℤ (pos 0) max_bit_depth && ltb_ℤ max_bit_depth f.bit_depth
    then false
    else true

unfoldable pub filter_loop : List AudioFormat → ℤ → ℤ → List AudioFormat → List AudioFormat
unfolding within
filter_loop [] max_sample_rate max_bit_depth filtered = filtered
filter_loop (f ∷ fs) max_sample_rate max_bit_depth filtered =
    filter_loop fs max_sample_rate max_bit_depth
      (if within max_sample_rate max_bit_depth f then filtered ++ f ∷ [] else filtered)

unfoldable pub prefer_loop :
    List AudioFormat → String → List AudioFormat → List AudioFormat → List AudioFormat
prefer_loop [] codec preferred rest = preferred ++ rest
prefer_loop (f ∷ fs) codec preferred rest =
    if str_eq f.codec codec
    then prefer_loop fs codec (preferred ++ f ∷ []) rest
    else prefer_loop fs codec preferred (rest ++ f ∷ [])

unfoldable pub build_supported_formats : String → ℤ → ℤ → List AudioFormat
unfolding filter_loop prefer_loop
build_supported_formats preferred_codec max_sample_rate max_bit_depth =
    let filtered = filter_loop all_formats max_sample_rate max_bit_depth [] in
    if str_eq preferred_codec "" then filtered else prefer_loop filtered preferred_codec [] []
