-- ===== src/Roles/Negotiation.antt =====
-- negotiateCodec of pkg/sendspin/server_stream.go.
use sendspin_go.Prelude.{
  ◌≡◌, refl, ap, ◌⊎◌, inl, inr, Bool, true, false, ◌||◌, ◌&&◌, List, [], ◌∷◌, Option, none, some,
  arith, if◌then◌else◌, Option-cases,
}
use sendspin_go.Prelude.Int.{ℤ, eqb_ℤ}
use sendspin_go.Prelude.Text.{String, str_eq, eq_iff}
use sendspin_go.Roles.{
  AudioFormat, ServerClient, negotiate_loop, negotiate_codec, default_bit_depth,
}

-- A format that the server can send.
abbrev pub acceptable : ℤ → AudioFormat → Bool
acceptable rate f =
    str_eq f.codec "flac"
    || str_eq f.codec "opus"
    || str_eq f.codec "pcm" && eqb_ℤ f.sample_rate rate && eqb_ℤ f.bit_depth default_bit_depth

abbrev pub first_acceptable : ℤ → List AudioFormat → Option AudioFormat
first_acceptable rate [] = none
first_acceptable rate (f ∷ fs) = if acceptable rate f then some f else first_acceptable rate fs

abbrev pub codec_of : Option AudioFormat → String
codec_of none = "pcm"
codec_of (some f) = f.codec

abbrev pub formats : ServerClient → List AudioFormat
formats c = elim c.capabilities [ none ↦ [] | some caps ↦ caps.supported_formats ]

pcm_only :
    (codec : String)
    → str_eq codec "pcm" ≡ true
    → (str_eq codec "flac" ≡ false) × (str_eq codec "opus" ≡ false)
pcm_only codec h =
    let same = (eq_iff codec "pcm").0 h in
    (ap (λ s. str_eq s "flac") same, ap (λ s. str_eq s "opus") same)

pub negotiate_loop_lem :
    (fs : List AudioFormat) (rate : ℤ)
    → negotiate_loop fs rate ≡ codec_of (first_acceptable rate fs)
unfolding negotiate_loop
negotiate_loop_lem [] rate = refl
negotiate_loop_lem (f ∷ fs) rate = ground (
  arith,
  negotiate_loop_lem fs rate,
  pcm_only f.codec,
  eq_iff f.codec "pcm",
  eq_iff f.codec "flac",
  eq_iff f.codec "opus",
)

-- The codec is that of the first format of the client's list that is FLAC, Opus, or PCM with the
-- source's rate and 24 bits; it is "pcm" if there is no such format or the client names none.
pub negotiate_codec_lem :
    (c : ServerClient) (rate : ℤ)
    → negotiate_codec c rate ≡ codec_of (first_acceptable rate (formats c))
unfolding negotiate_codec
negotiate_codec_lem c rate = elim (Option-cases c.capabilities) [
  | inl e ↦ rw (e, negotiate_codec) refl
  | inr (caps, e) ↦ rw (e, negotiate_codec) (negotiate_loop_lem caps.supported_formats rate)
]

-- The codecs that the server sends.
abbrev pub IsCodec : String → Type 0
IsCodec codec = (codec ≡ "pcm") ⊎ (codec ≡ "flac") ⊎ (codec ≡ "opus")

pub negotiated : (fs : List AudioFormat) (rate : ℤ) → IsCodec (negotiate_loop fs rate)
unfolding negotiate_loop
negotiated [] rate = inl refl
negotiated (f ∷ fs) rate = ground (arith, negotiated fs rate)
