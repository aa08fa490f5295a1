-- ===== src/Audio/RoundTrip.antt =====
-- The sample conversions of pkg/audio/types.go undo one another, and PCM frames come back.
use mathlib.Core.Path.{ap₂}
use sendspin_go.Prelude.{
  ℕ, ◌+◌, ◌-◌, ◌*◌, ◌/◌, ◌%◌, ◌^◌, ◌≤◌, ◌<◌, ◌≡◌, refl, ◌∙◌, ◌⊎◌, List, [], ◌∷◌, ◌++◌, map, arith,
  ltb, length, All, if◌then◌else◌,
}
use sendspin_go.Prelude.Int.{pos}
use sendspin_go.Audio.{
  sample_to_int16, sample_from_int16, sample_to_24bit, sample_from_24bit, decode24, decode,
  encode_pcm,
}

-- The pattern of an int32 between -2^23 and 2^23 - 1, the constants Min24Bit and Max24Bit.
abbrev pub Is24Bit : ℕ → Type 0
Is24Bit s = (s < 2 ^ 32) × ((s < 2 ^ 23) ⊎ (2 ^ 32 - 2 ^ 23 ≤ s))

-- The low 24 bits, read as a signed number.
abbrev pub truncate24 : ℕ → ℕ
truncate24 s = if ltb (s % 2 ^ 24) (2 ^ 23) then s % 2 ^ 24 else s % 2 ^ 24 + (2 ^ 32 - 2 ^ 24)

-- Packing into three bytes keeps the low 24 bits and their sign, of any int32.
sample_from_24bit-sample_to_24bit : (s : ℕ) → sample_from_24bit (sample_to_24bit s) ≡ truncate24 s
unfolding sample_from_24bit sample_to_24bit
sample_from_24bit-sample_to_24bit s = ground arith

truncate24-eq : (s : ℕ) → Is24Bit s → truncate24 s ≡ s
truncate24-eq s h = ground arith

-- An int16 survives the way to the left-justified 24-bit range and back.
pub sample_to_int16-sample_from_int16 :
    (s : ℕ) → s < 2 ^ 16 → sample_to_int16 (sample_from_int16 s) ≡ s
unfolding sample_to_int16 sample_from_int16
sample_to_int16-sample_from_int16 s h = ground arith

decode24-short : (rest : List ℕ) → length rest < 3 → decode24 rest ≡ []
unfolding decode24
decode24-short [] h = refl
decode24-short (a ∷ []) h = refl
decode24-short (a ∷ b ∷ []) h = refl
decode24-short (a ∷ b ∷ c ∷ rest) h = absurd (omega arith)

decode24-encode_pcm :
    (samples rest : List ℕ)
    → length rest < 3
    → decode24 (encode_pcm samples ++ rest) ≡ map truncate24 samples
unfolding decode24 encode_pcm
decode24-encode_pcm [] rest h = decode24-short rest h
decode24-encode_pcm (s ∷ samples) rest h = ap₂ ◌∷◌ packed (decode24-encode_pcm samples rest h)
  where
    packed :
        sample_from_24bit
          (record { low = s % 2 ^ 8; mid = s / 2 ^ 8 % 2 ^ 8; high = s / 2 ^ 16 % 2 ^ 8 })
        ≡ truncate24 s
    packed = unfold sample_to_24bit in sample_from_24bit-sample_to_24bit s

map-truncate24 : (samples : List ℕ) → All Is24Bit samples → map truncate24 samples ≡ samples
map-truncate24 [] h = refl
map-truncate24 (s ∷ samples) h = ap₂ ◌∷◌ (truncate24-eq s h.0) (map-truncate24 samples h.1)

-- What the server encodes as 24-bit PCM the client decodes to the same samples, if each is in the
-- 24-bit range; up to two stray bytes at the end of the frame are dropped.
pub decode-encode_pcm :
    (samples rest : List ℕ)
    → All Is24Bit samples
    → length rest < 3
    → decode (pos 24) (encode_pcm samples ++ rest) ≡ samples
unfolding decode
decode-encode_pcm samples rest h short =
    decode24-encode_pcm samples rest short ∙ map-truncate24 samples h

-- A PCM frame holds three bytes for each sample, and each entry is a byte.
pub encode_pcm_bytes :
    (samples : List ℕ)
    → (length (encode_pcm samples) ≡ 3 * length samples) × All (λ b. b < 2 ^ 8) (encode_pcm samples)
unfolding encode_pcm
encode_pcm_bytes [] = (refl, tt)
encode_pcm_bytes (s ∷ samples) =
    let (size, bytes) = encode_pcm_bytes samples in
    (omega arith, (omega arith, (omega arith, (omega arith, bytes))))
