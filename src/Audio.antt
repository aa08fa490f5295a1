-- ===== src/Audio.antt =====
-- pkg/audio/types.go, the PCM decoder of pkg/audio/decode/pcm.go, and the PCM encoder of
-- pkg/sendspin/server_stream.go. An int32 sample is its bit pattern, a number below 2^32, an int16
-- one is below 2^16 and a byte below 2^8.
pub mod RoundTrip
mod Tests
use sendspin_go.Prelude.{
  ℕ, ◌+◌, ◌-◌, ◌*◌, ◌/◌, ◌%◌, ◌^◌, Bool, not, ◌&&◌, List, [], ◌∷◌, ◌++◌, map, ltb, ◌==◌,
  if◌then◌else◌,
}
use sendspin_go.Prelude.Int.{ℤ, pos, eqb_ℤ}
use sendspin_go.Prelude.Text.{String, str_eq}

pub record Format : Type 0 where
  pub codec : String
  pub sample_rate : ℤ
  pub channels : ℤ
  pub bit_depth : ℤ
  pub codec_header : List ℕ

-- `play_at` is a time.Time: nanoseconds of Unix time.
pub record Buffer : Type 0 where
  pub timestamp : ℤ
  pub play_at : ℤ
  pub samples : List ℕ
  pub format : Format

-- `sample >> 8` copies the sign bit into the top byte, which int16 drops.
unfoldable pub sample_to_int16 : ℕ → ℕ
sample_to_int16 sample = sample / 2 ^ 8 % 2 ^ 16

-- int32(sample) extends the sign.
pub extend16 : ℕ → ℕ
extend16 sample = if ltb sample (2 ^ 15) then sample else sample + (2 ^ 32 - 2 ^ 16)

pub sample_from_int16 : ℕ → ℕ
unfolding extend16
sample_from_int16 sample = extend16 sample * 2 ^ 8 % 2 ^ 32

pub record Bytes3 : Type 0 where
  pub low : ℕ
  pub mid : ℕ
  pub high : ℕ

pub sample_to_24bit : ℕ → Bytes3
sample_to_24bit sample = record {
  low = sample % 2 ^ 8;
  mid = sample / 2 ^ 8 % 2 ^ 8;
  high = sample / 2 ^ 16 % 2 ^ 8;
}

-- The three bytes do not overlap, so `|` is a sum; so it is where the sign is extended.
pub sample_from_24bit : Bytes3 → ℕ
sample_from_24bit b =
    let val = b.low + b.mid * 2 ^ 8 + b.high * 2 ^ 16 in
    if val / 2 ^ 23 % 2 == 1 then val + 0xFF00_0000 else val

pub data Decoder : Type 0 where
  pcm_decoder : ℤ → Decoder
  invalid_codec : Decoder
  unsupported_bit_depth : Decoder

-- NewPCM; the last two results are its errors.
pub new_pcm : Format → Decoder
new_pcm format =
    if not (str_eq format.codec "pcm")
    then Decoder.invalid_codec
    else if not (eqb_ℤ format.bit_depth (pos 16)) && not (eqb_ℤ format.bit_depth (pos 24))
    then Decoder.unsupported_bit_depth
    else Decoder.pcm_decoder format.bit_depth

-- The two loops of Decode: as many whole samples as there are bytes for.
pub decode24 : List ℕ → List ℕ
decode24 (a ∷ b ∷ c ∷ bytes) =
    sample_from_24bit (record { low = a; mid = b; high = c }) ∷ decode24 bytes
decode24 bytes = []

pub decode16 : List ℕ → List ℕ
decode16 (a ∷ b ∷ bytes) = sample_from_int16 (a + b * 2 ^ 8) ∷ decode16 bytes
decode16 bytes = []

pub decode : ℤ → List ℕ → List ℕ
unfolding decode24 decode16
decode bit_depth bytes = if eqb_ℤ bit_depth (pos 24) then decode24 bytes else decode16 bytes

-- convertToInt16 of the server, for the Opus encoder.
pub convert_to_int16 : List ℕ → List ℕ
convert_to_int16 samples = map (λ s. s / 2 ^ 8 % 2 ^ 16) samples

-- encodePCM of the server.
unfoldable pub encode_pcm : List ℕ → List ℕ
encode_pcm [] = []
encode_pcm (sample ∷ samples) =
    sample % 2 ^ 8 ∷ sample / 2 ^ 8 % 2 ^ 8 ∷ sample / 2 ^ 16 % 2 ^ 8 ∷ encode_pcm samples
