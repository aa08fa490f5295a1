-- ===== src/Audio/Tests.antt =====
-- Conversions of pkg/audio at concrete samples, and their theorems there.
use sendspin_go.Prelude.{ℕ, ◌≡◌, refl, List, [], ◌∷◌, ◌++◌, arith}
use sendspin_go.Prelude.Int.{pos}
use sendspin_go.Audio.{decode, encode_pcm, convert_to_int16}
use sendspin_go.Audio.RoundTrip.{decode-encode_pcm}

-- 1, -1 and the largest 24-bit sample.
abbrev samples : List ℕ
samples = 1 ∷ 0xffff_ffff ∷ 0x7f_ffff ∷ []

encoded : encode_pcm samples ≡ 1 ∷ 0 ∷ 0 ∷ 255 ∷ 255 ∷ 255 ∷ 255 ∷ 255 ∷ 127 ∷ []
unfolding encode_pcm
encoded = refl

converted : convert_to_int16 samples ≡ 0 ∷ 0xffff ∷ 0x7fff ∷ []
unfolding convert_to_int16
converted = refl

decode-encode_pcm_example : decode (pos 24) (encode_pcm samples ++ 7 ∷ 9 ∷ []) ≡ samples
decode-encode_pcm_example =
    decode-encode_pcm samples (7 ∷ 9 ∷ []) (ground arith, (ground arith, (ground arith, tt)))
      (omega arith)
