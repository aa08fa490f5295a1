-- ===== src/Stream/Encode.antt =====
-- The switch of generateAndSendChunk over the codec, for clients that the player role has set up.
use sendspin_go.Prelude.{ℕ, ◌≡◌, refl, ◌⊎◌, inl, inr, List, Option, none, some}
use sendspin_go.Prelude.Int.{ℤ}
use sendspin_go.Audio.{convert_to_int16, encode_pcm}
use sendspin_go.Roles.{ServerClient}
use sendspin_go.Roles.Player.{Matches}
use sendspin_go.Stream.{encode_for}

module _ (opus_encode flac_encode : ℕ → List ℕ → Option (List ℕ))
    (resample : ℕ → List ℕ → List ℕ) where
  abbrev pub resampled : ServerClient → List ℕ → List ℕ
  resampled c samples = elim c.resampler [ none ↦ samples | some r ↦ resample r samples ]

  encode-pcm :
      (c : ServerClient) (samples : List ℕ)
      → c.codec ≡ "pcm"
      → encode_for opus_encode flac_encode resample c samples ≡ some (encode_pcm samples)
  unfolding encode_for
  encode-pcm c samples e = rw (e, encode_for) refl

  encode-flac :
      (c : ServerClient) (samples : List ℕ) (e : ℕ)
      → c.codec ≡ "flac"
      → c.flac_encoder ≡ some e
      → encode_for opus_encode flac_encode resample c samples ≡ flac_encode e samples
  unfolding encode_for
  encode-flac c samples e codec h = rw (codec, h, encode_for) refl

  encode-opus :
      (c : ServerClient) (samples : List ℕ) (e : ℕ)
      → c.codec ≡ "opus"
      → c.opus_encoder ≡ some e
      → encode_for opus_encode flac_encode resample c samples
        ≡ opus_encode e (convert_to_int16 (resampled c samples))
  unfolding encode_for
  encode-opus c samples e codec h = rw (codec, h, encode_for) refl

  -- A client whose codec and encoders match, as the player role leaves it, is passed over in a tick
  -- only by an error of its own encoder: a PCM client always gets the samples in PCM, a FLAC one
  -- what its encoder makes of the samples, and an Opus one what its encoder makes of the samples
  -- resampled, if it has a resampler, and reduced to 16 bits.
  pub encode_for_lem :
      (rate : ℤ) (c : ServerClient) (samples : List ℕ)
      → Matches rate c.codec c.opus_encoder c.flac_encoder c.resampler
      → ((c.codec ≡ "pcm")
          × (encode_for opus_encode flac_encode resample c samples ≡ some (encode_pcm samples)))
        ⊎ ((e : ℕ) × (c.flac_encoder ≡ some e)
            × (encode_for opus_encode flac_encode resample c samples ≡ flac_encode e samples))
        ⊎ ((e : ℕ) × (c.opus_encoder ≡ some e)
            × (encode_for opus_encode flac_encode resample c samples
                ≡ opus_encode e (convert_to_int16 (resampled c samples))))
  encode_for_lem rate c samples m = elim m.known [
    | inl pcm ↦ inl (pcm, encode-pcm c samples pcm)
    | inr (inl flac) ↦
        let (e, h) = m.for_flac.0 flac in inr (inl (e, h, encode-flac c samples e flac h))
    | inr (inr opus) ↦
        let (e, h) = m.for_opus.0 opus in inr (inr (e, h, encode-opus c samples e opus h))
  ]
