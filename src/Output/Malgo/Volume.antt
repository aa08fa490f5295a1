-- ===== src/Output/Malgo/Volume.antt =====
-- applyVolume of pkg/audio/output/volume.go: the samples that it leaves.
use mathlib.Core.Path.{ap₂}
use sendspin_go.Prelude.{
  ℕ, suc, ◌-◌, ◌^◌, ◌≤◌, ◌<◌, ◌≡◌, ◌⊎◌, refl, ap, ◌∙◌, inl, inr, Bool, true, List, [], ◌∷◌, arith,
  All, length, replicate,
}
use sendspin_go.Prelude.Int.{ℤ, pos, negsuc}
use sendspin_go.Output.Malgo.{of_int32, clip_24bit, get_volume_multiplier, apply_volume}

-- The bit pattern of an int32 between Min24Bit and Max24Bit.
abbrev pub In24 : ℕ → Type 0
In24 s = (s < 2 ^ 23) ⊎ ((2 ^ 32 - 2 ^ 23 ≤ s) × (s < 2 ^ 32))

clipped-In24 : (z : ℤ) → In24 (of_int32 (clip_24bit z))
unfolding clip_24bit
clipped-In24 (pos n) = inl (ground arith)
clipped-In24 (negsuc n) = inr (ground arith, ground arith)

zero_clip : of_int32 (clip_24bit (pos 0)) ≡ 0
unfolding clip_24bit
zero_clip = refl

module _ {ℓ} {Float : Type ℓ} (scale : ℕ → Float → ℤ) (curve : ℤ → Float) (silence : Float) where
  -- Whatever the gain, and however far it scales the samples, applyVolume leaves as many samples,
  -- each of them a 24-bit number; and if scaling by 0.0 gives 0, a muted output gets only zeros.
  pub apply_volume-In24 :
      (samples : List ℕ) (volume : ℤ) (muted : Bool)
      → (length (apply_volume scale curve silence samples volume muted) ≡ length samples)
        × All In24 (apply_volume scale curve silence samples volume muted)
        × (((s : ℕ) → scale s silence ≡ pos 0)
            → apply_volume scale curve silence samples volume true ≡ replicate (length samples) 0)
  unfolding apply_volume get_volume_multiplier
  apply_volume-In24 [] volume muted = (refl, tt, λ h. refl)
  apply_volume-In24 (s ∷ samples) volume muted =
      let (len, small, zeros) = apply_volume-In24 samples volume muted in
      (
        ap suc len,
        (clipped-In24 (scale s (get_volume_multiplier scale curve silence volume muted)), small),
        λ h. ap₂ ◌∷◌ (ap (λ z. of_int32 (clip_24bit z)) (h s) ∙ zero_clip) (zeros h),
      )
