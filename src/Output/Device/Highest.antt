-- ===== src/Output/Device/Highest.antt =====
-- capsFromFormats of pkg/audio/output/query.go.
use sendspin_go.Prelude.{
  ℕ, ◌≤◌, ◌≡◌, ◌⊎◌, refl, sym, ◌∙◌, inl, inr, Bool, true, false, List, [], ◌∷◌, arith, ◌==◌, ltb,
  All, Bool-cases,
}
use sendspin_go.Output.Device.{DataFormat, format_bits, Caps, raise, caps_loop, caps_from_formats}

-- The format is of a kind that the program plays.
abbrev pub known : DataFormat → Bool
known f = elim (format_bits f.format == 0) [ true ↦ false | false ↦ true ]

abbrev pub Under : Caps → DataFormat → Type 0
Under c f =
    known f ≡ true → (f.sample_rate ≤ c.max_sample_rate) × (format_bits f.format ≤ c.max_bit_depth)

record Above (a b : Caps) : Type 0 where
  rate : a.max_sample_rate ≤ b.max_sample_rate
  depth : a.max_bit_depth ≤ b.max_bit_depth

raise-Above : (c : Caps) (f : DataFormat) → Above c (raise c f)
unfolding raise
raise-Above c f = record { rate = ground arith; depth = ground arith }

raise-Under : (c : Caps) (f : DataFormat) → Under (raise c f) f
unfolding raise
raise-Under c f h = (ground (arith, h), ground (arith, h))

caps_loop-Above : (fs : List DataFormat) (c : Caps) → Above c (caps_loop fs c)
unfolding caps_loop
caps_loop-Above [] c = record { rate = omega arith; depth = omega arith }
caps_loop-Above (f ∷ fs) c =
    let a = raise-Above c f in
    let b = caps_loop-Above fs (raise c f) in
    record { rate = omega (arith, a.rate, b.rate); depth = omega (arith, a.depth, b.depth) }

caps_loop-Under : (fs : List DataFormat) (c : Caps) → All (Under (caps_loop fs c)) fs
unfolding caps_loop
caps_loop-Under [] c = tt
caps_loop-Under (f ∷ fs) c =
    let b = caps_loop-Above fs (raise c f) in
    (
      λ h. let (r, d) = raise-Under c f h in (omega (arith, r, b.rate), omega (arith, d, b.depth)),
      caps_loop-Under fs (raise c f),
    )

-- A rate and a depth at most the caps that some known format of the list has.
abbrev pub HasRate : ℕ → List DataFormat → Type 0
HasRate n [] = ⊥
HasRate n (f ∷ fs) = ((known f ≡ true) × (f.sample_rate ≡ n)) ⊎ HasRate n fs

abbrev pub HasDepth : ℕ → List DataFormat → Type 0
HasDepth n [] = ⊥
HasDepth n (f ∷ fs) = ((known f ≡ true) × (format_bits f.format ≡ n)) ⊎ HasDepth n fs

raise-cases :
    (c : Caps) (f : DataFormat)
    → (((raise c f).max_sample_rate ≡ c.max_sample_rate)
        ⊎ ((known f ≡ true) × (f.sample_rate ≡ (raise c f).max_sample_rate)))
      × (((raise c f).max_bit_depth ≡ c.max_bit_depth)
          ⊎ ((known f ≡ true) × (format_bits f.format ≡ (raise c f).max_bit_depth)))
unfolding raise
raise-cases c f = elim (Bool-cases (known f)) [
  | inr k ↦ (inl (ground (arith, k)), inl (ground (arith, k)))
  | inl k ↦ (
    elim (Bool-cases (ltb c.max_sample_rate f.sample_rate)) [
      | inl e ↦ inr (k, ground (arith, k, e))
      | inr e ↦ inl (ground (arith, k, e))
    ],
    elim (Bool-cases (ltb c.max_bit_depth (format_bits f.format))) [
      | inl e ↦ inr (k, ground (arith, k, e))
      | inr e ↦ inl (ground (arith, k, e))
    ],
  )
]

caps_loop-attained :
    (fs : List DataFormat) (c : Caps)
    → (((caps_loop fs c).max_sample_rate ≡ c.max_sample_rate)
        ⊎ HasRate (caps_loop fs c).max_sample_rate fs)
      × (((caps_loop fs c).max_bit_depth ≡ c.max_bit_depth)
          ⊎ HasDepth (caps_loop fs c).max_bit_depth fs)
unfolding caps_loop
caps_loop-attained [] c = (inl refl, inl refl)
caps_loop-attained (f ∷ fs) c =
    let (r, d) = raise-cases c f in
    let (rs, ds) = caps_loop-attained fs (raise c f) in
    (
      elim rs [
        | inr h ↦ inr (inr h)
        | inl e ↦ elim r [ inl same ↦ inl (e ∙ same) | inr (k, is) ↦ inr (inl (k, is ∙ sym e)) ]
      ],
      elim ds [
        | inr h ↦ inr (inr h)
        | inl e ↦ elim d [ inl same ↦ inl (e ∙ same) | inr (k, is) ↦ inr (inl (k, is ∙ sym e)) ]
      ],
    )

-- The caps are the highest rate and the highest depth among the device's formats of a known kind:
-- each of those formats is within them, and each cap is one of theirs, or 0.
pub caps_from_formats_lem :
    (fs : List DataFormat)
    → All (Under (caps_from_formats fs)) fs
      × (((caps_from_formats fs).max_sample_rate ≡ 0)
          ⊎ HasRate (caps_from_formats fs).max_sample_rate fs)
      × (((caps_from_formats fs).max_bit_depth ≡ 0)
          ⊎ HasDepth (caps_from_formats fs).max_bit_depth fs)
unfolding caps_from_formats
caps_from_formats_lem fs =
    let c : Caps = record { max_sample_rate = 0; max_bit_depth = 0 } in
    let (r, d) = caps_loop-attained fs c in (caps_loop-Under fs c, r, d)
