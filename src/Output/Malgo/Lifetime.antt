-- ===== src/Output/Malgo/Lifetime.antt =====
-- The life of the playback device in pkg/audio/output/malgo.go: NewMalgo, Open, Close and the
-- volume.
use sendspin_go.Prelude.{
  ℕ, ◌≡◌, refl, sym, ap, ◌∙◌, ◌⊎◌, inl, inr, true, false, ◌&&◌, not, Option, none, some, arith,
  Bool-cases, Option-cases,
}
use sendspin_go.Prelude.Int.{ℤ, pos, eqb_ℤ, ◌≤ℤ◌}
use sendspin_go.Prelude.Text.{String}
use sendspin_go.Output.RingBuffer.{new_ring_buffer}
use sendspin_go.Output.Device.{PlaybackDevice, Match, match_device}
use sendspin_go.Output.Malgo.{
  Malgo, new_malgo, set_volume, close_device, close, OpenError, Backend, supported_depth,
  buffer_samples, start_device, choose_device, reopen, open_device,
}

-- A ready output has a device, a supported depth and a ring of 80 ms of its format.
pub record IsConsistent (m : Malgo) : Type 0 where
  pub both : m.ready ≡ m.device
  pub depth : m.ready ≡ true → supported_depth m.bit_depth ≡ true
  pub ring : m.ready ≡ true → pos m.ring_buffer.size ≡ buffer_samples m.sample_rate m.channels
  pub above : pos 0 ≤ℤ m.volume
  pub below : m.volume ≤ℤ pos 100

pub new_malgo-IsConsistent : (name : String) → IsConsistent (new_malgo name)
unfolding new_malgo
new_malgo-IsConsistent name = record {
  both = refl;
  depth = λ h. ground arith;
  ring = λ h. ground arith;
  above = omega arith;
  below = omega arith;
}

pub set_volume-IsConsistent :
    (m : Malgo) (volume : ℤ) → IsConsistent m → IsConsistent (set_volume m volume)
unfolding set_volume
set_volume-IsConsistent m volume c = record {
  both = c.both;
  depth = c.depth;
  ring = c.ring;
  above = ground arith;
  below = ground arith;
}

-- A closed output keeps its volume, and nothing else matters.
closed-IsConsistent :
    (m : Malgo)
    → m.ready ≡ false
    → m.device ≡ false
    → pos 0 ≤ℤ m.volume
    → m.volume ≤ℤ pos 100
    → IsConsistent m
closed-IsConsistent m r d lo hi = record {
  both = r ∙ sym d;
  depth = λ h. ground (arith, r, h);
  ring = λ h. ground (arith, r, h);
  above = lo;
  below = hi;
}

module _ (m : Malgo) (c : IsConsistent m) where
  close_device-fields :
      ((close_device m).ready ≡ false)
      × ((close_device m).device ≡ false)
      × ((close_device m).volume ≡ m.volume)
      × ((close_device m).device_name ≡ m.device_name)
  unfolding close_device
  close_device-fields = ground (arith, c.both)

  pub close-IsConsistent : IsConsistent (close m)
  unfolding close
  close-IsConsistent =
      let (r, d, v, n) = close_device-fields in
      closed-IsConsistent _ r d (rw v c.above) (rw v c.below)

Match-cases :
    (x : Match)
    → (((p : PlaybackDevice) × (x ≡ Match.found p)) ⊎ (x ≡ Match.library_default))
      ⊎ ((x ≡ Match.not_found) ⊎ ((n : ℕ) × (x ≡ Match.ambiguous n)))
Match-cases (Match.found p) = inl (inl (p, refl))
Match-cases Match.library_default = inl (inr refl)
Match-cases Match.not_found = inr (inl refl)
Match-cases (Match.ambiguous n) = inr (inr (n, refl))

-- Where Open ends: ready in the format asked for, or not ready, with an error.
pub data Opened (sample_rate channels bit_depth : ℤ) (m : Malgo) : Option OpenError → Type 0 where
  is_ready :
      m.ready ≡ true
      → m.sample_rate ≡ sample_rate
      → m.channels ≡ channels
      → m.bit_depth ≡ bit_depth
      → Opened sample_rate channels bit_depth m none
  is_closed : (e : OpenError) → m.ready ≡ false → Opened sample_rate channels bit_depth m (some e)

module _ (m : Malgo) (r c d : ℤ) (b : Backend) where
  in_format : Malgo
  in_format = record m { device = true; sample_rate = r; channels = c; bit_depth = d; ready = true }

  start_device-cases :
      ((e : OpenError) × (start_device m r c d b ≡ (m, some e)))
      ⊎ (start_device m r c d b ≡ (in_format, none))
  unfolding start_device in_format
  start_device-cases = elim (Bool-cases b.makes_device) [
    | inr e ↦ inl (OpenError.device_failed, ground (arith, e))
    | inl e ↦ elim (Bool-cases b.starts) [
      | inr s ↦ inl (OpenError.start_failed, ground (arith, e, s))
      | inl s ↦ inr (ground (arith, e, s))
    ]
  ]

  choose_device-cases :
      ((e : OpenError) × (choose_device m r c d b ≡ (m, some e)))
      ⊎ (choose_device m r c d b ≡ (in_format, none))
  unfolding choose_device
  choose_device-cases = elim (Option-cases b.lists) [
    | inl e ↦ inl (OpenError.enumeration_failed, ground (arith, e))
    | inr (catalog, e) ↦ elim (Match-cases (match_device catalog m.device_name)) [
      | inl starts ↦ elim start_device-cases [
        | inl (err, s) ↦ inl (err, ground (arith, e, starts, s))
        | inr s ↦ inr (ground (arith, e, starts, s))
      ]
      | inr fails ↦
          inl (OpenError.no_device (match_device catalog m.device_name), ground (arith, e, fails))
    ]
  ]

eqb_ℤ-eq : (a b : ℤ) → eqb_ℤ a b ≡ true → a ≡ b
eqb_ℤ-eq a b h = ground arith

-- The output with a context and a ring of `n` slots.
module _ (m : Malgo) (r c d : ℤ) (b : Backend) (n : ℕ) (fits : buffer_samples r c ≡ pos n) where
  ringed : Malgo
  ringed = record m { context_made = true; ring_buffer = new_ring_buffer n }

  reopen-chosen :
      (not m.context_made && not b.makes_context) ≡ false
      → supported_depth d ≡ true
      → reopen m r c d b ≡ some (choose_device ringed r c d b)
  unfolding reopen ringed
  reopen-chosen made depth = ground (arith, made, depth, fits)

  module _ (off : m.ready ≡ false) (gone : m.device ≡ false) (lo : pos 0 ≤ℤ m.volume)
      (hi : m.volume ≤ℤ pos 100) where
    in_format-IsConsistent : supported_depth d ≡ true → IsConsistent (in_format ringed r c d b)
    unfolding in_format ringed new_ring_buffer
    in_format-IsConsistent depth = record {
      both = refl;
      depth = λ h. depth;
      ring = λ h. sym fits;
      above = lo;
      below = hi;
    }

    reopen-Opened :
        (m' : Malgo) × (e : Option OpenError) × (reopen m r c d b ≡ some (m', e))
        × Opened r c d m' e
        × IsConsistent m'
    unfolding reopen in_format ringed
    reopen-Opened = elim (Bool-cases (not m.context_made && not b.makes_context)) [
      | inl made ↦ (
        m,
        some OpenError.context_failed,
        ground (arith, made),
        is_closed OpenError.context_failed off,
        closed-IsConsistent m off gone lo hi,
      )
      | inr made ↦ elim (Bool-cases (supported_depth d)) [
        | inr depth ↦ (
          record m { context_made = true },
          some OpenError.unsupported_bit_depth,
          ground (arith, made, depth),
          is_closed OpenError.unsupported_bit_depth off,
          closed-IsConsistent (record m { context_made = true }) off gone lo hi,
        )
        | inl depth ↦
            let chosen = reopen-chosen made depth in
            elim (choose_device-cases ringed r c d b) [
              | inl (e, fails) ↦ (
                ringed,
                some e,
                chosen ∙ ap some fails,
                is_closed e off,
                closed-IsConsistent ringed off gone lo hi,
              )
              | inr starts ↦ (
                in_format ringed r c d b,
                none,
                chosen ∙ ap some starts,
                is_ready refl refl refl refl,
                in_format-IsConsistent depth,
              )
            ]
      ]
    ]

-- Where the format's ring has no negative size, Open never panics and keeps the output consistent.
-- With no error the output is ready in the format asked for; with any error it is not ready, even
-- where it was before.
pub open_device-Opened :
    (m : Malgo) (r c d : ℤ) (b : Backend) (n : ℕ)
    → buffer_samples r c ≡ pos n
    → IsConsistent m
    → (m' : Malgo) × (e : Option OpenError) × (open_device m r c d b ≡ some (m', e))
      × Opened r c d m' e
      × IsConsistent m'
unfolding open_device
open_device-Opened m r c d b n fits v =
    let same = m.device && (eqb_ℤ m.sample_rate r && (eqb_ℤ m.channels c && eqb_ℤ m.bit_depth d)) in
    elim (Bool-cases same) [
      | inl e ↦ (
        m,
        none,
        ground (arith, e),
        is_ready (ground (arith, v.both, e)) (eqb_ℤ-eq _ _ (ground (arith, e)))
            (eqb_ℤ-eq _ _ (ground (arith, e))) (eqb_ℤ-eq _ _ (ground (arith, e))),
        v,
      )
      | inr e ↦
          let (off, gone, vol, name) = close_device-fields m v in
          let (m', err, runs, ok, valid) =
            reopen-Opened (close_device m) r c d b n fits off gone (rw vol v.above)
              (rw vol v.below) in
          (m', err, ground (arith, e, runs), ok, valid)
    ]

pub close-ready : (m : Malgo) → IsConsistent m → (close m).ready ≡ false
unfolding close
close-ready m c = (close_device-fields m c).0
