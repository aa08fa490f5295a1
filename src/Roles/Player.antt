-- ===== src/Roles/Player.antt =====
-- OnClientJoin of the player role, pkg/sendspin/role_player.go.
use sendspin_go.Prelude.{
  ◌≡◌, refl, sym, ◌<◌, ◌⊎◌, ◌↔◌, inl, inr, true, false, [], ◌∷◌, ◌++◌, Option, none, some, arith,
  if◌then◌else◌, Option-cases, ℕ, length,
}
use sendspin_go.Prelude.Int.{ℤ, pos, quot_ℤ, eqb_ℤ, ◌≤ℤ◌}
use sendspin_go.Prelude.Int64.{mul64, max_int64}
use sendspin_go.Prelude.Text.{String, str_eq, eq_iff}
use sendspin_go.BufferTracker.{BufferTracker, new_buffer_tracker, initial_cap}
use sendspin_go.BufferTracker.Budget.{WithinBudget, new-WithinBudget}
use sendspin_go.Roles.{
  ServerClient, stream_start, StreamStartPlayer, send_chan_size, has_role, send, negotiate_codec,
  chunk_duration_ms, PlayerRoleConfig, Setup, pcm_setup, set_up_opus, set_up_flac, set_up,
  buffer_capacity, start_message, player_on_client_join,
}
use sendspin_go.Roles.Negotiation.{
  codec_of, first_acceptable, formats, IsCodec, negotiate_loop_lem, negotiated, negotiate_codec_lem,
}

-- A client's codec and what encodes for it: an encoder for exactly that codec, and a resampler only
-- for Opus from another rate.
pub record Matches (rate : ℤ) (codec : String) (opus flac resampler : Option ℕ) : Type 0 where
  pub known : IsCodec codec
  pub for_opus : (codec ≡ "opus") ↔ ((e : ℕ) × (opus ≡ some e))
  pub for_flac : (codec ≡ "flac") ↔ ((e : ℕ) × (flac ≡ some e))
  pub resampled :
      ((x : ℕ) × (resampler ≡ some x)) ↔ ((codec ≡ "opus") × (eqb_ℤ rate (pos 48000) ≡ false))

no_some : (x : ℕ) → ◌≡◌ {A = Option ℕ} none (some x) → ⊥
no_some x e = ground arith

pcm≢opus : ◌≡◌ {A = String} "pcm" "opus" → ⊥
pcm≢opus e = ground (arith, eq_iff "pcm" "opus")

pcm≢flac : ◌≡◌ {A = String} "pcm" "flac" → ⊥
pcm≢flac e = ground (arith, eq_iff "pcm" "flac")

opus≢flac : ◌≡◌ {A = String} "opus" "flac" → ⊥
opus≢flac e = ground (arith, eq_iff "opus" "flac")

abbrev pub Fitting : ℤ → Setup → Type 0
Fitting rate s = Matches rate s.codec s.opus_encoder s.flac_encoder s.resampler

pcm-Fitting : (rate : ℤ) → Fitting rate pcm_setup
pcm-Fitting rate = record {
  known = inl refl;
  for_opus = (λ e. absurd (pcm≢opus e), λ p. absurd (no_some p.0 p.1));
  for_flac = (λ e. absurd (pcm≢flac e), λ p. absurd (no_some p.0 p.1));
  resampled = (λ p. absurd (no_some p.0 p.1), λ p. absurd (pcm≢opus p.0));
}

pub flac-Fitting :
    (rate : ℤ) (e : ℕ)
    → Fitting rate
        (record { codec = "flac"; opus_encoder = none; flac_encoder = some e; resampler = none })
flac-Fitting rate e = record {
  known = inr (inl refl);
  for_opus = (λ p. absurd (opus≢flac (sym p)), λ p. absurd (no_some p.0 p.1));
  for_flac = (λ p. (e, refl), λ p. refl);
  resampled = (λ p. absurd (no_some p.0 p.1), λ p. absurd (opus≢flac (sym p.0)));
}

opus-Fitting :
    (rate : ℤ) (e x : ℕ)
    → Fitting rate (record {
      codec = "opus";
      opus_encoder = some e;
      flac_encoder = none;
      resampler = if eqb_ℤ rate (pos 48000) then none else some x;
    })
opus-Fitting rate e x = record {
  known = inr (inr refl);
  for_opus = (λ p. (e, refl), λ p. refl);
  for_flac = (λ p. absurd (opus≢flac p), λ p. absurd (no_some p.0 p.1));
  resampled = (λ (y, p). (refl, ground arith), λ (p, q). (x, ground arith));
}

abbrev samples : PlayerRoleConfig → ℤ
samples r = quot_ℤ (mul64 r.sample_rate chunk_duration_ms) 1000

module _ (new_resampler : ℤ → ℤ → ℤ → ℕ) (codec_header : ℕ → String) where
  set_up_opus-Fitting :
      (r : PlayerRoleConfig) → Fitting r.sample_rate (set_up_opus new_resampler codec_header r)
  unfolding set_up_opus
  set_up_opus-Fitting r = elim (Option-cases r.new_encoder) [
    | inl e ↦ rw (e, set_up_opus) (pcm-Fitting r.sample_rate)
    | inr (make, e) ↦
        elim (Option-cases
          (make (pos 48000) r.channels (quot_ℤ (mul64 (pos 48000) chunk_duration_ms) 1000))) [
            | inl f ↦ rw (e, f, set_up_opus) (pcm-Fitting r.sample_rate)
            | inr (x, f) ↦
                rw (e, f, set_up_opus)
                  (opus-Fitting r.sample_rate x
                    (new_resampler r.sample_rate (pos 48000) r.channels))
          ]
  ]

  set_up_flac-Fitting :
      (r : PlayerRoleConfig) → Fitting r.sample_rate (set_up_flac new_resampler codec_header r)
  unfolding set_up_flac
  set_up_flac-Fitting r = elim (Option-cases r.new_flac_encoder) [
    | inl e ↦ rw (e, set_up_flac) (pcm-Fitting r.sample_rate)
    | inr (make, e) ↦ elim (Option-cases (make r.sample_rate r.channels r.bit_depth (samples r))) [
      | inl f ↦ rw (e, f, set_up_flac) (pcm-Fitting r.sample_rate)
      | inr (x, f) ↦ rw (e, f, set_up_flac) (flac-Fitting r.sample_rate x)
    ]
  ]

  set_up_opus-codec :
      (r : PlayerRoleConfig)
      → ((set_up_opus new_resampler codec_header r).codec ≡ "pcm")
        ⊎ ((set_up_opus new_resampler codec_header r).codec ≡ "opus")
  unfolding set_up_opus
  set_up_opus-codec r = ground arith

  set_up_flac-codec :
      (r : PlayerRoleConfig)
      → ((set_up_flac new_resampler codec_header r).codec ≡ "pcm")
        ⊎ ((set_up_flac new_resampler codec_header r).codec ≡ "flac")
  unfolding set_up_flac
  set_up_flac-codec r = ground arith

  set_up-Fitting :
      (r : PlayerRoleConfig) (codec : String)
      → IsCodec codec
      → Fitting r.sample_rate (set_up new_resampler codec_header r codec)
        × (((set_up new_resampler codec_header r codec).codec ≡ "pcm")
            ⊎ ((set_up new_resampler codec_header r codec).codec ≡ codec))
  unfolding set_up
  set_up-Fitting r codec h = elim h [
    | inl pcm ↦ rw pcm (pcm-Fitting r.sample_rate, inl refl)
    | inr (inl flac) ↦ rw flac (set_up_flac-Fitting r, set_up_flac-codec r)
    | inr (inr opus) ↦ rw opus (set_up_opus-Fitting r, set_up_opus-codec r)
  ]

new_tracker : (capacity : ℤ) → capacity ≤ℤ max_int64 → WithinBudget (new_buffer_tracker capacity)
unfolding new_buffer_tracker
new_tracker capacity fits = new-WithinBudget initial_cap capacity (omega arith) fits

-- What a player has after it joined: a codec with its encoder, a tracker within its budget, and one
-- stream/start more in its queue that names the codec.
pub record Started (r : PlayerRoleConfig) (c c' : ServerClient) : Type 0 where
  pub fitting : Matches r.sample_rate c'.codec c'.opus_encoder c'.flac_encoder c'.resampler
  pub chosen :
      (c'.codec ≡ "pcm") ⊎ (c'.codec ≡ codec_of (first_acceptable r.sample_rate (formats c)))
  pub tracked : (t : BufferTracker) × (c'.buffer_tracker ≡ some t) × WithinBudget t
  pub told :
      (m : StreamStartPlayer) × (c'.send_chan ≡ c.send_chan ++ stream_start m ∷ [])
      × (m.codec ≡ c'.codec)
      × (m.sample_rate ≡ (if str_eq c'.codec "opus" then pos 48000 else r.sample_rate))

module _ (new_resampler : ℤ → ℤ → ℤ → ℕ) (codec_header : ℕ → String) where
  join-player :
      (r : PlayerRoleConfig) (c : ServerClient) (s : Setup)
      → has_role c "player" ≡ true
      → length c.send_chan < send_chan_size
      → set_up new_resampler codec_header r (negotiate_codec c r.sample_rate) ≡ s
      → player_on_client_join new_resampler codec_header r c ≡ record c {
        codec = s.codec;
        opus_encoder = s.opus_encoder;
        flac_encoder = s.flac_encoder;
        resampler = s.resampler;
        buffer_tracker = some (new_buffer_tracker (buffer_capacity new_resampler codec_header c));
        send_chan = c.send_chan ++ stream_start (start_message new_resampler codec_header r s) ∷ [];
      }
  unfolding player_on_client_join send
  join-player r c s p h e = ground arith

  negotiated-Setup :
      (r : PlayerRoleConfig) (c : ServerClient)
      → Fitting r.sample_rate
          (set_up new_resampler codec_header r (negotiate_codec c r.sample_rate))
        × (((set_up new_resampler codec_header r (negotiate_codec c r.sample_rate)).codec ≡ "pcm")
            ⊎ ((set_up new_resampler codec_header r (negotiate_codec c r.sample_rate)).codec
                ≡ codec_of (first_acceptable r.sample_rate (formats c))))
  negotiated-Setup r c =
      let same = negotiate_codec_lem c r.sample_rate in
      let known : IsCodec (codec_of (first_acceptable r.sample_rate (formats c))) =
        rw⁻¹ (negotiate_loop_lem (formats c) r.sample_rate)
          (negotiated (formats c) r.sample_rate) in
      rw same (set_up-Fitting new_resampler codec_header r _ known)

  -- A client of the player role whose queue has room, and whose buffer capacity is an int64, gets
  -- on joining: the codec of its first acceptable format or PCM, with an encoder for exactly that
  -- codec and a resampler exactly for Opus from another rate; a tracker within its limits;
  -- and one stream/start, which names that codec and the rate that is sent.
  pub player_on_client_join_lem :
      (r : PlayerRoleConfig) (c : ServerClient)
      → has_role c "player" ≡ true
      → length c.send_chan < send_chan_size
      → buffer_capacity new_resampler codec_header c ≤ℤ max_int64
      → Started r c (player_on_client_join new_resampler codec_header r c)
  unfolding start_message
  player_on_client_join_lem r c p room fits =
      let s = set_up new_resampler codec_header r (negotiate_codec c r.sample_rate) in
      let (fit, chosen) = negotiated-Setup r c in
      let capacity = buffer_capacity new_resampler codec_header c in
      rw (join-player r c s p room refl) (record {
        fitting = fit;
        chosen = chosen;
        tracked = (new_buffer_tracker capacity, refl, new_tracker capacity fits);
        told = (start_message new_resampler codec_header r s, refl, refl, refl);
      })
