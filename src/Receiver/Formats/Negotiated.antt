-- ===== src/Receiver/Formats/Negotiated.antt =====
-- The formats that a player of pkg/sendspin/receiver.go advertises, and the codec that the server's
-- negotiateCodec picks from them.
use mathlib.Core.Path.{ap₂}
use mathlib.Core.List.{append_assoc, append-nil}
use sendspin_go.Prelude.{
  ◌≡◌, ◌≢◌, ◌⊎◌, refl, sym, ap, ◌∙◌, inl, inr, Bool, true, false, not, ◌&&◌, List, [], ◌∷◌, ◌++◌,
  arith, if◌then◌else◌, All, Bool-cases,
}
use sendspin_go.Prelude.Int.{ℤ, pos, ◌≤ℤ◌}
use sendspin_go.Prelude.Text.{String, str_eq, eq_iff}
use sendspin_go.Roles.{AudioFormat, ServerClient, negotiate_codec}
use sendspin_go.Roles.Negotiation.{
  acceptable, first_acceptable, codec_of, formats, negotiate_codec_lem,
}
use sendspin_go.Receiver.Formats.{
  stereo, coded_formats, all_formats, within, filter_loop, prefer_loop, build_supported_formats,
}

abbrev pub select : (AudioFormat → Bool) → List AudioFormat → List AudioFormat
select p [] = []
select p (f ∷ fs) = if p f then f ∷ select p fs else select p fs

abbrev pub of_codec : String → AudioFormat → Bool
of_codec codec f = str_eq f.codec codec

filter_loop_lem :
    (fs : List AudioFormat) (r d : ℤ) (acc : List AudioFormat)
    → filter_loop fs r d acc ≡ acc ++ select (within r d) fs
unfolding filter_loop
filter_loop_lem [] r d acc = sym (append-nil acc)
filter_loop_lem (f ∷ fs) r d acc = elim (Bool-cases (within r d f)) [
  | inl e ↦
      rw e (
        filter_loop_lem fs r d (acc ++ f ∷ []) ∙ append_assoc acc (f ∷ []) (select (within r d) fs))
  | inr e ↦ rw e (filter_loop_lem fs r d acc)
]

prefer_loop_lem :
    (fs : List AudioFormat) (codec : String) (p q : List AudioFormat)
    → prefer_loop fs codec p q
      ≡ (p ++ select (of_codec codec) fs) ++ (q ++ select (λ f. not (of_codec codec f)) fs)
unfolding prefer_loop
prefer_loop_lem [] codec p q = ap₂ ◌++◌ (sym (append-nil p)) (sym (append-nil q))
prefer_loop_lem (f ∷ fs) codec p q = elim (Bool-cases (str_eq f.codec codec)) [
  | inl e ↦ rw e (
      prefer_loop_lem fs codec (p ++ f ∷ []) q
      ∙ ap (λ l. l ++ (q ++ select (λ g. not (of_codec codec g)) fs))
          (append_assoc p (f ∷ []) (select (of_codec codec) fs)))
  | inr e ↦ rw e (
      prefer_loop_lem fs codec p (q ++ f ∷ [])
      ∙ ap (◌++◌ (p ++ select (of_codec codec) fs))
          (append_assoc q (f ∷ []) (select (λ g. not (of_codec codec g)) fs)))
]

-- The advertised list is the formats that the caps allow, in the order of the table, those of the
-- preferred codec, if there is one, before the others.
pub build_supported_formats_lem :
    (codec : String) (r d : ℤ)
    → build_supported_formats codec r d ≡ (
        let allowed = select (within r d) all_formats in
        if str_eq codec ""
        then allowed
        else select (of_codec codec) allowed ++ select (λ f. not (of_codec codec f)) allowed)
unfolding build_supported_formats
build_supported_formats_lem codec r d =
    let allowed = filter_loop_lem all_formats r d [] in
    rw (allowed, prefer_loop_lem (select (within r d) all_formats) codec [] []) refl

-- A codec that the server always takes is chosen when it comes first.
first_of_codec :
    (fs rest : List AudioFormat) (codec : String) (rate : ℤ)
    → (codec ≡ "flac") ⊎ (codec ≡ "opus")
    → select (of_codec codec) fs ≢ []
    → codec_of (first_acceptable rate (select (of_codec codec) fs ++ rest)) ≡ codec
first_of_codec [] rest codec rate k some_left = absurd (some_left refl)
first_of_codec (f ∷ fs) rest codec rate k some_left = elim (Bool-cases (str_eq f.codec codec)) [
  | inr e ↦ rw e (
      first_of_codec fs rest codec rate k (λ z.
        some_left (
          ap (λ b. if b then f ∷ select (of_codec codec) fs else select (of_codec codec) fs) e
          ∙ z)))
  | inl e ↦
      let same : f.codec ≡ codec = (eq_iff f.codec codec).0 e in
      let taken : acceptable rate f ≡ true = elim k [
        | inl flac ↦ rw (same, flac) refl
        | inr opus ↦ rw (same, opus) refl
      ] in
      rw (e, taken) same
]

-- A player that prefers FLAC or Opus, and advertises at least one format of it, gets it from the
-- server, whatever the rate of the source.
pub preferred-chosen :
    (c : ServerClient) (codec : String) (r d rate : ℤ)
    → formats c ≡ build_supported_formats codec r d
    → (codec ≡ "flac") ⊎ (codec ≡ "opus")
    → select (of_codec codec) (select (within r d) all_formats) ≢ []
    → negotiate_codec c rate ≡ codec
preferred-chosen c codec r d rate hello k some_left =
    let allowed = select (within r d) all_formats in
    let named : str_eq codec "" ≡ false = elim k [
      | inl flac ↦ rw flac refl
      | inr opus ↦ rw opus refl
    ] in
    negotiate_codec_lem c rate
    ∙ ap (λ l. codec_of (first_acceptable rate l))
        {y = select (of_codec codec) allowed ++ select (λ f. not (of_codec codec f)) allowed}
        (hello ∙ build_supported_formats_lem codec r d ∙ rw named refl)
    ∙ first_of_codec allowed (select (λ f. not (of_codec codec f)) allowed) codec rate k some_left

select-All :
    (P : AudioFormat → Type 0) (p : AudioFormat → Bool) (fs : List AudioFormat)
    → All P fs
    → All P (select p fs)
select-All P p [] h = tt
select-All P p (f ∷ fs) h = elim (Bool-cases (p f)) [
  | inl e ↦ rw e (h.0, select-All P p fs h.1)
  | inr e ↦ rw e (select-All P p fs h.1)
]

-- None of the selected formats is acceptable.
skip_selected :
    (p : AudioFormat → Bool) (fs rest : List AudioFormat) (rate : ℤ)
    → All (λ f. (p f && acceptable rate f) ≡ false) fs
    → first_acceptable rate (select p fs ++ rest) ≡ first_acceptable rate rest
skip_selected p [] rest rate h = refl
skip_selected p (f ∷ fs) rest rate h = elim (Bool-cases (p f)) [
  | inr e ↦ rw e (skip_selected p fs rest rate h.1)
  | inl e ↦
      let refused : acceptable rate f ≡ false = ground (arith, e, h.0) in
      rw (e, refused) (skip_selected p fs rest rate h.1)
]

select-select :
    (p q : AudioFormat → Bool) (fs : List AudioFormat)
    → select p (select q fs) ≡ select q (select p fs)
select-select p q [] = refl
select-select p q (f ∷ fs) = ground (arith, select-select p q fs)

-- The rates whose PCM format has 16 bits.
abbrev pub IsCdRate : ℤ → Type 0
IsCdRate rate = (rate ≡ pos 48000) ⊎ (rate ≡ pos 44100)

pcm_refused :
    (rate : ℤ)
    → IsCdRate rate
    → All (λ f. (of_codec "pcm" f && acceptable rate f) ≡ false) all_formats
pcm_refused rate (inl e) =
    rw e (refl, (refl, (refl, (refl, (refl, (refl, (refl, (refl, (refl, (refl, (refl, tt)))))))))))
pcm_refused rate (inr e) =
    rw e (refl, (refl, (refl, (refl, (refl, (refl, (refl, (refl, (refl, (refl, (refl, tt)))))))))))

-- A cap that lets 44.1 kHz, or 16 bits, through.
abbrev pub Allows : ℤ → ℤ → Type 0
Allows need cap = (cap ≤ℤ pos 0) ⊎ (need ≤ℤ cap)

allowed_cd :
    (r d : ℤ)
    → Allows (pos 44100) r
    → Allows (pos 16) d
    → within r d (stereo "flac" (pos 44100) (pos 16)) ≡ true
unfolding within
allowed_cd r d (inl a) (inl b) = ground arith
allowed_cd r d (inl a) (inr b) = ground arith
allowed_cd r d (inr a) (inl b) = ground arith
allowed_cd r d (inr a) (inr b) = ground arith

flac_first :
    (r d rate : ℤ)
    → Allows (pos 44100) r
    → Allows (pos 16) d
    → codec_of (first_acceptable rate (select (within r d) coded_formats)) ≡ "flac"
flac_first r d rate hr hd = elim (Bool-cases (within r d (stereo "flac" (pos 192000) (pos 24)))) [
  | inl e ↦ rw e refl
  | inr e ↦ elim (Bool-cases (within r d (stereo "flac" (pos 96000) (pos 24)))) [
    | inl e' ↦ rw (e, e') refl
    | inr e' ↦ elim (Bool-cases (within r d (stereo "flac" (pos 48000) (pos 24)))) [
      | inl e'' ↦ rw (e, e', e'') refl
      | inr e'' ↦
          let last : within r d (stereo "flac" (pos 44100) (pos 16)) ≡ true =
            allowed_cd r d hr hd in
          rw (e, e', e'', last) refl
    ]
  ]
]

-- A player that prefers PCM never gets it for a source of 48 or 44.1 kHz: it advertises those rates
-- at 16 bits only, the server takes PCM at 24 bits only, and so it picks FLAC.
pub preferred-pcm :
    (c : ServerClient) (r d rate : ℤ)
    → formats c ≡ build_supported_formats "pcm" r d
    → IsCdRate rate
    → Allows (pos 44100) r
    → Allows (pos 16) d
    → negotiate_codec c rate ≡ "flac"
preferred-pcm c r d rate hello cd hr hd =
    let w = within r d in
    let pcm = of_codec "pcm" in
    let allowed = select w all_formats in
    let others : select (λ f. not (pcm f)) allowed ≡ select w coded_formats =
      select-select (λ f. not (pcm f)) w all_formats in
    negotiate_codec_lem c rate
    ∙ ap (λ l. codec_of (first_acceptable rate l)) (hello ∙ build_supported_formats_lem "pcm" r d)
    ∙ ap codec_of (
        skip_selected pcm allowed (select (λ f. not (pcm f)) allowed) rate (
          select-All (λ f. (pcm f && acceptable rate f) ≡ false) w all_formats
            (pcm_refused rate cd)))
    ∙ ap (λ l. codec_of (first_acceptable rate l)) others
    ∙ flac_first r d rate hr hd
