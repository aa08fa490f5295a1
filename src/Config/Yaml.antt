-- ===== src/Config/Yaml.antt =====
-- The write-back of pkg/sendspin/config_common.go, and PersistStaticDelay of config_player.go. A
-- config is the list of nodes of its top-level mapping, keys and values in turn; reading, printing
-- and replacing the file are the yaml and os packages', whose failures are arguments.
use sendspin_go.Prelude.{
  ◌≡◌, ◌≢◌, refl, ap, ◌∙◌, inl, inr, Bool, true, false, List, [], ◌∷◌, Option, none, some,
  if◌then◌else◌, arith, Bool-cases, Option-cases,
}
use sendspin_go.Prelude.Int.{ℤ, eqb_ℤ}
use sendspin_go.Prelude.Text.{String, str_eq, eq_refl, eq_iff}

-- A node's text, with its comments, which no code here reads.
pub record Node : Type 0 where
  pub tag : String
  pub value : String
  pub comments : List String

unfoldable pub scalar : String → String → Node
scalar tag value = record { tag = tag; value = value; comments = [] }

-- setOrAppendScalarKey; the value node's kind and style are set too, which are not modelled.
unfoldable pub set_or_append_scalar_key : List Node → String → String → String → List Node
unfolding scalar
set_or_append_scalar_key (k ∷ v ∷ nodes) key value value_tag =
    let rest = set_or_append_scalar_key nodes key value value_tag in
    if str_eq k.value key
    then k ∷ record v { tag = value_tag; value = value } ∷ nodes
    else k ∷ v ∷ rest
set_or_append_scalar_key (k ∷ []) key value value_tag =
    k ∷ scalar "!!str" key ∷ scalar value_tag value ∷ []
set_or_append_scalar_key [] key value value_tag = scalar "!!str" key ∷ scalar value_tag value ∷ []

-- What a load reads at a key.
abbrev pub lookup : List Node → String → Option Node
lookup (k ∷ v ∷ nodes) key = if str_eq k.value key then some v else lookup nodes key
lookup (k ∷ []) key = none
lookup [] key = none

-- Every key has a value.
abbrev pub IsMapping : List Node → Type 0
IsMapping (k ∷ v ∷ nodes) = IsMapping nodes
IsMapping (k ∷ []) = ⊥
IsMapping [] = Unit

pub set_or_append-IsMapping :
    (nodes : List Node) (key value tag : String)
    → IsMapping nodes
    → IsMapping (set_or_append_scalar_key nodes key value tag)
unfolding set_or_append_scalar_key
set_or_append-IsMapping [] key value tag m = tt
set_or_append-IsMapping (k ∷ []) key value tag m = absurd m
set_or_append-IsMapping (k ∷ v ∷ nodes) key value tag m = elim (Bool-cases (str_eq k.value key)) [
  | inl e ↦ rw e m
  | inr e ↦ rw e (set_or_append-IsMapping nodes key value tag m)
]

abbrev pub text_of : Option Node → Option (String × String)
text_of none = none
text_of (some n) = some (n.tag, n.value)

-- After a write the key reads as the value that was written, with its tag, and every other key
-- reads as it did, with its comments.
pub lookup-set_or_append :
    (nodes : List Node) (key value tag : String)
    → IsMapping nodes
    → (text_of (lookup (set_or_append_scalar_key nodes key value tag) key) ≡ some (tag, value))
      × ((other : String)
          → key ≢ other
          → lookup (set_or_append_scalar_key nodes key value tag) other ≡ lookup nodes other)
unfolding set_or_append_scalar_key scalar
lookup-set_or_append [] key value tag m =
    (rw (eq_refl key) refl, λ other ne. ground (arith, eq_iff key other))
lookup-set_or_append (k ∷ []) key value tag m = absurd m
lookup-set_or_append (k ∷ v ∷ nodes) key value tag m =
    let (written, others) = lookup-set_or_append nodes key value tag m in
    elim (Bool-cases (str_eq k.value key)) [
      | inl e ↦ (
        ground (arith, e),
        λ other ne. ground (arith, e, eq_iff k.value key, eq_iff k.value other),
      )
      | inr e ↦ (ground (arith, e, written), λ other ne. ground (arith, e, others other ne))
    ]

-- What writing a config meets: the parse of the old file, none if it fails (a missing file parses
-- to no nodes), and whether the new one replaces it.
pub record Store : Type 0 where
  pub parsed : Option (List Node)
  pub replaces : Bool

-- writeScalarKey: the config that is on disk afterwards, and whether there was no error.
unfoldable pub write_scalar_key : Store → List Node → String → String → String → List Node × Bool
unfolding set_or_append_scalar_key
write_scalar_key s disk key value value_tag = elim s.parsed [
  | none ↦ (disk, false)
  | some nodes ↦
      if s.replaces
      then (set_or_append_scalar_key nodes key value value_tag, true)
      else (disk, false)
]

-- `itoa` is strconv.Itoa.
unfoldable pub write_int_key : (ℤ → String) → Store → List Node → String → ℤ → List Node × Bool
unfolding write_scalar_key
write_int_key itoa s disk key value = write_scalar_key s disk key (itoa value) "!!int"

unfoldable pub write_string_key : Store → List Node → String → String → List Node × Bool
unfolding write_scalar_key
write_string_key s disk key value = write_scalar_key s disk key value "!!str"

pub record Persisted : Type 0 where
  pub disk : List Node
  pub wrote : Bool
  pub succeeded : Bool

-- PersistStaticDelay, `current` the value that the config was loaded with.
unfoldable pub persist_static_delay : (ℤ → String) → Store → List Node → Option ℤ → ℤ → Persisted
unfolding write_int_key
persist_static_delay itoa s disk current value =
    let same : Bool = elim current [ none ↦ false | some c ↦ eqb_ℤ c value ] in
    if same
    then record { disk = disk; wrote = false; succeeded = true }
    else let (disk', ok) = write_int_key itoa s disk "static_delay_ms" value in
      record { disk = disk'; wrote = ok; succeeded = ok }

eqb_ℤ-eq : (a b : ℤ) → eqb_ℤ a b ≡ true → a ≡ b
eqb_ℤ-eq a b h = ground arith

-- Where the config was loaded from the file that is on disk, a delay that has been persisted without
-- an error is the one that the next load reads, whether or not the file had to be written; after an
-- error, or when the delay was the loaded one, the file is as it was.
pub lookup-persist_static_delay :
    (itoa : ℤ → String) (s : Store) (disk : List Node) (current : Option ℤ) (value : ℤ)
    → IsMapping disk
    → s.parsed ≡ some disk
    → ((c : ℤ)
        → current ≡ some c
        → text_of (lookup disk "static_delay_ms") ≡ some ("!!int", itoa c))
    → (let r = persist_static_delay itoa s disk current value in
        (r.succeeded ≡ true
          → text_of (lookup r.disk "static_delay_ms") ≡ some ("!!int", itoa value))
        × (r.wrote ≡ false → r.disk ≡ disk))
unfolding persist_static_delay write_int_key write_scalar_key
lookup-persist_static_delay itoa s disk current value m parsed loaded =
    let (written, others) = lookup-set_or_append disk "static_delay_ms" (itoa value) "!!int" m in
    elim (Option-cases current) [
      | inl e ↦ elim (Bool-cases s.replaces) [
        | inl r ↦ (λ h. ground (arith, e, r, parsed, written), λ h. ground (arith, e, r, parsed, h))
        | inr r ↦ (λ h. ground (arith, e, r, parsed, h), λ h. ground (arith, e, r, parsed))
      ]
      | inr (c, e) ↦ elim (Bool-cases (eqb_ℤ c value)) [
        | inl q ↦
            let same = loaded c e ∙ ap (λ z. some ("!!int", itoa z)) (eqb_ℤ-eq c value q) in
            (λ h. ground (arith, e, q, same), λ h. ground (arith, e, q))
        | inr q ↦ elim (Bool-cases s.replaces) [
          | inl r ↦ (
            λ h. ground (arith, e, q, r, parsed, written),
            λ h. ground (arith, e, q, r, parsed, h),
          )
          | inr r ↦ (λ h. ground (arith, e, q, r, parsed, h), λ h. ground (arith, e, q, r, parsed))
        ]
      ]
    ]
