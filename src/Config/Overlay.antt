-- ===== src/Config/Overlay.antt =====
-- ApplyEnvAndFile of pkg/sendspin/config_common.go: flags that the command line has not set take
-- their value from the environment or the file. strings.ToUpper, the environment and the flags' own
-- parsers are parameters.
use Prim.Native.String.{[] as empty_text, ◌∷◌ as text_cons}
use Prim.Native.Char.{char, code}
use sendspin_go.Prelude.{
  ◌≡◌, refl, sym, ap, ◌∙◌, inl, inr, Bool, true, false, List, [], ◌∷◌, Option, none, some, ◌==◌,
  if◌then◌else◌, arith, Option-cases,
}
use sendspin_go.Prelude.Text.{String, text_append}

pub record Flag : Type 0 where
  pub name : String
  pub value : String

-- strings.ReplaceAll(s, "-", "_")
unfoldable pub underscored : String → String
underscored empty_text = empty_text
underscored (text_cons c s) = text_cons (if code c == 45 then char 95 tt else c) (underscored s)

-- The two errors, with the flag's name.
pub data OverlayError : Type 0 where
  bad_env : String → OverlayError
  bad_config : String → OverlayError

-- `parse name text` is what the Set of the flag's value stores, and whether it returns no error: an
-- int, bool or duration flag stores a value even with an error.
pub record Sources : Type 0 where
  pub set_by_user : String → Bool
  pub to_upper : String → String
  pub lookup_env : String → Option String
  pub env_prefix : String
  pub file_values : String → Option String
  pub parse : String → String → String × Bool

unfoldable pub env_key : Sources → Flag → String
unfolding underscored
env_key s f = text_append s.env_prefix (s.to_upper (underscored f.name))

-- fs.Set and its error.
unfoldable pub set_flag : Sources → Flag → String → OverlayError → Flag × Option OverlayError
set_flag s f text error =
    let (v, ok) = s.parse f.name text in (record f { value = v }, if ok then none else some error)

-- The body of the visit of one flag.
unfoldable pub visit : Sources → Flag → Flag × Option OverlayError
unfolding env_key set_flag underscored
visit s f = if s.set_by_user f.name then (f, none) else elim (s.lookup_env (env_key s f)) [
  | some text ↦ set_flag s f text (bad_env f.name)
  | none ↦ elim (s.file_values (underscored f.name)) [
    | some text ↦ set_flag s f text (bad_config f.name)
    | none ↦ (f, none)
  ]
]

-- The flags in the order of VisitAll; after an error the others are left alone.
unfoldable pub apply_env_and_file : Sources → List Flag → List Flag × Option OverlayError
unfolding visit
apply_env_and_file s [] = ([], none)
apply_env_and_file s (f ∷ fs) =
    let rest = apply_env_and_file s fs in
    let (f', e) = visit s f in
    elim e [ some error ↦ (f' ∷ fs, some error) | none ↦ (f' ∷ rest.0, rest.1) ]

-- What the precedence gives a flag: none where the command line has set it or no source names it.
abbrev pub chosen : Sources → Flag → Option String
chosen s f = if s.set_by_user f.name then none else elim (s.lookup_env (env_key s f)) [
  | some text ↦ some text
  | none ↦ s.file_values (underscored f.name)
]

-- The flag as the precedence wants it.
abbrev pub settled : Sources → Flag → Flag
settled s f = elim (chosen s f) [
  | none ↦ f
  | some text ↦ record f { value = (s.parse f.name text).0 }
]

abbrev pub parses : Sources → Flag → Bool
parses s f = elim (chosen s f) [ none ↦ true | some text ↦ (s.parse f.name text).1 ]

abbrev pub is_none : Option OverlayError → Bool
is_none none = true
is_none (some e) = false

visit_lem :
    (s : Sources) (f : Flag) → ((visit s f).0 ≡ settled s f) × (is_none (visit s f).1 ≡ parses s f)
unfolding visit set_flag
visit_lem s f = (ground arith, ground arith)

-- The flags up to the first whose text does not parse, that one included, and the others as they are.
abbrev pub overlaid : Sources → List Flag → List Flag
overlaid s [] = []
overlaid s (f ∷ fs) = settled s f ∷ (if parses s f then overlaid s fs else fs)

abbrev pub all_parse : Sources → List Flag → Bool
all_parse s [] = true
all_parse s (f ∷ fs) = if parses s f then all_parse s fs else false

-- Each flag that the command line has not set takes its value from the environment, or else from the
-- file, or else keeps its default; flags set on the command line keep theirs. The first text that
-- does not parse stops the overlay, with an error: that flag has what its Set stored, and the later
-- ones are as they were; there is no error if every text parses.
pub apply_env_and_file_lem :
    (s : Sources) (fs : List Flag)
    → ((apply_env_and_file s fs).0 ≡ overlaid s fs)
      × (is_none (apply_env_and_file s fs).1 ≡ all_parse s fs)
unfolding apply_env_and_file
apply_env_and_file_lem s [] = (refl, refl)
apply_env_and_file_lem s (f ∷ fs) =
    let (rest, err) = apply_env_and_file_lem s fs in
    let (same, ok) = visit_lem s f in
    elim (Option-cases (visit s f).1) [
      | inl e ↦
          let p : parses s f ≡ true = sym ok ∙ ap is_none e in
          (ground (arith, e, rest, same, p), ground (arith, e, err, p))
      | inr (error, e) ↦
          let p : parses s f ≡ false = sym ok ∙ ap is_none e in
          (ground (arith, e, same, p), ground (arith, e, p))
    ]
