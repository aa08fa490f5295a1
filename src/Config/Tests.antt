-- ===== src/Config/Tests.antt =====
-- The configuration of pkg/sendspin on concrete flags and files.
use sendspin_go.Prelude.{◌≡◌, ◌≢◌, refl, true, false, List, [], ◌∷◌, none, some, if◌then◌else◌}
use sendspin_go.Prelude.Text.{String, str_eq}
use sendspin_go.Config.Overlay.{
  Flag, Sources, apply_env_and_file, overlaid, all_parse, is_none, apply_env_and_file_lem,
  underscored, env_key,
}
use sendspin_go.Config.Yaml.{Node, set_or_append_scalar_key, lookup, text_of, lookup-set_or_append}

abbrev flags : List Flag
flags =
    record { name = "buffer-ms"; value = "500" }
    ∷ record { name = "name"; value = "" }
    ∷ record { name = "port"; value = "8927" }
    ∷ []

-- The environment names the buffer, the file the buffer and the player's name.
abbrev sources : Sources
sources = record {
  set_by_user = λ name. str_eq name "port";
  to_upper = λ s. if str_eq s "buffer_ms" then "BUFFER_MS" else s;
  lookup_env = λ key. if str_eq key "SENDSPIN_PLAYER_BUFFER_MS" then some "300" else none;
  env_prefix = "SENDSPIN_PLAYER_";
  file_values = λ key.
      if str_eq key "buffer_ms"
      then some "200"
      else if str_eq key "name"
      then some "Attic"
      else none;
  parse = λ name text. if str_eq text "Attic" then ("", false) else (text, true);
}

apply_env_and_file_lem_example :
    ((apply_env_and_file sources flags).0 ≡ overlaid sources flags)
    × (is_none (apply_env_and_file sources flags).1 ≡ all_parse sources flags)
apply_env_and_file_lem_example = apply_env_and_file_lem sources flags

overlaid_values :
    overlaid sources flags
    ≡ record { name = "buffer-ms"; value = "300" }
      ∷ record { name = "name"; value = "" }
      ∷ record { name = "port"; value = "8927" }
      ∷ []
unfolding underscored env_key
overlaid_values = refl

abbrev node : String → Node
node text = record { tag = "!!str"; value = text; comments = "# kept" ∷ [] }

abbrev file : List Node
file = node "name" ∷ node "Attic" ∷ node "client_id" ∷ node "old" ∷ []

lookup-set_or_append_example :
    (text_of (lookup (set_or_append_scalar_key file "client_id" "new" "!!str") "client_id")
      ≡ some ("!!str", "new"))
    × ((other : String)
        → "client_id" ≢ other
        → lookup (set_or_append_scalar_key file "client_id" "new" "!!str") other
          ≡ lookup file other)
lookup-set_or_append_example = lookup-set_or_append file "client_id" "new" "!!str" tt
