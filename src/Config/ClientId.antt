-- ===== src/Config/ClientId.antt =====
-- ResolveClientID of pkg/sendspin/client_id.go. The interfaces, the generated UUID and the text of a
-- hardware address are parameters.
use Prim.Native.String.{compare}
use text.Mathlib.Text.{is_lt}
use sendspin_go.Prelude.{
  ◌≡◌, ◌≢◌, ℕ, Bool, true, List, [], ◌∷◌, Option, none, some, ◌==◌, ◌&&◌, ◌||◌, not, if◌then◌else◌,
  arith, length,
}
use sendspin_go.Prelude.Text.{String, str_eq, eq_refl, eq_iff}

pub record Interface : Type 0 where
  pub name : String
  pub up : Bool
  pub loopback : Bool
  pub hardware_addr : List ℕ

unfoldable pub all_bytes : ℕ → List ℕ → Bool
all_bytes b [] = true
all_bytes b (x ∷ xs) = (x == b) && all_bytes b xs

-- The conditions of pickStableMAC's loop; an address of six bytes is zero or broadcast when all of
-- them are.
unfoldable pub eligible : Interface → Bool
unfolding all_bytes
eligible i =
    i.up
    && (not i.loopback
        && ((length i.hardware_addr == 6)
            && not (all_bytes 0 i.hardware_addr || all_bytes 0xff i.hardware_addr)))

unfoldable pub eligible_of : List Interface → List Interface
unfolding eligible
eligible_of [] = []
eligible_of (i ∷ is) = if eligible i then i ∷ eligible_of is else eligible_of is

-- The head of the list once sorted by name: where names are equal, the earlier one.
unfoldable pub first_by_name : Interface → List Interface → Interface
first_by_name i [] = i
first_by_name i (j ∷ js) =
    let best = first_by_name i js in if is_lt (compare j.name best.name) then j else best

-- The interface that pickStableMAC picks.
unfoldable pub pick_stable : List Interface → Option Interface
unfolding eligible_of first_by_name
pick_stable is = elim (eligible_of is) [ [] ↦ none | i ∷ rest ↦ some (first_by_name i rest) ]

-- The id, and the ids that PersistFn was called with.
pub record Resolved : Type 0 where
  pub client_id : String
  pub persisted : List String

-- tryPersist; an error of PersistFn is only logged.
unfoldable pub try_persist : Bool → String → List String
try_persist persist id = if persist then id ∷ [] else []

-- ResolveClientID; `persist` tells whether there is a PersistFn, `text` prints a hardware address
-- and `generated` is the new UUID.
unfoldable pub resolve_client_id :
    (List ℕ → String) → String → List Interface → Bool → String → String → Resolved
unfolding try_persist pick_stable
resolve_client_id text generated interfaces persist override from_config =
    if not (str_eq override "")
    then record {
      client_id = override;
      persisted = if not (str_eq override from_config) then try_persist persist override else [];
    }
    else if not (str_eq from_config "")
    then record { client_id = from_config; persisted = [] }
    else elim (pick_stable interfaces) [
      | some i ↦ record { client_id = text i.hardware_addr; persisted = [] }
      | none ↦ record { client_id = generated; persisted = try_persist persist generated }
    ]

-- The config's id after a launch: the last one persisted.
abbrev pub stored : Resolved → String → String
stored r from_config = elim r.persisted [ [] ↦ from_config | id ∷ ids ↦ id ]

module _ (text : List ℕ → String) (generated generated' : String)
    (interfaces : List Interface) where
  -- The same player keeps its id: a launch with an override or a generated id, or one that reads it
  -- from the config, leaves a config with which the next launch, without an override, has the same
  -- id, whatever UUID that one would generate; and so does a launch that takes it from a network
  -- interface, as long as the interfaces are the same.
  pub resolve_client_id-restart :
      (override from_config : String)
      → generated ≢ ""
      → (let r = resolve_client_id text generated interfaces true override from_config in
          (resolve_client_id text generated' interfaces true "" (stored r from_config)).client_id
          ≡ r.client_id)
  unfolding resolve_client_id try_persist
  resolve_client_id-restart override from_config named = ground (
    arith,
    eq_iff override "",
    eq_iff override from_config,
    eq_iff from_config "",
    eq_iff generated "",
    eq_refl override,
  )
