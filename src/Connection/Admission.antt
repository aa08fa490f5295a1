-- ===== src/Connection/Admission.antt =====
-- Which connections pkg/sendspin/server.go admits, and its map of clients.
use Prim.Native.String.{len}
use mathlib.Core.Option.{some-injective}
use sendspin_go.Prelude.{
  ℕ, ◌≤◌, ◌≡◌, ◌≢◌, ◌↔◌, refl, ◌⊎◌, inl, inr, false, true, sym, ap, ◌∙◌, List, [], ◌∷◌, Option,
  some, none, arith, length, All, Bool-cases, if◌then◌else◌,
}
use sendspin_go.Prelude.Text.{String, str_eq, eq_iff, eq_refl}
use sendspin_go.Group.{Client, Group, has_client, delete_client}
use sendspin_go.Group.Invariant.{IsValid}
use sendspin_go.Group.Steps.{add-IsValid, remove-IsValid}
use sendspin_go.Group.Membership.{UniqueIds, has_client-delete_client, delete_client-UniqueIds}
use sendspin_go.Connection.{
  ClientHello, Server, Answer, client_of, answer, register_client, unregister, with_group, Step,
  registers, joins, unregisters, leaves, connect, connect_all,
}

-- A connection is admitted exactly if the server is not shutting down, the hello names an ID and a
-- name, neither is longer than 256 bytes, it lists at most 20 roles, and no client has its ID.
pub answer_lem :
    (s : Server) (hello : ClientHello)
    → (answer s hello ≡ Answer.admitted) ↔ (
        (s.is_shutdown ≡ false)
        × (hello.client_id ≢ "")
        × (hello.name ≢ "")
        × (len hello.client_id ≤ 256)
        × (len hello.name ≤ 256)
        × (length hello.supported_roles ≤ 20)
        × (has_client s.clients hello.client_id ≡ false))
unfolding answer
answer_lem s hello =
    let empty = eq_iff hello.client_id "" in
    let unnamed = eq_iff hello.name "" in
    (λ h. ground (arith, empty, unnamed), λ h. ground (arith, empty, unnamed))

-- The entries of the server's map have distinct IDs, and its group is well-formed.
pub record IsSound (s : Server) : Type 0 where
  pub unique : UniqueIds s.clients
  pub group : IsValid s.group

pub connect-admitted :
    (s : Server) (pointer : ℕ) (hello : ClientHello)
    → answer s hello ≡ Answer.admitted
    → connect s (registers pointer hello) ≡ some (register_client s (client_of pointer hello))
unfolding connect
connect-admitted s pointer hello e = ground arith

connect-refused :
    (s : Server) (pointer : ℕ) (hello : ClientHello)
    → (answer s hello ≡ Answer.admitted) ⊎ (connect s (registers pointer hello) ≡ some s)
unfolding connect
connect-refused s pointer hello = ground arith

joined-IsSound :
    (s : Server) (g : Option Group)
    → UniqueIds s.clients
    → (g' : Group) × (g ≡ some g') × IsValid g'
    → (s' : Server) × (with_group s g ≡ some s') × IsSound s'
unfolding with_group
joined-IsSound s g u (g', e, v) =
    (record s { group = g' }, rw (e, with_group) refl, record { unique = u; group = v })

connect-IsSound :
    (s : Server) (step : Step) → IsSound s → (s' : Server) × (connect s step ≡ some s') × IsSound s'
unfolding connect unregister register_client client_of
connect-IsSound s (registers pointer hello) h = elim (connect-refused s pointer hello) [
  | inr refused ↦ (s, refused, h)
  | inl taken ↦
      let (shut, a, b, c, d, e, fresh) = (answer_lem s hello).0 taken in
      (
        register_client s (client_of pointer hello),
        connect-admitted s pointer hello taken,
        record {
          unique = (
            ground (
              arith,
              has_client-delete_client s.clients hello.client_id hello.client_id h.unique,
              eq_refl hello.client_id,
            ),
            delete_client-UniqueIds s.clients hello.client_id h.unique,
          );
          group = h.group;
        },
      )
]
connect-IsSound s (joins c) h = joined-IsSound s _ h.unique (add-IsValid s.group c h.group)
connect-IsSound s (unregisters c) h = (
  unregister s c,
  refl,
  record { unique = delete_client-UniqueIds s.clients c.id h.unique; group = h.group },
)
connect-IsSound s (leaves c) h = joined-IsSound s _ h.unique (remove-IsValid s.group c h.group)

-- The entry of an ID in the map of clients.
abbrev pub find_client : List Client → String → Option Client
find_client [] id = none
find_client (c ∷ cs) id = if str_eq c.id id then some c else find_client cs id

find_client-has :
    (cs : List Client) (id : String) (c : Client)
    → find_client cs id ≡ some c
    → has_client cs id ≡ true
unfolding has_client
find_client-has [] id c e = ground (arith, e)
find_client-has (d ∷ cs) id c e = ground (arith, e, find_client-has cs id c)

find_client-delete_client :
    (cs : List Client) (gone id : String)
    → str_eq gone id ≡ false
    → find_client (delete_client cs gone) id ≡ find_client cs id
unfolding delete_client
find_client-delete_client [] gone id other = refl
find_client-delete_client (c ∷ cs) gone id other =
    let same = λ (h : str_eq c.id gone ≡ true). ap (λ x. str_eq x id) ((eq_iff c.id gone).0 h) in
    ground (arith, find_client-delete_client cs gone id other, other, same)

-- A step that does not take down a connection of the ID.
abbrev pub Spares : String → Step → Type 0
Spares id (registers pointer hello) = Unit
Spares id (joins c) = Unit
Spares id (unregisters c) = str_eq c.id id ≡ false
Spares id (leaves c) = Unit

module _ (s : Server) (id : String) (c : Client) (held : find_client s.clients id ≡ some c) where
  admits_kept :
      (pointer : ℕ) (hello : ClientHello)
      → has_client s.clients hello.client_id ≡ false
      → find_client (register_client s (client_of pointer hello)).clients id ≡ some c
  unfolding register_client client_of
  admits_kept pointer hello fresh =
      let known = find_client-has s.clients id c held in
      elim (Bool-cases (str_eq hello.client_id id)) [
        | inl same ↦ absurd (
            ground
              (arith, known, fresh, ap (has_client s.clients) ((eq_iff hello.client_id id).0 same)))
        | inr other ↦
            ground
              (arith, other, find_client-delete_client s.clients hello.client_id id other, held)
      ]

  connect_kept :
      (step : Step) (s' : Server)
      → Spares id step
      → connect s step ≡ some s'
      → find_client s'.clients id ≡ some c
  unfolding connect with_group unregister
  connect_kept (registers pointer hello) s' spared e = elim (connect-refused s pointer hello) [
    | inr refused ↦ ap (λ t. find_client t.clients id) (some-injective _ _ (sym e ∙ refused)) ∙ held
    | inl taken ↦
        let (shut, x, y, z, w, v, fresh) = (answer_lem s hello).0 taken in
        ap (λ t. find_client t.clients id)
          (some-injective _ _ (sym e ∙ connect-admitted s pointer hello taken))
        ∙ admits_kept pointer hello fresh
  ]
  connect_kept (joins d) s' spared e = ground (arith, e, held)
  connect_kept (unregisters d) s' spared e =
      ap (λ t. find_client t.clients id) (sym (some-injective _ _ e))
      ∙ find_client-delete_client s.clients d.id id spared
      ∙ held
  connect_kept (leaves d) s' spared e = ground (arith, e, held)

-- A connection that is in the server's map is not displaced: however the steps of connections
-- interleave, hellos with its ID among them, as long as none of them takes down a connection of its
-- ID, the server does not panic, the map's entries have distinct IDs, the group stays well-formed,
-- and the entry of its ID is the same connection.
pub connect_all-find_client :
    (s : Server) (steps : List Step) (id : String) (c : Client)
    → IsSound s
    → find_client s.clients id ≡ some c
    → All (Spares id) steps
    → (s' : Server) × (connect_all s steps ≡ some s')
      × IsSound s'
      × (find_client s'.clients id ≡ some c)
unfolding connect_all
connect_all-find_client s [] id c h held spared = (s, refl, h, held)
connect_all-find_client s (step ∷ steps) id c h held spared =
    let (t, goes, k) = connect-IsSound s step h in
    let kept = connect_kept s id c held step t spared.0 goes in
    let (s', rest, l, still) = connect_all-find_client t steps id c k kept spared.1 in
    (s', rw (goes, connect_all) rest, l, still)
