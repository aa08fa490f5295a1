-- ===== src/Connection/Takeover.antt =====
-- A client that reconnects while its old connection is taken down by removeClient of
-- pkg/sendspin/server.go.
use sendspin_go.Prelude.{ℕ, ◌≡◌, refl, true, false, List, [], ◌∷◌, Option, some, arith}
use sendspin_go.Prelude.Text.{eq_refl}
use sendspin_go.Group.{Client, Group, has_client, add_client, remove_client}
use sendspin_go.Group.Membership.{UniqueIds, has_client-delete_client}
use sendspin_go.Group.Rejoin.{rejoin, has_client-head}
use sendspin_go.Connection.{
  ClientHello, Server, Answer, client_of, answer, register_client, unregister, with_group, Step,
  registers, joins, unregisters, leaves, connect, connect_all,
}
use sendspin_go.Connection.Admission.{IsSound, answer_lem, connect-admitted}

-- A hello that the server takes if its ID is free.
abbrev pub IsAcceptable : Server → ClientHello → Type 0
IsAcceptable s hello = answer (record s { clients = [] }) hello ≡ Answer.admitted

connect_all-cons :
    (s t : Server) (step : Step) (steps : List Step) (o : Option Server)
    → connect s step ≡ some t
    → connect_all t steps ≡ o
    → connect_all s (step ∷ steps) ≡ o
unfolding connect_all
connect_all-cons s t step steps o goes rest = rw (goes, connect_all) rest

connect-joins :
    (s : Server) (c : Client) (g : Group)
    → add_client s.group c ≡ some g
    → connect s (joins c) ≡ some (record s { group = g })
unfolding connect with_group
connect-joins s c g e = ground arith

connect-leaves :
    (s : Server) (c : Client) (g : Group)
    → remove_client s.group c ≡ some g
    → connect s (leaves c) ≡ some (record s { group = g })
unfolding connect with_group
connect-leaves s c g e = ground arith

module _ (s : Server) (old : Client) (pointer : ℕ) (hello : ClientHello) (sound : IsSound s)
    (open_ : IsAcceptable s hello) (same : hello.client_id ≡ old.id) where
  -- As soon as the old connection is out of the server's map, a new one of its ID is admitted.
  readmitted : answer (unregister s old) hello ≡ Answer.admitted
  unfolding unregister
  readmitted =
      let (shut, a, b, c, d, e, f) = (answer_lem (record s { clients = [] }) hello).0 open_ in
      let gone = has_client-delete_client s.clients old.id hello.client_id sound.unique in
      (answer_lem (unregister s old) hello).1
        (shut, a, b, c, d, e, rw (gone, same, eq_refl old.id) refl)

  -- The server's check for a duplicate stops when removeClient deletes the old connection from its
  -- map, before it deletes it from the group. So on a sound server whose group holds the old
  -- connection, where the hello would be taken if its ID were free and has the old connection's ID,
  -- these steps can follow one another: the old connection is unregistered, the new one is
  -- registered and joins, the old one leaves. Afterwards the server's map has a client of the ID,
  -- the group has none, and no group/update was handed on.
  pub takeover_lost :
      UniqueIds s.group.clients
      → has_client s.group.clients old.id ≡ true
      → (s' : Server) × (connect_all s (
            unregisters old
            ∷ registers pointer hello
            ∷ joins (client_of pointer hello)
            ∷ leaves old
            ∷ [])
          ≡ some s')
        × (has_client s'.clients hello.client_id ≡ true)
        × (has_client s'.group.clients hello.client_id ≡ false)
        × (s'.group.updates ≡ s.group.updates)
  unfolding connect connect_all client_of register_client unregister
  takeover_lost u known =
      let (g', adds_none, removes_old, gone, told) =
        rejoin s.group old (client_of pointer hello) sound.group u known same in
      let t : Server = register_client (unregister s old) (client_of pointer hello) in
      let third : List Step = leaves old ∷ [] in
      let second : List Step = joins (client_of pointer hello) ∷ third in
      let first : List Step = registers pointer hello ∷ second in
      let left_out : Server = record t { group = g' } in
      (
        left_out,
        connect_all-cons s (unregister s old) (unregisters old) first _ refl (
            connect_all-cons (unregister s old) t (registers pointer hello) second _
              (connect-admitted (unregister s old) pointer hello readmitted)
              (connect_all-cons t t (joins (client_of pointer hello)) third _
                (connect-joins t (client_of pointer hello) s.group adds_none)
                (connect_all-cons t left_out (leaves old) [] _ (connect-leaves t old g' removes_old)
                  refl))),
        has_client-head (client_of pointer hello) _,
        gone,
        told,
      )
