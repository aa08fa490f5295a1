-- ===== src/Group/Rejoin.antt =====
-- A client that reconnects while its old connection is taken down: handleConnection and
-- removeClient of pkg/sendspin/server.go on the group of pkg/sendspin/group.go.
use sendspin_go.Prelude.{◌≡◌, refl, ◌∙◌, inr, true, false, List, ◌∷◌, some}
use sendspin_go.Prelude.Text.{eq_refl}
use sendspin_go.Group.{Client, client_left, Group, has_client, add_client, remove_client}
use sendspin_go.Group.Invariant.{IsValid, publish_lem}
use sendspin_go.Group.Steps.{add-known, remove-known, left, IsValid-same}
use sendspin_go.Group.Membership.{UniqueIds, has_client-delete_client}

-- On a well-formed open group with a member of the same ID, a new client is not added, and once the
-- member is removed no client has the ID.
pub rejoin :
    (g : Group) (old new : Client)
    → IsValid g
    → UniqueIds g.clients
    → has_client g.clients old.id ≡ true
    → new.id ≡ old.id
    → (g' : Group) × (add_client g new ≡ some g)
      × (remove_client g old ≡ some g')
      × (has_client g'.clients new.id ≡ false)
      × (g'.updates ≡ g.updates)
rejoin g old new v u known same =
    let (g', runs, p) =
      publish_lem (left g old) (client_left old.id old.name)
        (IsValid-same g (left g old) refl refl refl refl v) in
    let gone = has_client-delete_client g.clients old.id new.id u in
    (
      g',
      add-known g new (inr (rw same known)),
      remove-known g old known ∙ runs,
      rw (p.clients, gone, same, eq_refl old.id) refl,
      p.updates,
    )

pub has_client-head : (c : Client) (cs : List Client) → has_client (c ∷ cs) c.id ≡ true
unfolding has_client
has_client-head c cs = rw (eq_refl c.id) refl
