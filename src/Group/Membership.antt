-- ===== src/Group/Membership.antt =====
-- The members of a group of pkg/sendspin/group.go against the events that it publishes.
use sendspin_go.Prelude.{
  ℕ, ◌≡◌, refl, ap, ◌∙◌, inl, inr, false, List, [], ◌∷◌, ◌++◌, some, arith, if◌then◌else◌,
  Bool-cases, All,
}
use sendspin_go.Prelude.Text.{String, str_eq, eq_iff}
use sendspin_go.Group.{
  Client, Event, client_joined, client_left, client_state_changed, playback_state_changed, Group,
  new_group, publish, has_client, delete_client, add_client, remove_client, subscribe, unsubscribe,
  receive, set_playback_state, Op, subscribes, closes, unsubscribes, receives, publishes, adds,
  removes, sets_playback_state, step, run,
}
use sendspin_go.Group.Invariant.{IsValid, publish_lem}
use sendspin_go.Group.Steps.{
  add-known, add-new, joined, remove-known, remove-unknown, left, set-same, set-new, playing,
  IsValid-same, step-IsValid, new_group-IsValid, subscribe-IsValid, receive-IsValid,
}

-- The members that a reader of the events knows.
abbrev pub replay : List Client → List Event → List Client
replay cs [] = cs
replay cs (client_joined c ∷ es) = replay (c ∷ cs) es
replay cs (client_left id name ∷ es) = replay (delete_client cs id) es
replay cs (client_state_changed c state volume muted ∷ es) = replay cs es
replay cs (playback_state_changed old new ∷ es) = replay cs es

replay-append :
    (cs : List Client) (es fs : List Event) → replay cs (es ++ fs) ≡ replay (replay cs es) fs
replay-append cs [] fs = refl
replay-append cs (client_joined c ∷ es) fs = replay-append (c ∷ cs) es fs
replay-append cs (client_left id name ∷ es) fs = replay-append (delete_client cs id) es fs
replay-append cs (client_state_changed c state volume muted ∷ es) fs = replay-append cs es fs
replay-append cs (playback_state_changed old new ∷ es) fs = replay-append cs es fs

-- No two members have one ID.
abbrev pub UniqueIds : List Client → Type 0
UniqueIds [] = Unit {0}
UniqueIds (c ∷ cs) = (has_client cs c.id ≡ false) × UniqueIds cs

pub has_client-delete_client :
    (cs : List Client) (id other : String)
    → UniqueIds cs
    → has_client (delete_client cs id) other
      ≡ (if str_eq id other then false else has_client cs other)
unfolding has_client delete_client
has_client-delete_client [] id other u = ground arith
has_client-delete_client (c ∷ cs) id other u = ground (
  arith,
  has_client-delete_client cs id other u.1,
  u.0,
  eq_iff c.id id,
  eq_iff id other,
  eq_iff c.id other,
)

pub delete_client-UniqueIds :
    (cs : List Client) (id : String) → UniqueIds cs → UniqueIds (delete_client cs id)
unfolding has_client delete_client
delete_client-UniqueIds [] id u = tt
delete_client-UniqueIds (c ∷ cs) id u = elim (Bool-cases (str_eq c.id id)) [
  | inl here ↦ rw here u.1
  | inr there ↦ rw there (
    ground (arith, has_client-delete_client cs id c.id u.1, u.0),
    delete_client-UniqueIds cs id u.1,
  )
]

-- What a reader of the events knows of an open group.
record Mirrored (g : Group) : Type 0 where
  pub valid : IsValid g
  pub running : g.closed ≡ false
  pub unique : UniqueIds g.clients
  pub mirror : replay [] g.published ≡ g.clients

-- A caller that does not close the group and publishes no joining or leaving of its own.
abbrev pub Regular : Op → Type 0
Regular subscribes = Unit {0}
Regular closes = ⊥
Regular (unsubscribes i) = Unit {0}
Regular (receives i) = Unit {0}
Regular (publishes (client_joined c)) = ⊥
Regular (publishes (client_left id name)) = ⊥
Regular (publishes (client_state_changed c state volume muted)) = Unit {0}
Regular (publishes (playback_state_changed old new)) = Unit {0}
Regular (adds c) = Unit {0}
Regular (removes c) = Unit {0}
Regular (sets_playback_state state) = Unit {0}

-- An event that is published on an open group with these members.
publish-Mirrored :
    (g : Group) (e : Event)
    → IsValid g
    → g.closed ≡ false
    → UniqueIds g.clients
    → replay (replay [] g.published) (e ∷ []) ≡ g.clients
    → (g' : Group) × (publish g e ≡ some g') × Mirrored g'
publish-Mirrored g e v o u m =
    let (g', runs, p) = publish_lem g e v in
    let all : g'.published ≡ g.published ++ e ∷ [] = rw (p.published, o) refl in
    (
      g',
      runs,
      record {
        valid = p.valid;
        running = p.closed ∙ o;
        unique = rw p.clients u;
        mirror = rw (all, replay-append [] g.published (e ∷ []), p.clients) m;
      },
    )

unpublished :
    (g h : Group)
    → Mirrored g
    → IsValid h
    → h.closed ≡ g.closed
    → h.clients ≡ g.clients
    → h.published ≡ g.published
    → Mirrored h
unpublished g h m v o c p = record {
  valid = v;
  running = o ∙ m.running;
  unique = rw c m.unique;
  mirror = rw (p, c) m.mirror;
}

add-Mirrored :
    (g : Group) (c : Client) → Mirrored g → (g' : Group) × (add_client g c ≡ some g') × Mirrored g'
add-Mirrored g c m = elim (Bool-cases (has_client g.clients c.id)) [
  | inl known ↦ (g, add-known g c (inr known), m)
  | inr new ↦
      let (g', runs, w) =
        publish-Mirrored (joined g c) (client_joined c)
          (IsValid-same g (joined g c) refl refl refl refl m.valid) m.running (new, m.unique)
          (ap (λ cs. c ∷ cs) m.mirror) in
      (g', add-new g c m.running new ∙ runs, w)
]

remove-Mirrored :
    (g : Group) (c : Client)
    → Mirrored g
    → (g' : Group) × (remove_client g c ≡ some g') × Mirrored g'
remove-Mirrored g c m = elim (Bool-cases (has_client g.clients c.id)) [
  | inr unknown ↦ (g, remove-unknown g c unknown, m)
  | inl known ↦
      let (g', runs, w) =
        publish-Mirrored (left g c) (client_left c.id c.name)
          (IsValid-same g (left g c) refl refl refl refl m.valid) m.running
          (delete_client-UniqueIds g.clients c.id m.unique)
          (ap (λ cs. delete_client cs c.id) m.mirror) in
      (g', remove-known g c known ∙ runs, w)
]

set-Mirrored :
    (g : Group) (state : String)
    → Mirrored g
    → (g' : Group) × (set_playback_state g state ≡ some g') × Mirrored g'
set-Mirrored g state m = elim (Bool-cases (str_eq g.playback_state state)) [
  | inl same ↦ (g, set-same g state same, m)
  | inr other ↦
      let (g', runs, w) =
        publish-Mirrored (playing g state) (playback_state_changed g.playback_state state)
          (IsValid-same g (playing g state) refl refl refl refl m.valid) m.running m.unique
          m.mirror in
      (g', set-new g state other ∙ runs, w)
]

subscribe_same :
    (g : Group)
    → (((subscribe g).1).closed ≡ g.closed)
      × (((subscribe g).1).clients ≡ g.clients)
      × (((subscribe g).1).published ≡ g.published)
unfolding subscribe
subscribe_same g = (ground arith, ground arith, ground arith)

receive_same :
    (g : Group) (i : ℕ)
    → ((receive g i).closed ≡ g.closed)
      × ((receive g i).clients ≡ g.clients)
      × ((receive g i).published ≡ g.published)
unfolding receive
receive_same g i = (ground arith, ground arith, ground arith)

unsubscribe_same :
    (g h : Group) (i : ℕ)
    → unsubscribe g i ≡ some h
    → (h.closed ≡ g.closed) × (h.clients ≡ g.clients) × (h.published ≡ g.published)
unfolding unsubscribe
unsubscribe_same g h i e = (ground arith, ground arith, ground arith)

step-Mirrored :
    (g : Group) (op : Op)
    → Regular op
    → Mirrored g
    → (g' : Group) × (step g op ≡ some g') × Mirrored g'
unfolding step
step-Mirrored g subscribes r m =
    let (o, c, p) = subscribe_same g in
    let (h, goes, v) = step-IsValid g subscribes m.valid in
    ((subscribe g).1, refl, unpublished g (subscribe g).1 m (subscribe-IsValid g m.valid) o c p)
step-Mirrored g (unsubscribes i) r m =
    let (h, goes, v) = step-IsValid g (unsubscribes i) m.valid in
    let (o, c, p) = unsubscribe_same g h i goes in (h, goes, unpublished g h m v o c p)
step-Mirrored g (receives i) r m =
    let (o, c, p) = receive_same g i in
    (receive g i, refl, unpublished g (receive g i) m (receive-IsValid g i m.valid) o c p)
step-Mirrored g (publishes (client_state_changed c state volume muted)) r m =
    publish-Mirrored g (client_state_changed c state volume muted) m.valid m.running m.unique
      m.mirror
step-Mirrored g (publishes (playback_state_changed old new)) r m =
    publish-Mirrored g (playback_state_changed old new) m.valid m.running m.unique m.mirror
step-Mirrored g (adds c) r m = add-Mirrored g c m
step-Mirrored g (removes c) r m = remove-Mirrored g c m
step-Mirrored g (sets_playback_state state) r m = set-Mirrored g state m
step-Mirrored g closes r m = absurd r
step-Mirrored g (publishes (client_joined c)) r m = absurd r
step-Mirrored g (publishes (client_left id name)) r m = absurd r

run-Mirrored :
    (g : Group) (ops : List Op)
    → All Regular ops
    → Mirrored g
    → (g' : Group) × (run g ops ≡ some g') × Mirrored g'
unfolding run
run-Mirrored g [] r m = (g, refl, m)
run-Mirrored g (op ∷ ops) r m =
    let (h, goes, w) = step-Mirrored g op r.0 m in
    let (g', rest, u) = run-Mirrored h ops r.1 w in (g', rw (goes, run) rest, u)

new_group-Mirrored : (id : String) → Mirrored (new_group id)
unfolding new_group
new_group-Mirrored id = record {
  valid = new_group-IsValid id;
  running = refl;
  unique = tt;
  mirror = refl;
}

-- After any operations on a new group, none of which closes it or publishes a joining or leaving
-- event by hand, the members are those that a reader of all the published events computes from
-- them, in the same order, and no two members have one ID.
pub replay-published :
    (id : String) (ops : List Op)
    → All Regular ops
    → (g : Group) × (run (new_group id) ops ≡ some g)
      × (replay [] g.published ≡ g.clients)
      × UniqueIds g.clients
replay-published id ops r =
    let (g, runs, m) = run-Mirrored (new_group id) ops r (new_group-Mirrored id) in
    (g, runs, m.mirror, m.unique)
