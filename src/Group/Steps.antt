-- ===== src/Group/Steps.antt =====
-- Every operation of a group of pkg/sendspin/group.go keeps it well-formed and does not panic.
use sendspin_go.Prelude.{
  ℕ, ◌+◌, ◌≤◌, ◌≡◌, refl, ◌∙◌, ◌⊎◌, inl, inr, true, false, List, [], ◌∷◌, ◌++◌, none, some, arith,
  if◌then◌else◌, Bool-cases, List-cases,
}
use sendspin_go.Prelude.Text.{String, str_eq}
use sendspin_go.Group.{
  Client, Event, client_joined, client_left, playback_state_changed, Channel, new_channel, Group,
  new_group, write, subscribe, contains, delete, unsubscribe, publish, has_client, delete_client,
  add_client, remove_client, close_all, close, set_playback_state, receive, Op, subscribes, closes,
  unsubscribes, receives, publishes, adds, removes, sets_playback_state, step, run,
}
use sendspin_go.Group.Invariant.{
  shut, contains-delete, delete-Distinct, write_lem, close_all_lem, IsValid, no_subs, publish_lem,
}

subscribe-closed : (g : Group) → g.closed ≡ true → subscribe g ≡ (none, g)
unfolding subscribe
subscribe-closed g c = ground arith

abbrev subscribed : Group → Group
subscribed g = record g {
  subs = g.next_sub ∷ g.subs;
  channels = write g.channels g.next_sub new_channel;
  next_sub = g.next_sub + 1;
}

subscribe-open : (g : Group) → g.closed ≡ false → subscribe g ≡ (some g.next_sub, subscribed g)
unfolding subscribe
subscribe-open g c = ground arith

unused : (g : Group) (i : ℕ) → IsValid g → g.next_sub ≤ i → contains g.subs i ≡ false
unused g i v h = elim (Bool-cases (contains g.subs i)) [
  | inl used ↦ absurd (omega (arith, v.fresh i used))
  | inr free ↦ free
]

pub subscribe-IsValid : (g : Group) → IsValid g → IsValid (subscribe g).1
unfolding contains
subscribe-IsValid g v = elim (Bool-cases g.closed) [
  | inl c ↦ rw (subscribe-closed g c) v
  | inr c ↦
      let n = g.next_sub in
      rw (subscribe-open g c) (record {
        distinct = (unused g n v (omega arith), v.distinct);
        opened = λ i p. ground (arith, write_lem g.channels n i new_channel, v.opened i);
        fresh = λ i p. ground (arith, v.fresh i);
        sized = λ i. ground (arith, write_lem g.channels n i new_channel, v.sized i);
        quiet = λ p. cc;
      })
]

unsubscribe-open :
    (g : Group) (i : ℕ)
    → contains g.subs i ≡ true
    → (g.channels i).is_open ≡ true
    → unsubscribe g i
      ≡ some
          (record g { subs = delete g.subs i; channels = write g.channels i (shut (g.channels i)) })
unfolding unsubscribe
unsubscribe-open g i c o = ground arith

unsubscribe-unknown : (g : Group) (i : ℕ) → contains g.subs i ≡ false → unsubscribe g i ≡ some g
unfolding unsubscribe
unsubscribe-unknown g i c = ground arith

unsubscribe-IsValid :
    (g : Group) (i : ℕ) → IsValid g → (g' : Group) × (unsubscribe g i ≡ some g') × IsValid g'
unsubscribe-IsValid g i v = elim (Bool-cases (contains g.subs i)) [
  | inr c ↦ (g, unsubscribe-unknown g i c, v)
  | inl c ↦
      let less = λ (j : ℕ). contains-delete g.subs i j v.distinct in
      let at = λ (j : ℕ). write_lem g.channels i j (shut (g.channels i)) in
      (
        record g { subs = delete g.subs i; channels = write g.channels i (shut (g.channels i)) },
        unsubscribe-open g i c (v.opened i c),
        record {
          distinct = delete-Distinct g.subs i v.distinct;
          opened = λ j p. ground (arith, less j, at j, v.opened j);
          fresh = λ j p. ground (arith, less j, v.fresh j);
          sized = λ j. ground (arith, at j, v.sized j, v.sized i);
          quiet = λ p. absurd (still_open p c);
        },
      )
]
  where
    still_open : g.closed ≡ true → contains g.subs i ≡ true → ⊥
    still_open p c = ground (arith, no_subs g i v p)

close-closed : (g : Group) → g.closed ≡ true → close g ≡ some g
unfolding close
close-closed g c = ground arith

close-open :
    (g : Group) (m : ℕ → Channel)
    → g.closed ≡ false
    → close_all g.subs g.channels ≡ some m
    → close g ≡ some (record g { closed = true; channels = m; subs = []; clients = [] })
unfolding close
close-open g m c e = ground arith

pub close-IsValid : (g : Group) → IsValid g → (g' : Group) × (close g ≡ some g') × IsValid g'
unfolding contains
close-IsValid g v = elim (Bool-cases g.closed) [
  | inl c ↦ (g, close-closed g c, v)
  | inr c ↦
      let (m, closes_all, at) = close_all_lem g.subs g.channels v.distinct v.opened in
      (
        record g { closed = true; channels = m; subs = []; clients = [] },
        close-open g m c closes_all,
        record {
          distinct = tt;
          opened = λ i p. cc;
          fresh = λ i p. cc;
          sized = λ i. ground (arith, at i, v.sized i);
          quiet = λ p. refl;
        },
      )
]

receive-empty : (g : Group) (i : ℕ) → (g.channels i).queue ≡ [] → receive g i ≡ g
unfolding receive
receive-empty g i e = ground arith

receive-some :
    (g : Group) (i : ℕ) (x : Event) (es : List Event)
    → (g.channels i).queue ≡ x ∷ es
    → receive g i
      ≡ record g { channels = write g.channels i (record (g.channels i) { queue = es }) }
unfolding receive
receive-some g i x es e = ground arith

pub receive-IsValid : (g : Group) (i : ℕ) → IsValid g → IsValid (receive g i)
receive-IsValid g i v = elim (List-cases (g.channels i).queue) [
  | inl e ↦ rw (receive-empty g i e) v
  | inr (x, es, e) ↦
      let at = λ (j : ℕ). write_lem g.channels i j (record (g.channels i) { queue = es }) in
      rw (receive-some g i x es e) (record {
        distinct = v.distinct;
        opened = λ j p. ground (arith, at j, v.opened j);
        fresh = v.fresh;
        sized = λ j. ground (arith, at j, v.sized j, v.sized i);
        quiet = v.quiet;
      })
]

-- The events of the operations that publish.
pub add-known :
    (g : Group) (c : Client)
    → (g.closed ≡ true) ⊎ (has_client g.clients c.id ≡ true)
    → add_client g c ≡ some g
unfolding add_client
add-known g c h = ground arith

abbrev pub joined : Group → Client → Group
joined g c = record g {
  clients = c ∷ g.clients;
  updates =
      g.updates
      ++ record {
        recipient = c.pointer;
        group_id = g.id;
        playback_state = if str_eq g.playback_state "" then "playing" else g.playback_state;
      }
        ∷ [];
}

pub add-new :
    (g : Group) (c : Client)
    → g.closed ≡ false
    → has_client g.clients c.id ≡ false
    → add_client g c ≡ publish (joined g c) (client_joined c)
unfolding add_client
add-new g c o n = ground arith

pub remove-unknown :
    (g : Group) (c : Client) → has_client g.clients c.id ≡ false → remove_client g c ≡ some g
unfolding remove_client
remove-unknown g c h = ground arith

abbrev pub left : Group → Client → Group
left g c = record g { clients = delete_client g.clients c.id }

pub remove-known :
    (g : Group) (c : Client)
    → has_client g.clients c.id ≡ true
    → remove_client g c ≡ publish (left g c) (client_left c.id c.name)
unfolding remove_client
remove-known g c h = ground arith

abbrev pub playing : Group → String → Group
playing g state = record g { playback_state = state }

pub set-same :
    (g : Group) (state : String)
    → str_eq g.playback_state state ≡ true
    → set_playback_state g state ≡ some g
unfolding set_playback_state
set-same g state h = ground arith

pub set-new :
    (g : Group) (state : String)
    → str_eq g.playback_state state ≡ false
    → set_playback_state g state
      ≡ publish (playing g state) (playback_state_changed g.playback_state state)
unfolding set_playback_state
set-new g state h = ground arith

publish-IsValid :
    (g : Group) (e : Event) → IsValid g → (g' : Group) × (publish g e ≡ some g') × IsValid g'
publish-IsValid g e v = let (g', runs, p) = publish_lem g e v in (g', runs, p.valid)

-- The same subscribers and channels make the same well-formedness.
pub IsValid-same :
    (g h : Group)
    → h.subs ≡ g.subs
    → h.channels ≡ g.channels
    → h.next_sub ≡ g.next_sub
    → h.closed ≡ g.closed
    → IsValid g
    → IsValid h
IsValid-same g h s c n d v = record {
  distinct = rw s v.distinct;
  opened = λ i. rw (s, c) (v.opened i);
  fresh = λ i. rw (s, n) (v.fresh i);
  sized = λ i. rw c (v.sized i);
  quiet = rw (s, d) v.quiet;
}

pub add-IsValid :
    (g : Group) (c : Client) → IsValid g → (g' : Group) × (add_client g c ≡ some g') × IsValid g'
add-IsValid g c v = elim (Bool-cases g.closed) [
  | inl shut_down ↦ (g, add-known g c (inl shut_down), v)
  | inr running ↦ elim (Bool-cases (has_client g.clients c.id)) [
    | inl known ↦ (g, add-known g c (inr known), v)
    | inr new ↦
        let (g', runs, w) =
          publish-IsValid (joined g c) (client_joined c)
            (IsValid-same g (joined g c) refl refl refl refl v) in
        (g', add-new g c running new ∙ runs, w)
  ]
]

pub remove-IsValid :
    (g : Group) (c : Client) → IsValid g → (g' : Group) × (remove_client g c ≡ some g') × IsValid g'
remove-IsValid g c v = elim (Bool-cases (has_client g.clients c.id)) [
  | inr unknown ↦ (g, remove-unknown g c unknown, v)
  | inl known ↦
      let (g', runs, w) =
        publish-IsValid (left g c) (client_left c.id c.name)
          (IsValid-same g (left g c) refl refl refl refl v) in
      (g', remove-known g c known ∙ runs, w)
]

set-IsValid :
    (g : Group) (state : String)
    → IsValid g
    → (g' : Group) × (set_playback_state g state ≡ some g') × IsValid g'
set-IsValid g state v = elim (Bool-cases (str_eq g.playback_state state)) [
  | inl same ↦ (g, set-same g state same, v)
  | inr other ↦
      let (g', runs, w) =
        publish-IsValid (playing g state) (playback_state_changed g.playback_state state)
          (IsValid-same g (playing g state) refl refl refl refl v) in
      (g', set-new g state other ∙ runs, w)
]

pub step-IsValid :
    (g : Group) (op : Op) → IsValid g → (g' : Group) × (step g op ≡ some g') × IsValid g'
unfolding step
step-IsValid g subscribes v = ((subscribe g).1, refl, subscribe-IsValid g v)
step-IsValid g closes v = close-IsValid g v
step-IsValid g (unsubscribes i) v = unsubscribe-IsValid g i v
step-IsValid g (receives i) v = (receive g i, refl, receive-IsValid g i v)
step-IsValid g (publishes e) v = publish-IsValid g e v
step-IsValid g (adds c) v = add-IsValid g c v
step-IsValid g (removes c) v = remove-IsValid g c v
step-IsValid g (sets_playback_state state) v = set-IsValid g state v

pub new_group-IsValid : (id : String) → IsValid (new_group id)
unfolding new_group contains
new_group-IsValid id = record {
  distinct = tt;
  opened = λ i p. cc;
  fresh = λ i p. cc;
  sized = λ i. omega arith;
  quiet = λ p. refl;
}

run-IsValid :
    (g : Group) (ops : List Op) → IsValid g → (g' : Group) × (run g ops ≡ some g') × IsValid g'
unfolding run
run-IsValid g [] v = (g, refl, v)
run-IsValid g (op ∷ ops) v =
    let (h, goes, w) = step-IsValid g op v in
    let (g', rest, u) = run-IsValid h ops w in (g', rw (goes, run) rest, u)

-- No sequence of operations on a new group panics: nothing is sent on a closed channel and no
-- channel is closed twice. Afterwards each subscriber's channel is open, no channel holds more than
-- 32 events, and a closed group has no subscriber.
pub run-new_group :
    (id : String) (ops : List Op) → (g : Group) × (run (new_group id) ops ≡ some g) × IsValid g
run-new_group id ops = run-IsValid (new_group id) ops (new_group-IsValid id)
