-- ===== src/Group/Invariant.antt =====
-- The channels of a group of pkg/sendspin/group.go are never sent to or closed after they are closed.
use sendspin_go.Prelude.{
  ℕ, ◌≤◌, ◌<◌, ◌≡◌, refl, inl, inr, true, false, List, [], ◌∷◌, ◌++◌, some, arith, length,
  length-append, if◌then◌else◌, Bool-cases, ltb, ◌==◌,
}
use sendspin_go.Group.{
  Event, Channel, channel_size, Group, write, close_channel, contains, delete, offer, fan_out,
  publish, close_all,
}

abbrev pub Distinct : List ℕ → Type 0
Distinct [] = Unit {0}
Distinct (i ∷ is) = (contains is i ≡ false) × Distinct is

-- What a non-blocking send leaves in an open channel.
abbrev pub pushed : Channel → Event → Channel
pushed c e = if ltb (length c.queue) channel_size then record c { queue = c.queue ++ e ∷ [] } else c

abbrev pub shut : Channel → Channel
shut c = record c { is_open = false }

pub contains-delete :
    (is : List ℕ) (i j : ℕ)
    → Distinct is
    → contains (delete is i) j ≡ (if i == j then false else contains is j)
unfolding contains delete
contains-delete [] i j d = ground arith
contains-delete (k ∷ is) i j d = ground (arith, contains-delete is i j d.1, d.0)

pub delete-Distinct : (is : List ℕ) (i : ℕ) → Distinct is → Distinct (delete is i)
unfolding contains delete
delete-Distinct [] i d = tt
delete-Distinct (k ∷ is) i d = elim (Bool-cases (k == i)) [
  | inl here ↦ rw here d.1
  | inr there ↦ rw there (ground (arith, contains-delete is i k d.1, d.0), delete-Distinct is i d.1)
]

pub write_lem :
    (m : ℕ → Channel) (i j : ℕ) (c : Channel) → write m i c j ≡ (if i == j then c else m j)
unfolding write
write_lem m i j c = refl

offer-open : (c : Channel) (e : Event) → c.is_open ≡ true → offer c e ≡ some (pushed c e)
unfolding offer
offer-open c e o = ground arith

close_channel-open : (c : Channel) → c.is_open ≡ true → close_channel c ≡ some (shut c)
unfolding close_channel
close_channel-open c o = ground arith

pushed-open : (c : Channel) (e : Event) → (pushed c e).is_open ≡ c.is_open
pushed-open c e = ground arith

-- An event for open channels reaches each that has room.
pub fan_out_lem :
    (is : List ℕ) (m : ℕ → Channel) (e : Event)
    → Distinct is
    → ((i : ℕ) → contains is i ≡ true → (m i).is_open ≡ true)
    → (m' : ℕ → Channel) × (fan_out is m e ≡ some m')
      × ((j : ℕ) → m' j ≡ (if contains is j then pushed (m j) e else m j))
unfolding fan_out contains
fan_out_lem [] m e d o = (m, refl, λ j. refl)
fan_out_lem (i ∷ is) m e d o =
    let first = offer-open (m i) e (o i (ground arith)) in
    let (m', runs, at) =
      fan_out_lem is (write m i (pushed (m i) e)) e d.1
        λ j p. ground (arith, write_lem m i j (pushed (m i) e), o j, d.0) in
    (m', rw (first, fan_out) runs, λ j. ground (arith, at j, write_lem m i j (pushed (m i) e), d.0))

pub close_all_lem :
    (is : List ℕ) (m : ℕ → Channel)
    → Distinct is
    → ((i : ℕ) → contains is i ≡ true → (m i).is_open ≡ true)
    → (m' : ℕ → Channel) × (close_all is m ≡ some m')
      × ((j : ℕ) → m' j ≡ (if contains is j then shut (m j) else m j))
unfolding close_all contains
close_all_lem [] m d o = (m, refl, λ j. refl)
close_all_lem (i ∷ is) m d o =
    let first = close_channel-open (m i) (o i (ground arith)) in
    let (m', runs, at) =
      close_all_lem is (write m i (shut (m i))) d.1
        λ j p. ground (arith, write_lem m i j (shut (m i)), o j, d.0) in
    (m', rw (first, close_all) runs, λ j. ground (arith, at j, write_lem m i j (shut (m i)), d.0))

-- Each subscriber's key is in use once, its channel is open, no channel holds more than its places,
-- and a closed group has no subscriber.
pub record IsValid (g : Group) : Type 0 where
  pub distinct : Distinct g.subs
  pub opened : (i : ℕ) → contains g.subs i ≡ true → (g.channels i).is_open ≡ true
  pub fresh : (i : ℕ) → contains g.subs i ≡ true → i < g.next_sub
  pub sized : (i : ℕ) → length (g.channels i).queue ≤ channel_size
  pub quiet : g.closed ≡ true → g.subs ≡ []

pushed-sized :
    (c : Channel) (e : Event)
    → length c.queue ≤ channel_size
    → length (pushed c e).queue ≤ channel_size
pushed-sized c e h = ground (arith, length-append c.queue (e ∷ []))

-- What publish does to a well-formed group.
pub record Published (g : Group) (e : Event) (g' : Group) : Type 0 where
  pub valid : IsValid g'
  pub channels :
      (j : ℕ)
      → g'.channels j ≡ (if contains g.subs j then pushed (g.channels j) e else g.channels j)
  pub clients : g'.clients ≡ g.clients
  pub subs : g'.subs ≡ g.subs
  pub closed : g'.closed ≡ g.closed
  pub state : g'.playback_state ≡ g.playback_state
  pub published : g'.published ≡ (if g.closed then g.published else g.published ++ e ∷ [])
  pub updates : g'.updates ≡ g.updates

pub no_subs : (g : Group) (j : ℕ) → IsValid g → g.closed ≡ true → contains g.subs j ≡ false
unfolding contains
no_subs g j v c = ground (arith, v.quiet)

publish-closed : (g : Group) (e : Event) → g.closed ≡ true → publish g e ≡ some g
unfolding publish
publish-closed g e c = ground arith

publish-open :
    (g : Group) (e : Event) (m : ℕ → Channel)
    → g.closed ≡ false
    → fan_out g.subs g.channels e ≡ some m
    → publish g e ≡ some (record g { channels = m; published = g.published ++ e ∷ [] })
unfolding publish
publish-open g e m c f = ground arith

-- On a well-formed group publish does not panic and leaves a well-formed group. If the group is open
-- the event is recorded, and put at the end of the channel of each subscriber that has room; a closed
-- group has no subscriber and records nothing. No other channel changes, nor do the members, the
-- subscribers, the playback state and the messages sent.
pub publish_lem :
    (g : Group) (e : Event) → IsValid g → (g' : Group) × (publish g e ≡ some g') × Published g e g'
publish_lem g e v = elim (Bool-cases g.closed) [
  | inl c ↦ (
    g,
    publish-closed g e c,
    record {
      valid = v;
      channels = λ j. ground (arith, no_subs g j v c);
      clients = refl;
      subs = refl;
      closed = refl;
      state = refl;
      published = ground arith;
      updates = refl;
    },
  )
  | inr c ↦
      let (m, sends, at) = fan_out_lem g.subs g.channels e v.distinct v.opened in
      let g' : Group = record g { channels = m; published = g.published ++ e ∷ [] } in
      (
        g',
        publish-open g e m c sends,
        record {
          valid = record {
            distinct = v.distinct;
            opened = λ i p. ground (arith, at i, v.opened i, pushed-open (g.channels i) e);
            fresh = v.fresh;
            sized = λ i. ground (arith, at i, v.sized i, pushed-sized (g.channels i) e);
            quiet = v.quiet;
          };
          channels = at;
          clients = refl;
          subs = refl;
          closed = refl;
          state = refl;
          published = ground arith;
          updates = refl;
        },
      )
]
