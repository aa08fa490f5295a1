-- ===== src/RoleState/InSync.antt =====
-- What the controllers of a group know of its state, pkg/sendspin/role_controller.go.
use sendspin_go.Prelude.{
  ℕ, suc, ◌+◌, ◌≤◌, ◌≡◌, refl, inl, inr, Bool, true, List, [], ◌∷◌, ◌++◌, map, Option, none, some,
  arith, length, length-append, ltb, Bool-cases, All, All-mono,
}
use sendspin_go.Prelude.Text.{String, str_eq}
use sendspin_go.Roles.{
  ControllerState, Message, stream_start, stream_end, server_state_metadata,
  server_state_controller, binary, ServerClient, has_role, send, send_chan_size,
}
use sendspin_go.RoleState.{
  ControllerGroupRole, controller_state, tell_state, broadcast_state, set_repeat, same_bool,
  set_shuffle, controller_on_client_join,
}

-- The last controller state among messages.
abbrev pub last_state : List Message → Option ControllerState
last_state [] = none
last_state (server_state_controller s ∷ ms) = elim (last_state ms) [
  | none ↦ some s
  | some t ↦ some t
]
last_state (stream_start m ∷ ms) = last_state ms
last_state (stream_end roles ∷ ms) = last_state ms
last_state (server_state_metadata m ∷ ms) = last_state ms
last_state (binary bytes ∷ ms) = last_state ms

last_state-append :
    (ms : List Message) (s : ControllerState)
    → last_state (ms ++ server_state_controller s ∷ []) ≡ some s
last_state-append [] s = refl
last_state-append (server_state_controller t ∷ ms) s = rw (last_state-append ms s) refl
last_state-append (stream_start m ∷ ms) s = last_state-append ms s
last_state-append (stream_end roles ∷ ms) s = last_state-append ms s
last_state-append (server_state_metadata m ∷ ms) s = last_state-append ms s
last_state-append (binary bytes ∷ ms) s = last_state-append ms s

-- A change of the group's state.
pub data Change : Type 0 where
  sets_repeat : String → Change
  sets_shuffle : Bool → Change

unfoldable pub change :
    ControllerGroupRole → List ServerClient → Change → ControllerGroupRole × List ServerClient
change r clients (sets_repeat mode) = set_repeat r clients mode
change r clients (sets_shuffle on) = set_shuffle r clients on

unfoldable pub change_all :
    ControllerGroupRole → List ServerClient → List Change → ControllerGroupRole × List ServerClient
unfolding change
change_all r clients [] = (r, clients)
change_all r clients (x ∷ xs) = let (r', clients') = change r clients x in change_all r' clients' xs

-- A controller whose queue has room for `n` messages more, and whose last message is the state.
pub record InSync (n : ℕ) (r : ControllerGroupRole) (c : ServerClient) : Type 0 where
  pub controller : has_role c "controller" ≡ true
  pub room : length c.send_chan + n ≤ send_chan_size
  pub last : last_state c.send_chan ≡ some (controller_state r)

send-controller :
    (r : ControllerGroupRole) (c : ServerClient) (n : ℕ)
    → has_role c "controller" ≡ true
    → length c.send_chan + suc n ≤ send_chan_size
    → InSync n r (send c (server_state_controller (controller_state r))).1
unfolding send has_role
send-controller r c n h room =
    let m = server_state_controller (controller_state r) in
    let fits : ltb (length c.send_chan) send_chan_size ≡ true = ground arith in
    rw fits (record {
      controller = h;
      room = omega (arith, length-append c.send_chan (m ∷ []));
      last = last_state-append c.send_chan (controller_state r);
    })

tell_state-controller :
    (r : ControllerGroupRole) (c : ServerClient)
    → has_role c "controller" ≡ true
    → tell_state r c ≡ (send c (server_state_controller (controller_state r))).1
unfolding tell_state
tell_state-controller r c h = rw (h, tell_state) refl

InSync-less :
    (n : ℕ) (r : ControllerGroupRole) (cs : List ServerClient)
    → All (InSync (suc n) r) cs
    → All (InSync n r) cs
InSync-less n r cs =
    All-mono (InSync (suc n) r) (InSync n r) cs
      λ c s. record { controller = s.controller; room = omega (arith, s.room); last = s.last }

told-InSync :
    (n : ℕ) (old r : ControllerGroupRole) (cs : List ServerClient)
    → All (InSync (suc n) old) cs
    → All (InSync n r) (map (tell_state r) cs)
told-InSync n old r [] h = tt
told-InSync n old r (c ∷ cs) h = (
  rw (tell_state-controller r c h.0.controller) (send-controller r c n h.0.controller h.0.room),
  told-InSync n old r cs h.1,
)

broadcast_state-attached :
    (r : ControllerGroupRole) (cs : List ServerClient)
    → r.attached ≡ true
    → broadcast_state r cs ≡ map (tell_state r) cs
unfolding broadcast_state
broadcast_state-attached r cs a = rw (a, broadcast_state) refl

-- After a change of the role to `r`, either nothing had to be told or all were.
record Changed (n : ℕ) (p : ControllerGroupRole × List ServerClient) : Type 0 where
  pub attached : p.0.attached ≡ true
  pub in_sync : All (InSync n p.0) p.1

change-Changed :
    (n : ℕ) (r : ControllerGroupRole) (cs : List ServerClient) (x : Change)
    → r.attached ≡ true
    → All (InSync (suc n) r) cs
    → Changed n (change r cs x)
unfolding change set_repeat set_shuffle
change-Changed n r cs (sets_repeat mode) a h = elim (Bool-cases (str_eq r.repeat mode)) [
  | inl same ↦ rw same (record { attached = a; in_sync = InSync-less n r cs h })
  | inr other ↦
      let s : ControllerGroupRole = record r { repeat = mode } in
      rw other (record {
        attached = a;
        in_sync = rw (broadcast_state-attached s cs a) (told-InSync n r s cs h);
      })
]
change-Changed n r cs (sets_shuffle on) a h = elim (Bool-cases (same_bool r.shuffle on)) [
  | inl same ↦ rw same (record { attached = a; in_sync = InSync-less n r cs h })
  | inr other ↦
      let s : ControllerGroupRole = record r { shuffle = on } in
      rw other (record {
        attached = a;
        in_sync = rw (broadcast_state-attached s cs a) (told-InSync n r s cs h);
      })
]

-- If the role is registered and each of the given controllers has the role's state as the last one
-- in its queue, and room for as many messages as there are changes, then after any changes of repeat
-- and shuffle each has the new state as the last one in its queue.
pub change_all-InSync :
    (r : ControllerGroupRole) (cs : List ServerClient) (xs : List Change)
    → r.attached ≡ true
    → All (InSync (length xs) r) cs
    → All (InSync 0 (change_all r cs xs).0) (change_all r cs xs).1
unfolding change_all
change_all-InSync r cs [] a h = h
change_all-InSync r cs (x ∷ xs) a h =
    let p = change r cs x in
    let c = change-Changed (length xs) r cs x a h in
    change_all-InSync p.0 p.1 xs c.attached c.in_sync

-- A controller that joins, with room in its queue, is told the state.
pub controller_on_client_join-InSync :
    (r : ControllerGroupRole) (c : ServerClient) (n : ℕ)
    → has_role c "controller" ≡ true
    → length c.send_chan + suc n ≤ send_chan_size
    → InSync n r (controller_on_client_join r c)
unfolding controller_on_client_join
controller_on_client_join-InSync r c n h room = rw h (send-controller r c n h room)
