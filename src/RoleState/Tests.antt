-- ===== src/RoleState/Tests.antt =====
-- The roles of pkg/sendspin/role_controller.go and role_metadata.go at concrete clients.
use sendspin_go.Prelude.{◌≡◌, refl, true, false, List, [], ◌∷◌, some, none, arith, All}
use sendspin_go.Prelude.Int.{pos}
use sendspin_go.Roles.{ServerClient, has_role}
use sendspin_go.RoleState.{
  ControllerGroupRole, new_controller_role, controller_on_client_join, MetadataGroupRole,
  on_playback_state_changed,
}
use sendspin_go.RoleState.InSync.{
  Change, sets_repeat, sets_shuffle, InSync, change_all, change_all-InSync,
  controller_on_client_join-InSync,
}

abbrev remote : ServerClient
remote = record {
  id = "remote";
  name = "Remote";
  roles = "controller@v1" ∷ [];
  capabilities = none;
  codec = "";
  opus_encoder = none;
  flac_encoder = none;
  resampler = none;
  buffer_tracker = none;
  send_chan = [];
}

abbrev role : ControllerGroupRole
role = record (new_controller_role ("next" ∷ []) "" false none) { attached = true }

abbrev joined : ServerClient
joined = controller_on_client_join role remote

abbrev changes : List Change
changes = sets_repeat "all" ∷ sets_repeat "all" ∷ sets_shuffle true ∷ []

joined-InSync : InSync 3 role joined
unfolding has_role
joined-InSync = controller_on_client_join-InSync role remote 3 refl (omega arith)

change_all-InSync_example :
    All
      (InSync 0 (change_all role (joined ∷ []) changes).0)
      (change_all role (joined ∷ []) changes).1
change_all-InSync_example = change_all-InSync role (joined ∷ []) changes refl (joined-InSync, tt)

abbrev metadata : MetadataGroupRole
metadata = record {
  get_metadata = some ("Song", "Band", "Record");
  clock_micros = some (pos 7);
  attached = true;
}

-- A client without the role is sent nothing.
transition : on_playback_state_changed metadata (remote ∷ []) "stopped" "playing" ≡ remote ∷ []
unfolding on_playback_state_changed has_role
transition = refl
