-- ===== src/Roles/Tests.antt =====
-- Clients at concrete roles and formats, and the theorems on them.
use sendspin_go.Prelude.{◌≡◌, refl, List, [], ◌∷◌, some, none, arith}
use sendspin_go.Prelude.Int.{ℤ, pos}
use sendspin_go.Prelude.Text.{String}
use sendspin_go.Roles.{
  AudioFormat, ServerClient, has_role, family, member, activate_loop, activate_roles,
  PlayerRoleConfig, buffer_capacity, player_on_client_join,
}
use sendspin_go.Roles.Activation.{family_of, first_versions, allowed_roles, activate_roles_lem}
use sendspin_go.Roles.Player.{Started, player_on_client_join_lem}

abbrev advertised : List String
advertised = "player@v2" ∷ "player@v1" ∷ "artwork@v1" ∷ "metadata@v1" ∷ []

activated :
    activate_roles ("player" ∷ []) ("metadata" ∷ []) advertised ≡ "player@v2" ∷ "metadata@v1" ∷ []
unfolding activate_roles activate_loop family member
activated = refl

activate_roles_lem_example :
    activate_roles ("player" ∷ []) ("metadata" ∷ []) advertised
    ≡ first_versions family_of (allowed_roles family_of ("player" ∷ "metadata" ∷ []) advertised)
activate_roles_lem_example = activate_roles_lem ("player" ∷ []) ("metadata" ∷ []) advertised

abbrev format : String → ℤ → AudioFormat
format codec rate = record {
  codec = codec;
  channels = pos 2;
  sample_rate = rate;
  bit_depth = pos 24;
}

abbrev client : ServerClient
client = record {
  id = "kitchen";
  name = "Kitchen";
  roles = advertised;
  capabilities = some (record {
    supported_formats = format "pcm" (pos 48_000) ∷ format "opus" (pos 48_000) ∷ [];
    buffer_capacity = pos 500_000;
  });
  codec = "";
  opus_encoder = none;
  flac_encoder = none;
  resampler = none;
  buffer_tracker = none;
  send_chan = [];
}

abbrev config : PlayerRoleConfig
config = record {
  sample_rate = pos 192_000;
  channels = pos 2;
  bit_depth = pos 24;
  new_encoder = some (λ rate channels samples. some 7);
  new_flac_encoder = none;
}

player_on_client_join_lem_example :
    Started config client (player_on_client_join (λ from to channels. 3) (λ e. "") config client)
unfolding has_role buffer_capacity
player_on_client_join_lem_example =
    player_on_client_join_lem (λ from to channels. 3) (λ e. "") config client refl (omega arith)
      (omega arith)
