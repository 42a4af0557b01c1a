-- ===== src/Roles/Tests.antt =====
-- The roles at concrete inputs.
use personal_world.Prelude.{
  ℕ, Bool, true, false, Option, none, some, List, [], ◌∷◌, ◌≡◌, ◌⊎◌, refl, Text, codes, same_text,
  any, ◌==◌, nat_eq,
}
use personal_world.Roles.Permissions.{
  Permission, see_shared, permission_named, role_has, agent_scopes, role_named,
}
use personal_world.Roles.Can.{
  Principal, Grant, can, can_do, is_agent, effective_role, share_text, has_text, permissions_for,
  keep_held,
}
use personal_world.Roles.Access.{Scoped, can_sound}

abbrev bot : Principal
bot = record {
  id = some (codes "bot");
  kind = codes "agent";
  scopes = codes "read" ∷ [];
  role = some (codes "admin");
}

abbrev nurse : Principal
nurse = record {
  id = some (codes "nora");
  kind = codes "person";
  scopes = [];
  role = some (codes "guest");
}

abbrev grants : List (Option Grant)
grants =
    none
    ∷ some (record {
      helper_id = some (codes "nora");
      person_id = some (codes "opa");
      revoked = false;
      can_act = true;
    })
    ∷ []

-- A guest sees what is shared and nothing more.
guest_permissions : permissions_for (some nurse) ≡ see_shared ∷ []
unfolding permissions_for keep_held can_do effective_role role_named role_has has_text any same_text
guest_permissions = refl

can_sound_example :
    (q : Permission) × (permission_named (codes "see_shared") ≡ some q)
    × (role_has (effective_role (some bot)) q ≡ true)
    × ((is_agent bot ≡ false) ⊎ Scoped bot q)
unfolding can can_do permission_named effective_role role_named role_has agent_scopes share_text
    has_text any same_text
can_sound_example = can_sound bot (codes "see_shared") none [] refl refl

abbrev space : ℕ → Bool
space c = c == 32

abbrev mapping : Text
mapping = codes "admins=admin, users = member,top=owner"

abbrev groups : List Text
groups = codes "users" ∷ codes "top" ∷ codes "admins" ∷ []
