-- ===== src/Roles/Permissions.antt =====
-- The tables of roles.py: roles, permissions and the scopes of agents.
use personal_world.Prelude.{
  ℕ, Bool, true, false, Option, none, some, List, [], ◌∷◌, Text, codes, same_text, if◌then◌else◌,
}

-- `ROLES`, highest privilege first
pub data Role : Type 0 where
  owner admin member supervised guest : Role

-- `PERMISSIONS`, in their order
pub data Permission : Type 0 where
  own_space see_shared approve manage_people manage_rooms estate_secrets : Permission
  transfer_ownership : Permission

abbrev pub all_permissions : List Permission
all_permissions =
    own_space ∷ see_shared ∷ approve ∷ manage_people ∷ manage_rooms ∷ estate_secrets
    ∷ transfer_ownership ∷ []

-- `role in ROLE_PERMISSIONS`, with the role of that name
unfoldable pub role_named : Text → Option Role
unfolding same_text
role_named name =
    if same_text name (codes "owner")
    then some owner
    else if same_text name (codes "admin")
    then some admin
    else if same_text name (codes "member")
    then some member
    else if same_text name (codes "supervised")
    then some supervised
    else if same_text name (codes "guest")
    then some guest
    else none

-- `permission in PERMISSIONS`, with the permission of that name
unfoldable pub permission_named : Text → Option Permission
unfolding same_text
permission_named name =
    if same_text name (codes "own_space")
    then some own_space
    else if same_text name (codes "see_shared")
    then some see_shared
    else if same_text name (codes "approve")
    then some approve
    else if same_text name (codes "manage_people")
    then some manage_people
    else if same_text name (codes "manage_rooms")
    then some manage_rooms
    else if same_text name (codes "estate_secrets")
    then some estate_secrets
    else if same_text name (codes "transfer_ownership")
    then some transfer_ownership
    else none

-- `_role_has`, with `ROLE_PERMISSIONS`
unfoldable pub role_has : Role → Permission → Bool
role_has owner q = true
role_has admin transfer_ownership = false
role_has admin q = true
role_has member own_space = true
role_has member see_shared = true
role_has member q = false
role_has supervised own_space = true
role_has supervised see_shared = true
role_has supervised q = false
role_has guest see_shared = true
role_has guest q = false

-- `AGENT_SCOPE_PERMISSIONS`
unfoldable pub agent_scopes : Permission → List Text
agent_scopes own_space = codes "write" ∷ codes "journal" ∷ []
agent_scopes see_shared = codes "read" ∷ []
agent_scopes q = []

-- `_ROLE_RANK`
unfoldable pub rank : Role → ℕ
rank owner = 0
rank admin = 1
rank member = 2
rank supervised = 3
rank guest = 4
