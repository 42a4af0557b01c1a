-- ===== src/Roles/Can.antt =====
-- `effective_role`, `_can_target`, `can` and `permissions_for` of roles.py.
use personal_world.Prelude.{
  Bool, true, false, Option, none, some, List, [], ◌∷◌, ◌&&◌, ◌||◌, not, any, Text, codes,
  same_text, if◌then◌else◌,
}
use personal_world.Roles.Permissions.{
  Role, admin, member, Permission, all_permissions, role_named, permission_named, role_has,
  agent_scopes,
}

-- What the functions read of a principal; an attribute that is absent has its default.
pub record Principal : Type 0 where
  pub id : Option Text
  pub kind : Text
  pub scopes : List Text
  pub role : Option Text

abbrev pub is_text : Text → Option Text → Bool
is_text s none = false
is_text s (some t) = same_text t s

unfoldable pub has_text : Text → List Text → Bool
has_text s ts = any (λ t. same_text t s) ts

abbrev pub known_role : Option Text → Option Role
known_role none = none
known_role (some name) = role_named name

-- The legacy `admin` scope counts for a person whose role is missing, unknown or `member`.
abbrev pub role_or_legacy : Bool → Option Role → Role
role_or_legacy legacy none = if legacy then admin else member
role_or_legacy legacy (some member) = if legacy then admin else member
role_or_legacy legacy (some r) = r

-- `effective_role`
unfoldable pub effective_role : Option Principal → Role
unfolding has_text same_text role_named
effective_role none = member
effective_role (some p) =
    role_or_legacy (same_text p.kind (codes "person") && has_text (codes "admin") p.scopes)
      (known_role p.role)

-- A helper grant; `revoked` and `can_act` are the truth values of its fields.
pub record Grant : Type 0 where
  pub helper_id : Option Text
  pub person_id : Option Text
  pub revoked : Bool
  pub can_act : Bool

abbrev pub names : Text → Text → Grant → Bool
names caller target g = is_text caller g.helper_id && is_text target g.person_id && not g.revoked

-- The loop over the grants, of which those that are no dict are `none`.
unfoldable pub first_live : Text → Text → Text → List (Option Grant) → Bool
unfolding same_text
first_live permission caller target [] = false
first_live permission caller target (none ∷ rest) = first_live permission caller target rest
first_live permission caller target (some g ∷ rest) =
    let later = first_live permission caller target rest in
    if names caller target g
    then if same_text permission (codes "act_for") then g.can_act else true
    else later

abbrev pub between : Text → Option Text → Option Text → List (Option Grant) → Bool
between permission none target grants = false
between permission (some []) target grants = false
between permission (some caller) none grants = false
between permission (some caller) (some []) grants = false
between permission (some caller) (some target) grants = first_live permission caller target grants

-- `_can_target`
unfoldable pub can_target : Option Principal → Text → Option Text → List (Option Grant) → Bool
unfolding first_live same_text
can_target none permission target grants = false
can_target (some p) permission target grants =
    same_text p.kind (codes "person") && between permission p.id target grants

-- `permission in TARGET_PERMISSIONS`
abbrev pub is_target : Text → Bool
is_target permission =
    same_text permission (codes "see_needs_of") || same_text permission (codes "act_for")

-- The set intersection, as a test
unfoldable pub share_text : List Text → List Text → Bool
unfolding has_text
share_text ss ts = any (λ s. has_text s ts) ss

abbrev pub is_agent : Principal → Bool
is_agent p = same_text p.kind (codes "agent")

unfoldable pub can_do : Option Principal → Option Permission → Bool
unfolding share_text effective_role role_has agent_scopes
can_do p none = false
can_do none (some q) = false
can_do (some p) (some q) =
    if is_agent p
    then share_text (agent_scopes q) p.scopes && role_has (effective_role (some p)) q
    else role_has (effective_role (some p)) q

-- `can`
unfoldable pub can : Option Principal → Text → Option Text → List (Option Grant) → Bool
unfolding can_target can_do permission_named
can p permission target grants =
    if is_target permission
    then can_target p permission target grants
    else can_do p (permission_named permission)

unfoldable pub keep_held : Option Principal → List Permission → List Permission
unfolding can_do
keep_held p [] = []
keep_held p (q ∷ rest) =
    let later = keep_held p rest in if can_do p (some q) then q ∷ later else later

-- `permissions_for`
unfoldable pub permissions_for : Option Principal → List Permission
unfolding keep_held
permissions_for p = keep_held p all_permissions
