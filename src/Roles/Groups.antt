-- ===== src/Roles/Groups.antt =====
-- `role_for_groups` of roles.py.
use personal_world.Prelude.{
  ℕ, Bool, true, false, Option, none, some, List, [], ◌∷◌, ◌&&◌, ◌||◌, ltb, Text, same_text,
  if◌then◌else◌, ◌==◌, nat_eq,
}
use personal_world.Roles.Permissions.{Role, owner, role_named, rank}

abbrev pub no_text : Text → Bool
no_text [] = true
no_text (c ∷ t) = false

abbrev grow : ℕ → List Text → List Text
grow c [] = (c ∷ []) ∷ []
grow c (t ∷ ts) = (c ∷ t) ∷ ts

-- `split(",")`
unfoldable pub split_on : ℕ → Text → List Text
split_on sep [] = [] ∷ []
split_on sep (c ∷ t) = let rest = split_on sep t in if c == sep then [] ∷ rest else grow c rest

-- `partition("=")`: what stands before and after the first one, if there is one
unfoldable pub partition_at : ℕ → Text → Option (Text × Text)
partition_at sep [] = none
partition_at sep (c ∷ t) =
    let rest = partition_at sep t in
    if c == sep then some ([], t) else elim rest [ none ↦ none | some p ↦ some (c ∷ p.0, p.1) ]

-- `strip()`, by what Python counts as a space
unfoldable pub strip_front : (ℕ → Bool) → Text → Text
strip_front space [] = []
strip_front space (c ∷ t) = let rest = strip_front space t in if space c then rest else c ∷ t

unfoldable pub strip_back : (ℕ → Bool) → Text → Text
strip_back space [] = []
strip_back space (c ∷ t) =
    let rest = strip_back space t in if no_text rest && space c then [] else c ∷ rest

unfoldable pub strip : (ℕ → Bool) → Text → Text
unfolding strip_front strip_back
strip space t = strip_back space (strip_front space t)

abbrev pub add_role : Text → Option Role → List (Text × Role) → List (Text × Role)
add_role group none table = table
add_role group (some owner) table = table
add_role group (some r) table = (group, r) ∷ table

-- One entry of the mapping; a later entry of the same group stands before the earlier ones.
abbrev pub add_entry : (ℕ → Bool) → Option (Text × Text) → List (Text × Role) → List (Text × Role)
add_entry space none table = table
add_entry space (some p) table =
    let group = strip space p.0 in
    let name = strip space p.1 in
    if no_text group || no_text name then table else add_role group (role_named name) table

unfoldable pub group_roles : (ℕ → Bool) → List Text → List (Text × Role) → List (Text × Role)
unfolding partition_at strip role_named same_text
group_roles space [] table = table
group_roles space (entry ∷ rest) table =
    group_roles space rest (add_entry space (partition_at 61 entry) table)

unfoldable pub role_of : Text → List (Text × Role) → Option Role
unfolding same_text
role_of group [] = none
role_of group (p ∷ rest) =
    let later = role_of group rest in if same_text group p.0 then some p.1 else later

abbrev pub better : Option Role → Option Role → Option Role
better best none = best
better none (some r) = some r
better (some b) (some r) = if ltb (rank r) (rank b) then some r else some b

unfoldable pub best_of : List (Text × Role) → List Text → Option Role → Option Role
unfolding role_of rank
best_of table [] best = best
best_of table (group ∷ rest) best = best_of table rest (better best (role_of group table))

-- `role_for_groups`
unfoldable pub role_for_groups : (ℕ → Bool) → List Text → Text → Option Role
unfolding best_of group_roles split_on
role_for_groups space groups mapping =
    if no_text mapping
    then none
    else best_of (group_roles space (split_on 44 mapping) []) groups none
