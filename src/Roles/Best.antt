-- ===== src/Roles/Best.antt =====
-- The role that a person's groups give.
use mathlib.Core.List.{Memᴰ}
use personal_world.Prelude.{
  ap, ◌∙◌, ℕ, ◌≤◌, Bool, Option, none, some, List, [], ◌∷◌, ◌≡◌, ◌≢◌, ◌⊎◌, ◌||◌, inl, inr, refl,
  arith, Text, Bool-cases, ltb,
}
use personal_world.Roles.Permissions.{
  Role, owner, admin, member, supervised, guest, role_named, rank,
}
use personal_world.Roles.Groups.{
  role_of, better, best_of, group_roles, add_entry, partition_at, split_on, role_for_groups, strip,
  add_role, no_text,
}

-- No entry of the table names `owner`.
abbrev NoOwner : List (Text × Role) → Type 0
NoOwner table = (group : Text) → role_of group table ≢ some owner

add_role-NoOwner :
    (group : Text) (r : Option Role) (table : List (Text × Role))
    → NoOwner table
    → NoOwner (add_role group r table)
unfolding role_of
add_role-NoOwner group none table h = h
add_role-NoOwner group (some owner) table h = h
add_role-NoOwner group (some admin) table h = λ g e. h g (ground arith)
add_role-NoOwner group (some member) table h = λ g e. h g (ground arith)
add_role-NoOwner group (some supervised) table h = λ g e. h g (ground arith)
add_role-NoOwner group (some guest) table h = λ g e. h g (ground arith)

add_entry-NoOwner :
    (space : ℕ → Bool) (entry : Option (Text × Text)) (table : List (Text × Role))
    → NoOwner table
    → NoOwner (add_entry space entry table)
add_entry-NoOwner space none table h = h
add_entry-NoOwner space (some p) table h =
    elim (Bool-cases (no_text (strip space p.0) || no_text (strip space p.1))) [
      | inl e ↦ rw e h
      | inr e ↦ rw e (add_role-NoOwner (strip space p.0) (role_named (strip space p.1)) table h)
    ]

group_roles-NoOwner :
    (space : ℕ → Bool) (entries : List Text) (table : List (Text × Role))
    → NoOwner table
    → NoOwner (group_roles space entries table)
unfolding group_roles
group_roles-NoOwner space [] table h = h
group_roles-NoOwner space (entry ∷ rest) table h =
    group_roles-NoOwner space rest (add_entry space (partition_at 61 entry) table)
      (add_entry-NoOwner space (partition_at 61 entry) table h)

-- The best role so far is one of the groups', and none of them is of a higher rank.
best_of-member :
    (table : List (Text × Role)) (groups : List Text) (best : Option Role) {r : Role}
    → best_of table groups best ≡ some r
    → (best ≡ some r) ⊎ ((group : Text) × Memᴰ group groups × (role_of group table ≡ some r))
unfolding best_of
best_of-member table [] best h = inl h
best_of-member table (group ∷ rest) best {r = q} h =
    elim (best_of-member table rest (better best (role_of group table)) h) [
      | inl e ↦ from_better best (role_of group table) refl e
      | inr (g, m, e) ↦ inr (g, Memᴰ.tail m, e)
    ]
  where
    from_better :
        (b o : Option Role)
        → role_of group table ≡ o
        → better b o ≡ some q
        → (b ≡ some q) ⊎ ((g : Text) × Memᴰ g (group ∷ rest) × (role_of g table ≡ some q))
    from_better b none f e = inl e
    from_better none (some r) f e = inr (group, Memᴰ.head refl, cc)
    from_better (some b) (some r) f e = elim (Bool-cases (ltb (rank r) (rank b))) [
      | inl l ↦ inr (group, Memᴰ.head refl, ground (arith, f, e, l))
      | inr l ↦ inl (ground (arith, e, l))
    ]

-- The rank of the best so far; none ranks below every role.
abbrev rank_or : Option Role → ℕ
rank_or none = 5
rank_or (some r) = rank r

rank-bounded : (r : Role) → rank r ≤ 4
unfolding rank
rank-bounded owner = omega arith
rank-bounded admin = omega arith
rank-bounded member = omega arith
rank-bounded supervised = omega arith
rank-bounded guest = omega arith

better-rank :
    (b o : Option Role) → (rank_or (better b o) ≤ rank_or b) × (rank_or (better b o) ≤ rank_or o)
better-rank none none = (omega arith, omega arith)
better-rank (some b) none = (omega arith, ground (arith, rank-bounded b))
better-rank none (some r) = (ground (arith, rank-bounded r), omega arith)
better-rank (some b) (some r) = (ground arith, ground arith)

best_of-rank :
    (table : List (Text × Role)) (groups : List Text) (best : Option Role)
    → rank_or (best_of table groups best) ≤ rank_or best
unfolding best_of
best_of-rank table [] best = omega arith
best_of-rank table (group ∷ rest) best = ground (
  arith,
  best_of-rank table rest (better best (role_of group table)),
  better-rank best (role_of group table),
)

best_of-least :
    (table : List (Text × Role)) (groups : List Text) (best : Option Role) (group : Text)
    → Memᴰ group groups
    → rank_or (best_of table groups best) ≤ rank_or (role_of group table)
unfolding best_of
best_of-least table [] best group m = elim m [ ]
best_of-least table (g ∷ rest) best group (Memᴰ.head e) = ground (
  arith,
  e,
  best_of-rank table rest (better best (role_of g table)),
  better-rank best (role_of g table),
)
best_of-least table (g ∷ rest) best group (Memᴰ.tail m) =
    best_of-least table rest (better best (role_of g table)) group m

-- The groups never make anybody the owner: the role that they give is one that the mapping names for
-- one of the groups.
group_role_sound :
    (space : ℕ → Bool) (groups : List Text) (mapping : Text) {r : Role}
    → role_for_groups space groups mapping ≡ some r
    → (r ≢ owner)
      × ((group : Text) × Memᴰ group groups
          × (role_of group (group_roles space (split_on 44 mapping) []) ≡ some r))
unfolding role_for_groups
group_role_sound space groups mapping {r} h = (not_owner, source)
  where
    source :
        (group : Text) × Memᴰ group groups
        × (role_of group (group_roles space (split_on 44 mapping) []) ≡ some r)
    source =
        elim (best_of-member (group_roles space (split_on 44 mapping) []) groups none {r = r}
          (ground arith)) [ inl e ↦ absurd (cc e) | inr x ↦ x ]

    not_owner : r ≢ owner
    not_owner e =
        group_roles-NoOwner space (split_on 44 mapping) [] (λ g c. cc c) source.0
          (source.2 ∙ ap some e)

-- No group of the person maps to a role of a higher privilege than the one that they get.
group_role_best :
    (space : ℕ → Bool) (groups : List Text) (mapping : Text) (group : Text) {r q : Role}
    → role_for_groups space groups mapping ≡ some r
    → Memᴰ group groups
    → role_of group (group_roles space (split_on 44 mapping) []) ≡ some q
    → rank r ≤ rank q
unfolding role_for_groups
group_role_best space groups mapping group h m e =
    ground
      (arith, h, e, best_of-least (group_roles space (split_on 44 mapping) []) groups none group m)
