-- ===== src/Roles/Access.antt =====
-- What a role, a scope or a helper's grant lets a principal do.
use mathlib.Core.List.{Memᴰ}
use personal_world.Prelude.{
  true, false, Option, none, some, List, [], ◌∷◌, ◌≡◌, ◌⊎◌, inl, inr, arith, Text, codes, same_text,
  Option-cases, Bool-cases, refl, any,
}
use personal_world.Roles.Permissions.{
  Permission, own_space, see_shared, permission_named, role_has, agent_scopes,
}
use personal_world.Roles.Can.{
  Principal, Grant, names, can, can_do, can_target, first_live, between, is_target, is_agent,
  effective_role, share_text,
}

-- What the permission asks of an agent beyond its owner's role.
abbrev pub Scoped : Principal → Permission → Type 0
Scoped p q = (share_text (agent_scopes q) p.scopes ≡ true) × ((q ≡ own_space) ⊎ (q ≡ see_shared))

scoped : (p : Principal) (q : Permission) → share_text (agent_scopes q) p.scopes ≡ true → Scoped p q
unfolding share_text agent_scopes any
scoped p own_space h = (h, inl refl)
scoped p see_shared h = (h, inr refl)
scoped p Permission.approve h = absurd (cc h)
scoped p Permission.manage_people h = absurd (cc h)
scoped p Permission.manage_rooms h = absurd (cc h)
scoped p Permission.estate_secrets h = absurd (cc h)
scoped p Permission.transfer_ownership h = absurd (cc h)

-- `can` grants a role's permission only under a known name that the bundle of the effective role
-- holds; to an agent, only own_space and see_shared, and only with a scope that carries them.
pub can_sound :
    (p : Principal) (permission : Text) (target : Option Text) (grants : List (Option Grant))
    → is_target permission ≡ false
    → can (some p) permission target grants ≡ true
    → (q : Permission) × (permission_named permission ≡ some q)
      × (role_has (effective_role (some p)) q ≡ true)
      × ((is_agent p ≡ false) ⊎ Scoped p q)
unfolding can can_do
can_sound p permission target grants plain h = elim (Option-cases (permission_named permission)) [
  | inl e ↦ absurd (ground (arith, e))
  | inr (q, e) ↦ (q, e, holds q e, by_kind q e)
]
  where
    holds :
        (q : Permission)
        → permission_named permission ≡ some q
        → role_has (effective_role (some p)) q ≡ true
    holds q e = ground (arith, e)

    by_kind :
        (q : Permission) → permission_named permission ≡ some q → (is_agent p ≡ false) ⊎ Scoped p q
    by_kind q e = elim (Bool-cases (is_agent p)) [
      | inl agent ↦ inr (scoped p q (ground (arith, e, agent)))
      | inr person ↦ inl person
    ]

-- The grant that a helper's permission rests on.
abbrev pub Granted : Text → Text → Text → Grant → Type 0
Granted permission caller target g =
    (names caller target g ≡ true)
    × ((same_text permission (codes "act_for") ≡ false) ⊎ (g.can_act ≡ true))

first-Granted :
    (permission caller target : Text) (grants : List (Option Grant))
    → first_live permission caller target grants ≡ true
    → (g : Grant) × Memᴰ (some g) grants × Granted permission caller target g
unfolding first_live
first-Granted permission caller target [] h = absurd (ground arith)
first-Granted permission caller target (none ∷ rest) h =
    let (g, m, x) = first-Granted permission caller target rest h in (g, Memᴰ.tail m, x)
first-Granted permission caller target (some g ∷ rest) h =
    elim (Bool-cases (names caller target g)) [
      | inl e ↦ (g, Memᴰ.head refl, (e, may_act e))
      | inr e ↦
          let (x, m, r) = first-Granted permission caller target rest (ground (arith, e)) in
          (x, Memᴰ.tail m, r)
    ]
  where
    may_act :
        names caller target g ≡ true
        → (same_text permission (codes "act_for") ≡ false) ⊎ (g.can_act ≡ true)
    may_act e = elim (Bool-cases (same_text permission (codes "act_for"))) [
      | inl a ↦ inr (ground (arith, e, a))
      | inr a ↦ inl a
    ]

-- `can` grants a helper's permission only to a person with an id, for a named person, on an unrevoked
-- grant between the two; `act_for` needs one that allows acting.
helper_sound :
    (p : Principal) (permission : Text) (target : Option Text) (grants : List (Option Grant))
    → is_target permission ≡ true
    → can (some p) permission target grants ≡ true
    → (same_text p.kind (codes "person") ≡ true)
      × ((caller : Text) × (person : Text) × (p.id ≡ some caller)
          × (target ≡ some person)
          × ((g : Grant) × Memᴰ (some g) grants × Granted permission caller person g))
unfolding can can_target
helper_sound p permission target grants helper h =
    (ground (arith, helper), by_ids p.id target refl refl (ground (arith, helper)))
  where
    by_ids :
        (caller person : Option Text)
        → p.id ≡ caller
        → target ≡ person
        → between permission caller person grants ≡ true
        → (c : Text) × (d : Text) × (p.id ≡ some c)
          × (target ≡ some d)
          × ((g : Grant) × Memᴰ (some g) grants × Granted permission c d g)
    by_ids none person e f b = absurd (ground arith)
    by_ids (some []) person e f b = absurd (ground arith)
    by_ids (some (c ∷ cs)) none e f b = absurd (ground arith)
    by_ids (some (c ∷ cs)) (some []) e f b = absurd (ground arith)
    by_ids (some (c ∷ cs)) (some (d ∷ ds)) e f b =
        (c ∷ cs, d ∷ ds, e, f, first-Granted permission (c ∷ cs) (d ∷ ds) grants b)
