-- ===== src/Dispatch/Laws/Changes.antt =====
-- What a configuration change and the clock do to open authorizations.
use text.Mathlib.TextEquality.{eq_iff}
use mathlib.Core.List.{Memᴰ}
use mathlib.Core.Option.{some-injective}
use personal_world.Prelude.{
  ℕ, String, true, false, Option, none, some, List, [], ◌∷◌, ◌≡◌, ◌⊎◌, inl, inr, refl, arith, ◌&&◌,
  ap, subst, ◌∙◌, leb, Option-cases, Bool-cases, if◌then◌else◌,
}
use personal_world.Table.{update_where, find_by-update_where, map_row}
use personal_world.Config.Store.{version_of}
use personal_world.Dispatch.Rows.{Authorization, invalidated, expired, Db, Dispatcher}
use personal_world.Dispatch.Base.{find_auth, auth_id, is_open}
use personal_world.Dispatch.Approve.{on_actions_changed, invalidate_all, stale, expire_due}
use personal_world.Dispatch.Moves.Cases.{changed_lem, expire_due_lem, with_auths}

-- The loop of `_on_actions_changed`, seen at one row.
sweep : Dispatcher → List String → Option Authorization → Option Authorization
sweep d [] o = o
sweep d (i ∷ ids) o = sweep d ids (map_row (stale d i) (λ b. record b { state = invalidated }) o)

find-sweep :
    (d : Dispatcher) (ids : List String) (k : ℕ) (db : Db)
    → find_auth k (invalidate_all d ids db).1 ≡ sweep d ids (find_auth k db)
unfolding invalidate_all sweep
find-sweep d [] k db = refl
find-sweep d (i ∷ ids) k db =
    find-sweep d ids k (
      with_auths db
        (update_where (stale d i) (λ b. record b { state = invalidated }) db.authorizations))
    ∙ ap (sweep d ids) (
        find_by-update_where auth_id (stale d i) (λ b. record b { state = invalidated }) (λ b. refl)
          k db.authorizations)

find-changed :
    (d : Dispatcher) (ids : List String) (k : ℕ) (db : Db)
    → find_auth k (on_actions_changed d ids db).1 ≡ sweep d ids (find_auth k db)
find-changed d ids k db = ap (find_auth k) (changed_lem d ids db) ∙ find-sweep d ids k db

sweep-none : (d : Dispatcher) (ids : List String) → sweep d ids none ≡ none
unfolding sweep
sweep-none d [] = refl
sweep-none d (i ∷ ids) = sweep-none d ids

-- The loop leaves a row alone, or closes it.
sweep-some :
    (d : Dispatcher) (ids : List String) (a : Authorization)
    → (sweep d ids (some a) ≡ some a)
      ⊎ (sweep d ids (some a) ≡ some (record a { state = invalidated }))
unfolding sweep
sweep-some d [] a = inl refl
sweep-some d (i ∷ ids) a = elim (Bool-cases (stale d i a)) [
  | inl e ↦ elim (sweep-some d ids (record a { state = invalidated })) [
    | inl f ↦ inr (ground (arith, e, f))
    | inr f ↦ inr (ground (arith, e, f))
  ]
  | inr e ↦ elim (sweep-some d ids a) [
    | inl f ↦ inl (ground (arith, e, f))
    | inr f ↦ inr (ground (arith, e, f))
  ]
]

sweep_hits :
    (d : Dispatcher) (i : String) (ids : List String) (a b : Authorization)
    → Memᴰ i ids
    → sweep d ids (some a) ≡ some b
    → is_open b.state ≡ true
    → stale d i b ≡ false
unfolding sweep
sweep_hits d i [] a b m h o = elim m [ ]
sweep_hits d i (j ∷ ids) a b (Memᴰ.head e) h o = rw e (elim (Bool-cases (stale d j a)) [
  | inl s ↦ absurd (ground (arith, s, sweep-some d ids (record a { state = invalidated })))
  | inr s ↦ elim (sweep-some d ids a) [
    | inl f ↦
        subst (λ x. stale d j x ≡ false) (some-injective a b (cc (f, h, unchanged j ids a s))) s
    | inr f ↦ absurd (ground (arith, s, f))
  ]
])
  where
    unchanged :
        (j : String) (ids : List String) (a : Authorization)
        → stale d j a ≡ false
        → sweep d (j ∷ ids) (some a) ≡ sweep d ids (some a)
    unchanged j ids a s = rw s
sweep_hits d i (j ∷ ids) a b (Memᴰ.tail m) h o = elim (Bool-cases (stale d j a)) [
  | inl s ↦ sweep_hits d i ids (record a { state = invalidated }) b m (ground (arith, s, h)) o
  | inr s ↦ sweep_hits d i ids a b m (ground (arith, s, h)) o
]

-- After the listener has run for a changed action, no authorization of that action is pending or
-- approved unless it still names the action's current version.
pub changed_closes_stale :
    (d : Dispatcher) (ids : List String) (i : String) (k : ℕ) (db : Db) {b : Authorization}
    → Memᴰ i ids
    → find_auth k (on_actions_changed d ids db).1 ≡ some b
    → b.action_id ≡ i
    → is_open b.state ≡ true
    → version_of d.store i ≡ some b.action_version
changed_closes_stale d ids i k db {b = b} m h same o = elim (Option-cases (find_auth k db)) [
  | inl e ↦ absurd (cc (find-changed d ids k db, e, h, sweep-none d ids))
  | inr (a, e) ↦
      current (version_of d.store i) refl
        (sweep_hits d i ids a b m (cc (find-changed d ids k db, e, h)) o)
]
  where
    current :
        (v : Option String)
        → version_of d.store i ≡ v
        → stale d i b ≡ false
        → version_of d.store i ≡ some b.action_version
    current none e s = absurd (ground (arith, e, s, same, o, eq_iff b.action_id i))
    current (some v) e s =
        ground (arith, e, s, same, o, eq_iff b.action_id i, eq_iff v b.action_version)

-- `expire_due` marks exactly the open authorizations whose time has come, and touches no other.
expire_due_exact :
    (now k : ℕ) (db : Db) {a : Authorization}
    → find_auth k db ≡ some a
    → find_auth k (expire_due now db).1
      ≡ some (if is_open a.state && leb a.expires_at now then record a { state = expired } else a)
expire_due_exact now k db {a = a} h =
    ap (find_auth k) (expire_due_lem db now)
    ∙ find_by-update_where auth_id (λ b. is_open b.state && leb b.expires_at now) _ (λ b. refl) k
        db.authorizations
    ∙ ap
        (map_row (λ b. is_open b.state && leb b.expires_at now) (λ b. record b { state = expired }))
        h
