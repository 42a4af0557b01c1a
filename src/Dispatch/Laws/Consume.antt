-- ===== src/Dispatch/Laws/Consume.antt =====
-- `_consume`: the approved authorization becomes an execution in INTENT.
use text.Mathlib.TextEquality.{eq_iff}
use personal_world.Prelude.{
  ℕ, ◌<◌, String, true, Option, none, some, [], ◌∷◌, ◌≡◌, inl, inr, refl, arith, nat_eq, sym, subst,
  ◌∙◌, Option-cases,
}
use personal_world.Tx.{ok, err, write_tx}
use personal_world.Table.{
  find_by, count_where, find_by-update_where, find_by-append, find_by-key, count_where-by_key,
}
use personal_world.Authn.Principal.{Principal}
use personal_world.Config.Store.{version_of}
use personal_world.Dispatch.Rows.{approved, consumed, Db, Dispatcher, Error}
use personal_world.Dispatch.Base.{
  target_of, find_auth, find_exec, auth_id, exec_id, exec_auth, may_touch,
}
use personal_world.Dispatch.Request.{params_hash}
use personal_world.Dispatch.Execute.{Consumed, consume, new_execution}
use personal_world.Dispatch.Moves.Cases.{consumable, may_consume, after_consume}
use personal_world.Dispatch.System.Invariant.{IsSound}

-- What `_consume` demands, for the row `a` under the id and its target.
pub record Consumption (d : Dispatcher) (p : Principal) (aid now eid : ℕ) (db : Db) (c : Consumed)
    : Type 0 where
  pub found : find_auth aid db ≡ some c.row
  pub allowed : may_touch p c.row ≡ true
  pub resolved : target_of d.store c.row.action_id ≡ some c.target
  pub hashed : c.row.params_hash ≡ params_hash d.codec (d.codec.loads c.row.params_json)
  pub once : count_where (consumable d c.row aid now) db.authorizations ≡ 1
  pub fresh_id : find_exec eid db ≡ none
  pub fresh_auth : find_by exec_auth c.row.id db.executions ≡ none
  pub same_id : c.execution_id ≡ eid
  pub left : (consume d p aid now eid db).1 ≡ after_consume d c.row aid now eid db

pub consume_ok :
    (d : Dispatcher) (p : Principal) (aid now eid : ℕ) (db : Db) {c : Consumed}
    → (consume d p aid now eid db).0 ≡ ok c
    → Consumption d p aid now eid db c
unfolding consume
consume_ok d p aid now eid db {c = c} h = elim (Option-cases (find_auth aid db)) [
  | inl e ↦ absurd (ground (arith, e))
  | inr (a, e) ↦ elim (Option-cases (target_of d.store a.action_id)) [
    | inl f ↦ absurd (ground (arith, e, f))
    | inr (t, f) ↦
        ground
          (arith, e, f, eq_iff a.params_hash (params_hash d.codec (d.codec.loads a.params_json)))
  ]
]

pub consume_err :
    (d : Dispatcher) (p : Principal) (aid now eid : ℕ) (db : Db) {e : Error}
    → (consume d p aid now eid db).0 ≡ err e
    → (consume d p aid now eid db).1 ≡ db
unfolding consume write_tx
consume_err d p aid now eid db h = ground arith

-- From sound tables, `_consume` succeeds only on an approved, unexpired authorization of the current
-- version, called by the owner or the requester; the authorization is then consumed, and exactly its
-- execution, in INTENT, is recorded under the fresh id.
pub consume_sound :
    (d : Dispatcher) (p : Principal) (aid now eid : ℕ) (db : Db) {c : Consumed}
    → IsSound db
    → (consume d p aid now eid db).0 ≡ ok c
    → (find_auth aid db ≡ some c.row)
      × (may_touch p c.row ≡ true)
      × (c.row.state ≡ approved)
      × (now < c.row.expires_at)
      × (version_of d.store c.row.action_id ≡ some c.row.action_version)
      × (find_auth aid (consume d p aid now eid db).1 ≡ some (record (c.row) { state = consumed }))
      × (find_exec eid (consume d p aid now eid db).1 ≡ some (new_execution d c.row now eid))
consume_sound d p aid now eid db {c = c} s h = (
  k.found,
  k.allowed,
  ground (arith, ready),
  ground (arith, ready),
  version_now (version_of d.store c.row.action_id) refl,
  subst (λ (x : Db). find_auth aid x ≡ some (record (c.row) { state = consumed })) (sym k.left)
      row_consumed,
  subst (λ (x : Db). find_exec eid x ≡ some (new_execution d c.row now eid)) (sym k.left)
      row_recorded,
)
  where
    k : Consumption d p aid now eid db c
    k = consume_ok d p aid now eid db h

    ready : may_consume d c.row now c.row ≡ true
    ready = ground (
      arith,
      k.once,
      k.found,
      count_where-by_key auth_id aid (may_consume d c.row now) db.authorizations s.auth_ids,
    )

    version_now :
        (v : Option String)
        → version_of d.store c.row.action_id ≡ v
        → version_of d.store c.row.action_id ≡ some c.row.action_version
    version_now none e = absurd (ground (arith, ready, e))
    version_now (some v) e = ground (arith, ready, e, eq_iff v c.row.action_version)

    row_consumed :
        find_auth aid (after_consume d c.row aid now eid db)
        ≡ some (record (c.row) { state = consumed })
    row_consumed =
        find_by-update_where auth_id (consumable d c.row aid now) _ (λ b. refl) aid
          db.authorizations
        ∙ ground (arith, ready, k.found, find_by-key auth_id aid db.authorizations k.found)

    row_recorded :
        find_exec eid (after_consume d c.row aid now eid db) ≡ some (new_execution d c.row now eid)
    row_recorded =
        find_by-append exec_id eid db.executions (new_execution d c.row now eid ∷ [])
        ∙ unfold find_by in ground (arith, k.fresh_id)
