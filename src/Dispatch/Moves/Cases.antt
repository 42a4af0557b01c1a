-- ===== src/Dispatch/Moves/Cases.antt =====
-- What each operation leaves in the database: the same, or one UPDATE or INSERT of the table.
use personal_world.Prelude.{
  ℕ, String, Bool, true, false, Option, none, some, List, [], ◌∷◌, ◌++◌, ◌&&◌, not, ◌==◌, nat_eq,
  string_eq, leb, ltb, ◌≡◌, ◌⊎◌, inl, inr, refl, arith, Bool-cases, Option-cases,
}
use personal_world.Tx.{Result, ok, err, write_tx}
use personal_world.Table.{count_where, find_by, update_where}
use personal_world.Value.{Value}
use personal_world.Authn.Principal.{Principal}
use personal_world.Config.Store.{version_of}
use personal_world.Dispatch.Rows.{Authorization, Db, Dispatcher, Error, denied, expired, consumed}
use personal_world.Dispatch.Base.{
  Target, target_of, may_touch, is_unsettled, find_exec, exec_auth, auth_id, find_auth, is_pending,
  is_open, is_approved, opt_is,
}
use personal_world.Dispatch.Request.{
  insert_authorization, check_request, new_authorization, request_authorization, or_empty,
}
use personal_world.Dispatch.Approve.{
  approve, approved_by_owner, approved_by_project_home, record_project_home_approval, deny,
  expire_due, invalidate_all, on_actions_changed,
}
use personal_world.Dispatch.Execute.{consume, new_execution, receipt}
use personal_world.Dispatch.Recover.{request_retry, params_again, may_have_run}

abbrev pub with_auths : Db → List Authorization → Db
with_auths db rows = record db { authorizations = rows }

-- The row that `request_authorization` inserts.
abbrev pub request_row :
    Dispatcher
    → Principal
    → String
    → Option Value
    → Option String
    → Option ℕ
    → Bool
    → ℕ
    → ℕ
    → Target
    → String
    → Authorization
request_row d p action_id params key retry_of warn now aid t version =
    new_authorization d p action_id t version (or_empty params) key retry_of warn now aid

-- The tests of `_consume`'s UPDATE on a row, and the rows that it changes.
abbrev pub may_consume : Dispatcher → Authorization → ℕ → Authorization → Bool
may_consume d a now b =
    is_approved b.state
    && ltb now b.expires_at
    && opt_is (version_of d.store a.action_id) b.action_version

abbrev pub consumable : Dispatcher → Authorization → ℕ → ℕ → Authorization → Bool
consumable d a aid now b = (auth_id b == aid) && may_consume d a now b

-- What `_consume` leaves where it succeeds.
abbrev pub after_consume : Dispatcher → Authorization → ℕ → ℕ → ℕ → Db → Db
after_consume d a aid now eid db = record db {
  authorizations =
      update_where (consumable d a aid now) (λ b. record b { state = consumed }) db.authorizations;
  executions = db.executions ++ new_execution d a now eid ∷ [];
}

module _ (db : Db) where
  pub approve_cases :
      (d : Dispatcher) (p : Principal) (aid step_up_now now : ℕ)
      → ((approve d p aid step_up_now now db).1 ≡ db)
        ⊎ ((approve d p aid step_up_now now db).1
            ≡ with_auths db (
                update_where
                  (λ b. (auth_id b == aid) && is_pending b.state)
                  (approved_by_owner p now)
                  db.authorizations))
  unfolding approve
  approve_cases d p aid step_up_now now = grind arith

  pub project_home_cases :
      (d : Dispatcher) (aid : ℕ) (ph_id : String) (now : ℕ)
      → ((record_project_home_approval d aid ph_id now db).1 ≡ db)
        ⊎ ((record_project_home_approval d aid ph_id now db).1
            ≡ with_auths db (
                update_where
                  (λ b. (auth_id b == aid) && is_pending b.state)
                  (approved_by_project_home ph_id now)
                  db.authorizations))
  unfolding record_project_home_approval
  project_home_cases d aid ph_id now = grind arith

  pub deny_cases :
      (p : Principal) (aid : ℕ)
      → ((deny p aid db).1 ≡ db)
        ⊎ ((deny p aid db).1
            ≡ with_auths db (
                update_where
                  (λ b. (auth_id b == aid) && is_open b.state)
                  (λ b. record b { state = denied })
                  db.authorizations))
  unfolding deny
  deny_cases p aid = grind arith

  pub expire_due_lem :
      (now : ℕ)
      → (expire_due now db).1
        ≡ with_auths db (
            update_where
              (λ b. is_open b.state && leb b.expires_at now)
              (λ b. record b { state = expired })
              db.authorizations)
  unfolding expire_due
  expire_due_lem now = refl

  pub insert_cases :
      (a : Authorization)
      → ((write_tx (insert_authorization a) db).1 ≡ db)
        ⊎ ((find_auth a.id db ≡ none)
            × ((write_tx (insert_authorization a) db).1
                ≡ with_auths db (db.authorizations ++ a ∷ [])))
  unfolding write_tx insert_authorization
  insert_cases a = grind arith

  module _ (d : Dispatcher) (p : Principal) (action_id : String) (params : Option Value)
      (key : Option String) (retry_of : Option ℕ) (warn : Bool) (now aid : ℕ) where
    pub request_writes :
        ((request_authorization d p action_id params key retry_of warn now aid db).1 ≡ db)
        ⊎ ((t : Target) × (version : String) × ((request_authorization d p action_id params key
                retry_of warn now aid db).1
              ≡ (write_tx
                  (insert_authorization
                    (request_row d p action_id params key retry_of warn now aid t version))
                  db).1))
    unfolding request_authorization
    request_writes = elim (Option-cases (target_of d.store action_id)) [
      | inl e ↦ inl (ground arith)
      | inr (t, e) ↦ elim (Option-cases (version_of d.store action_id)) [
        | inl f ↦ inl (ground arith)
        | inr (version, f) ↦ elim (Bool-cases (refuses t)) [
          | inl g ↦ inl (ground arith)
          | inr g ↦ inr (t, version, ground arith)
        ]
      ]
    ]
      where
        is_err : Result Error (Unit {0}) → Bool
        is_err (ok u) = false
        is_err (err e) = true

        refuses : Target → Bool
        refuses t = is_err (check_request d p t (or_empty params) key)

  pub consume_cases :
      (d : Dispatcher) (p : Principal) (aid now eid : ℕ)
      → ((consume d p aid now eid db).1 ≡ db)
        ⊎ ((a : Authorization) × (find_auth aid db ≡ some a)
            × (find_exec eid db ≡ none)
            × (find_by exec_auth a.id db.executions ≡ none)
            × (count_where (consumable d a aid now) db.authorizations ≡ 1)
            × ((consume d p aid now eid db).1 ≡ after_consume d a aid now eid db))
  unfolding consume
  consume_cases d p aid now eid = ground arith

  pub retry_cases :
      (d : Dispatcher) (p : Principal) (eid now aid : ℕ)
      → ((request_retry d p eid now aid db).1 ≡ db)
        ⊎ ((action_id : String) × (params : Option Value) × (key : Option String) × (warn : Bool)
            × (request_retry d p eid now aid db
                ≡ request_authorization d p action_id params key (some eid) warn now aid db))
  unfolding request_retry receipt
  retry_cases d p eid now aid = elim (Option-cases (find_exec eid db)) [
    | inl e ↦ inl (ground arith)
    | inr (x, e) ↦ elim (Option-cases (find_auth x.authorization_id db)) [
      | inl f ↦ inl (ground arith)
      | inr (a, f) ↦ elim (Bool-cases (may_touch p a && not (is_unsettled x.state))) [
        | inl g ↦ inr (
          a.action_id,
          params_again (d.codec.loads a.params_json),
          x.idempotency_key,
          may_have_run x.state,
          ground arith,
        )
        | inr g ↦ inl (ground arith)
      ]
    ]
  ]

invalidate_all_ok :
    (d : Dispatcher) (ids : List String) (db : Db) → (invalidate_all d ids db).0 ≡ ok tt
unfolding invalidate_all
invalidate_all_ok d [] db = refl
invalidate_all_ok d (action_id ∷ rest) db = invalidate_all_ok d rest _

pub changed_lem :
    (d : Dispatcher) (ids : List String) (db : Db)
    → (on_actions_changed d ids db).1 ≡ (invalidate_all d ids db).1
unfolding on_actions_changed
changed_lem d ids db = ground (arith, invalidate_all_ok d ids db)
