-- ===== src/Dispatch/System/Unchanged.antt =====
-- The operations that leave the executions alone.
use personal_world.Prelude.{
  ℕ, String, Bool, Option, some, List, [], ◌∷◌, nat_eq, ◌≡◌, inl, inr, refl, ap, ◌∙◌,
}
use personal_world.Table.{find_by}
use personal_world.Value.{Value}
use personal_world.Authn.Principal.{Principal}
use personal_world.Dispatch.Rows.{Db, Dispatcher}
use personal_world.Dispatch.Base.{exec_id}
use personal_world.Dispatch.Request.{request_authorization}
use personal_world.Dispatch.Approve.{
  approve, record_project_home_approval, deny, on_actions_changed, invalidate_all,
}
use personal_world.Dispatch.Recover.{request_retry}
use personal_world.Dispatch.Moves.Cases.{
  approve_cases, project_home_cases, deny_cases, insert_cases, request_writes, request_row,
  retry_cases, changed_lem,
}
use personal_world.Dispatch.Moves.Executions.{Advances-same}
use personal_world.Dispatch.Moves.Authorizations.{Decides}
use personal_world.Dispatch.System.Invariant.{IsSound, IsSound-step}

abbrev pub SameExecs : Db → Db → Type 0
SameExecs db after = after.executions ≡ db.executions

-- What the decisions leave alone.
module _ (db : Db) where
  pub request_execs :
      (d : Dispatcher) (p : Principal) (action_id : String) (params : Option Value)
      (key : Option String) (retry_of : Option ℕ) (warn : Bool) (now aid : ℕ)
      → SameExecs db (request_authorization d p action_id params key retry_of warn now aid db).1
  request_execs d p action_id params key retry_of warn now aid =
      elim (request_writes db d p action_id params key retry_of warn now aid) [
        | inl e ↦ ap (λ (x : Db). x.executions) e
        | inr (t, version, e) ↦
            elim (insert_cases db
              (request_row d p action_id params key retry_of warn now aid t version)) [
                | inl f ↦ ap (λ (x : Db). x.executions) (e ∙ f)
                | inr (fresh, f) ↦ ap (λ (x : Db). x.executions) (e ∙ f)
              ]
      ]

  pub approve_execs :
      (d : Dispatcher) (p : Principal) (aid step_up_now now : ℕ)
      → SameExecs db (approve d p aid step_up_now now db).1
  approve_execs d p aid step_up_now now = elim (approve_cases db d p aid step_up_now now) [
    | inl e ↦ ap (λ (x : Db). x.executions) e
    | inr e ↦ ap (λ (x : Db). x.executions) e
  ]

  pub project_home_execs :
      (d : Dispatcher) (aid : ℕ) (ph_id : String) (now : ℕ)
      → SameExecs db (record_project_home_approval d aid ph_id now db).1
  project_home_execs d aid ph_id now = elim (project_home_cases db d aid ph_id now) [
    | inl e ↦ ap (λ (x : Db). x.executions) e
    | inr e ↦ ap (λ (x : Db). x.executions) e
  ]

  pub deny_execs : (p : Principal) (aid : ℕ) → SameExecs db (deny p aid db).1
  deny_execs p aid = elim (deny_cases db p aid) [
    | inl e ↦ ap (λ (x : Db). x.executions) e
    | inr e ↦ ap (λ (x : Db). x.executions) e
  ]

  pub retry_execs :
      (d : Dispatcher) (p : Principal) (eid now aid : ℕ)
      → SameExecs db (request_retry d p eid now aid db).1
  retry_execs d p eid now aid = elim (retry_cases db d p eid now aid) [
    | inl e ↦ ap (λ (x : Db). x.executions) e
    | inr (action_id, params, key, warn, e) ↦
        ap (λ r. r.1.executions) e ∙ request_execs d p action_id params key (some eid) warn now aid
  ]

invalidate_all_execs :
    (d : Dispatcher) (ids : List String) (db : Db) → SameExecs db (invalidate_all d ids db).1
unfolding invalidate_all
invalidate_all_execs d [] db = refl
invalidate_all_execs d (action_id ∷ rest) db = invalidate_all_execs d rest _

pub changed_execs :
    (d : Dispatcher) (ids : List String) (db : Db) → SameExecs db (on_actions_changed d ids db).1
changed_execs d ids db =
    ap (λ (x : Db). x.executions) (changed_lem d ids db) ∙ invalidate_all_execs d ids db

pub same-IsSound :
    {db after : Db} → Decides db after → SameExecs db after → IsSound db → IsSound after
same-IsSound {db} {after} m e =
    IsSound-step m (Advances-same db after e)
      (λ k x was is. absurd (cc (was, is, ap (find_by exec_id k) e)))
