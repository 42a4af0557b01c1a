-- ===== src/Dispatch/System/Operations.antt =====
-- Every operation keeps the tables sound and moves executions along.
use personal_world.Prelude.{
  ℕ, Bool, true, false, Option, none, some, [], ◌∷◌, ◌==◌, ◌&&◌, nat_eq, ◌≡◌, inl, inr, refl, arith,
  ap, sym, subst, ◌∙◌,
}
use personal_world.Table.{
  find_by, find_by-update_where, find_by-append, find_by-key, count_where-by_key, map_row, IsKeyed,
  count_where, update_where,
}
use personal_world.Authn.Principal.{Principal}
use personal_world.Dispatch.Rows.{
  Authorization, consumed, Db, Execution, Dispatcher, Reply, Evidence,
}
use personal_world.Dispatch.Base.{
  auth_id, exec_id, find_auth, find_exec, is_unsettled, is_dispatching, is_intent, heartbeat,
}
use personal_world.Dispatch.Approve.{expire_due}
use personal_world.Config.Models.{Provider}
use personal_world.Dispatch.Send.{verdict, evidence_of}
use personal_world.Dispatch.Execute.{consume, new_execution, settle, start_dispatch}
use personal_world.Dispatch.Recover.{recover, orphaned, alive_ids}
use personal_world.Dispatch.Moves.Cases.{consume_cases, may_consume, consumable, after_consume}
use personal_world.Dispatch.Moves.Executions.{
  Advances, Advances-same, consume-Advances, settle-Advances, recover-Advances, start-Advances,
}
use personal_world.Dispatch.Moves.Authorizations.{
  Decides-same, approve-Decides, project_home-Decides, deny-Decides, expire_due-Decides,
  request-Decides, consume-Decides, retry-Decides, changed-Decides,
}
use personal_world.Dispatch.System.{
  Operation, requests, approves, confirms, denies, expires, changes, beats, consumes, settles,
  recovers, retries, run,
}
use personal_world.Dispatch.System.Invariant.{IsSound, IsSound-step, IsSpent, HasAuthority}
use personal_world.Dispatch.System.Unchanged.{
  request_execs, approve_execs, project_home_execs, deny_execs, retry_execs, changed_execs,
  same-IsSound,
}

-- An UPDATE of executions leaves the authorizations alone and adds no row.
updated-IsSound :
    (q : Execution → Bool) (f : Execution → Execution)
    → ((e : Execution) → exec_id (f e) ≡ exec_id e)
    → {db after : Db} → Advances db after
    → after.authorizations ≡ db.authorizations
    → after.executions ≡ update_where q f db.executions
    → IsSound db
    → IsSound after
updated-IsSound q f same {db} {after} v auths execs =
    IsSound-step (Decides-same db after auths) v (λ k x was is. absurd (
      cc (
        was,
        is,
        ap (find_by exec_id k) execs,
        find_by-update_where exec_id q f same k db.executions,
      )))

pub start-IsSound : (eid now : ℕ) (db : Db) → IsSound db → IsSound (start_dispatch eid now db).1
unfolding start_dispatch
start-IsSound eid now db =
    updated-IsSound (λ e. (exec_id e == eid) && is_intent e.state) _ (λ e. refl)
      (start-Advances eid now db) refl refl

recover-IsSound : (d : Dispatcher) (now : ℕ) (db : Db) → IsSound db → IsSound (recover d now db).1
unfolding recover
recover-IsSound d now db =
    updated-IsSound
      (λ e. is_unsettled e.state && orphaned (d.instance_id ∷ alive_ids d now db.leases) e.owner_id)
      _ (λ e. refl) (recover-Advances d now db) refl refl

settle-IsSound :
    (d : Dispatcher) (p : Provider) (r : Reply) (eid : ℕ) (status : Option ℕ) (evidence : Evidence)
    (now : ℕ) (db : Db)
    → IsSound db
    → IsSound (settle eid (verdict d p r).state status evidence now db).1
unfolding settle
settle-IsSound d p r eid status evidence now db =
    updated-IsSound (λ e. (exec_id e == eid) && is_dispatching e.state) _ (λ e. refl)
      (settle-Advances d p r eid status evidence now db) refl refl

-- The row that is consumed was approved, so it has an authority.
IsSpent-after :
    (d : Dispatcher) (a : Authorization) (aid now : ℕ) (db : Db)
    → IsKeyed auth_id db.authorizations
    → HasAuthority (find_auth aid db)
    → find_auth aid db ≡ some a
    → count_where (consumable d a aid now) db.authorizations ≡ 1
    → IsSpent (
        find_by auth_id a.id (
          update_where
            (consumable d a aid now)
            (λ b. record b { state = consumed })
            db.authorizations))
IsSpent-after d a aid now db keyed authority found once =
    subst IsSpent
      (sym (
        find_by-update_where auth_id (consumable d a aid now) _ (λ b. refl) a.id db.authorizations))
      (subst
        (λ o. IsSpent (map_row (consumable d a aid now) (λ b. record b { state = consumed }) o))
        (sym (ap (λ i. find_auth i db) same_id ∙ found))
        (row_spent same_id (subst HasAuthority found authority)))
  where
    same_id : a.id ≡ aid
    same_id = find_by-key auth_id aid db.authorizations found

    ready : may_consume d a now a ≡ true
    ready = ground (
      arith,
      once,
      found,
      count_where-by_key auth_id aid (may_consume d a now) db.authorizations keyed,
    )

    row_spent :
        a.id ≡ aid
        → HasAuthority (some a)
        → IsSpent (map_row (consumable d a aid now) (λ b. record b { state = consumed }) (some a))
    row_spent i h =
        let c : consumable d a aid now a ≡ true = ground (arith, ready, i) in
        rw c (refl, h (ground (arith, ready)))

pub consume-IsSound :
    (d : Dispatcher) (p : Principal) (aid now eid : ℕ) (db : Db)
    → IsSound db
    → IsSound (consume d p aid now eid db).1
unfolding find_by
consume-IsSound d p aid now eid db h = elim (consume_cases db d p aid now eid) [
  | inl e ↦ subst IsSound (sym e) h
  | inr (a, found, fresh_id, fresh_auth, once, e) ↦
      IsSound-step (consume-Decides db d p aid now eid) (consume-Advances d p aid now eid db)
        (λ k x was is.
          subst (λ i. IsSpent (find_auth i (consume d p aid now eid db).1))
            (owner_of k x was is a e)
            (subst (λ (after : Db). IsSpent (find_auth a.id after)) (sym e)
              (IsSpent-after d a aid now db h.auth_ids (h.authority aid) found once)))
        h
]
  where
    owner_of :
        (k : ℕ) (x : Execution)
        → find_exec k db ≡ none
        → find_exec k (consume d p aid now eid db).1 ≡ some x
        → (a : Authorization) → (consume d p aid now eid db).1 ≡ after_consume d a aid now eid db
        → a.id ≡ x.authorization_id
    owner_of k x was is a e = ground (
      arith,
      was,
      is,
      ap (find_exec k) e,
      find_by-append exec_id k db.executions (new_execution d a now eid ∷ []),
    )

-- Every operation, of any process, keeps the tables sound.
pub run-IsSound : (o : Operation) (db : Db) → IsSound db → IsSound (run o db)
unfolding run
run-IsSound (requests d p action_id params key now aid) db =
    same-IsSound (request-Decides db d p action_id params key none false now aid)
      (request_execs db d p action_id params key none false now aid)
run-IsSound (approves d p aid step_up_now now) db =
    same-IsSound (approve-Decides db d p aid step_up_now now)
      (approve_execs db d p aid step_up_now now)
run-IsSound (confirms d aid ph_id now) db =
    same-IsSound (project_home-Decides db d aid ph_id now) (project_home_execs db d aid ph_id now)
run-IsSound (denies p aid) db = same-IsSound (deny-Decides db p aid) (deny_execs db p aid)
run-IsSound (expires now) db = same-IsSound (expire_due-Decides db now) (unfold expire_due in refl)
run-IsSound (changes d ids) db = same-IsSound (changed-Decides d ids db) (changed_execs d ids db)
run-IsSound (beats d now) db =
    same-IsSound (Decides-same db (heartbeat d now db).1 (unfold heartbeat in refl))
      (unfold heartbeat in refl)
run-IsSound (consumes d p aid now eid) db = consume-IsSound d p aid now eid db
run-IsSound (settles d p r reply eid now) db =
    settle-IsSound d p reply eid (verdict d p reply).status_code
      (evidence_of d r reply (verdict d p reply)) now db
run-IsSound (recovers d now) db = recover-IsSound d now db
run-IsSound (retries d p eid now aid) db =
    same-IsSound (retry-Decides db d p eid now aid) (retry_execs db d p eid now aid)

-- Every operation moves each execution along its life.
pub run-Advances : (o : Operation) (db : Db) → Advances db (run o db)
unfolding run
run-Advances (requests d p action_id params key now aid) db =
    Advances-same db _ (request_execs db d p action_id params key none false now aid)
run-Advances (approves d p aid step_up_now now) db =
    Advances-same db _ (approve_execs db d p aid step_up_now now)
run-Advances (confirms d aid ph_id now) db =
    Advances-same db _ (project_home_execs db d aid ph_id now)
run-Advances (denies p aid) db = Advances-same db _ (deny_execs db p aid)
run-Advances (expires now) db = Advances-same db (expire_due now db).1 (unfold expire_due in refl)
run-Advances (changes d ids) db = Advances-same db _ (changed_execs d ids db)
run-Advances (beats d now) db = Advances-same db (heartbeat d now db).1 (unfold heartbeat in refl)
run-Advances (consumes d p aid now eid) db = consume-Advances d p aid now eid db
run-Advances (settles d p r reply eid now) db =
    settle-Advances d p reply eid (verdict d p reply).status_code
      (evidence_of d r reply (verdict d p reply)) now db
run-Advances (recovers d now) db = recover-Advances d now db
run-Advances (retries d p eid now aid) db = Advances-same db _ (retry_execs db d p eid now aid)
