-- ===== src/Dispatch/Moves/Executions.antt =====
-- The life of one execution, and that the operations on executions follow it.
use personal_world.Prelude.{
  ℕ, Bool, true, false, Option, none, some, List, [], ◌∷◌, ◌++◌, ◌&&◌, ◌==◌, nat_eq, ◌≡◌, inl, inr,
  refl, arith, if◌then◌else◌, ap, subst, sym, ◌∙◌,
}
use personal_world.Table.{
  find_by, update_where, find_by-update_where, find_by-append, map_row, or_else, IsKeyed,
  IsKeyed-update_where, IsKeyed-snoc,
}
use personal_world.Authn.Principal.{Principal}
use personal_world.Config.Models.{Provider}
use personal_world.Dispatch.Rows.{
  Db, Dispatcher, Execution, ExecState, intent, dispatching, succeeded, failed, unknown, Evidence,
  Reply,
}
use personal_world.Dispatch.Base.{
  exec_id, exec_auth, find_exec, is_intent, is_dispatching, is_unsettled,
}
use personal_world.Dispatch.Send.{verdict}
use personal_world.Dispatch.Execute.{consume, new_execution, start_dispatch, settle}
use personal_world.Dispatch.Moves.Cases.{consume_cases}
use personal_world.Dispatch.Recover.{recover, orphaned, alive_ids, interrupted}

-- The three recorded outcomes.
pub data IsFinal : ExecState → Type 0 where
  is_succeeded : IsFinal succeeded
  is_failed : IsFinal failed
  is_unknown : IsFinal unknown

pub data ExecMove : Option Execution → Option Execution → Type 0 where
  rest : {o : Option Execution} → ExecMove o o
  recorded : {e : Execution} → e.state ≡ intent → ExecMove none (some e)
  sending :
      {e : Execution} (now : ℕ)
      → e.state ≡ intent
      → ExecMove (some e) (some (record e { state = dispatching; dispatch_started_at = some now }))
  finishing :
      {e : Execution} {s : ExecState} (status : Option ℕ) (evidence : Evidence) (now : ℕ)
      → e.state ≡ dispatching
      → IsFinal s
      → ExecMove (some e) (
          some (record e {
            state = s;
            status_code = status;
            evidence = some evidence;
            finished_at = some now;
          }))
  interrupting :
      {e : Execution} (evidence : Evidence) (now : ℕ)
      → is_unsettled e.state ≡ true
      → ExecMove
          (some e)
          (some (record e { state = unknown; finished_at = some now; evidence = some evidence }))

final_of_reply : (s : ExecState) → is_unsettled s ≡ false → IsFinal s
final_of_reply intent h = cc
final_of_reply dispatching h = cc
final_of_reply succeeded h = is_succeeded
final_of_reply failed h = is_failed
final_of_reply unknown h = is_unknown

-- Whatever the answer, the state that is recorded is final.
pub verdict-IsFinal : (d : Dispatcher) (p : Provider) (r : Reply) → IsFinal (verdict d p r).state
verdict-IsFinal d p r = final_of_reply (verdict d p r).state (settles d p r)
  where
    settles :
        (d : Dispatcher) (p : Provider) (r : Reply) → is_unsettled (verdict d p r).state ≡ false
    settles d p r = unfold verdict in ground arith

abbrev with_execs : Db → List Execution → Db
with_execs db rows = record db { executions = rows }

-- What an operation does to the executions: each row moves, and both keys stay unique.
pub record Advances (db after : Db) : Type 0 where
  pub move : (k : ℕ) → ExecMove (find_exec k db) (find_exec k after)
  pub ids : IsKeyed exec_id db.executions → IsKeyed exec_id after.executions
  pub auths : IsKeyed exec_auth db.executions → IsKeyed exec_auth after.executions

pub Advances-same : (db after : Db) → after.executions ≡ db.executions → Advances db after
Advances-same db after e = record {
  move = λ k. subst (λ rows. ExecMove (find_exec k db) (find_by exec_id k rows)) (sym e) rest;
  ids = subst (IsKeyed exec_id) (sym e);
  auths = subst (IsKeyed exec_auth) (sym e);
}

Advances-update :
    (q : Execution → Bool) (f : Execution → Execution)
    → ((e : Execution) → exec_id (f e) ≡ exec_id e)
    → ((e : Execution) → exec_auth (f e) ≡ exec_auth e)
    → ((e : Execution) → q e ≡ true → ExecMove (some e) (some (f e)))
    → (db after : Db) → after.executions ≡ update_where q f db.executions
    → Advances db after
Advances-update q f same_id same_auth move db after changed = record {
  move = λ k.
      subst (ExecMove (find_exec k db))
        (sym (
          ap (find_by exec_id k) changed
          ∙ find_by-update_where exec_id q f same_id k db.executions))
        (rows (find_exec k db));
  ids = λ h.
      subst (IsKeyed exec_id) (sym changed)
        (IsKeyed-update_where exec_id q f same_id db.executions h);
  auths = λ h.
      subst (IsKeyed exec_auth) (sym changed)
        (IsKeyed-update_where exec_auth q f same_auth db.executions h);
}
  where
    row_move :
        (e : Execution) (b : Bool) → q e ≡ b → ExecMove (some e) (some (if b then f e else e))
    row_move e true h = move e h
    row_move e false h = rest

    rows : (o : Option Execution) → ExecMove o (map_row q f o)
    rows none = rest
    rows (some e) = row_move e (q e) refl

Advances-insert :
    (e : Execution) (db after : Db)
    → e.state ≡ intent
    → find_exec e.id db ≡ none
    → find_by exec_auth e.authorization_id db.executions ≡ none
    → after.executions ≡ db.executions ++ e ∷ []
    → Advances db after
unfolding find_by
Advances-insert e db after new_state fresh_id fresh_auth changed = record {
  move = λ k.
      subst (ExecMove (find_exec k db))
        (sym (ap (find_by exec_id k) changed ∙ find_by-append exec_id k db.executions (e ∷ [])))
        (seen (find_exec k db) (e.id == k));
  ids =
      λ h. subst (IsKeyed exec_id) (sym changed) (IsKeyed-snoc exec_id db.executions e h fresh_id);
  auths = λ h.
      subst (IsKeyed exec_auth) (sym changed) (IsKeyed-snoc exec_auth db.executions e h fresh_auth);
}
  where
    seen : (o : Option Execution) (b : Bool) → ExecMove o (or_else o (if b then some e else none))
    seen none true = recorded new_state
    seen none false = rest
    seen (some x) b = rest

pub consume-Advances :
    (d : Dispatcher) (p : Principal) (aid now eid : ℕ) (db : Db)
    → Advances db (consume d p aid now eid db).1
consume-Advances d p aid now eid db = elim (consume_cases db d p aid now eid) [
  | inl e ↦ Advances-same db _ (ap (λ (after : Db). after.executions) e)
  | inr (a, found, fresh_id, fresh_auth, once, e) ↦
      Advances-insert (new_execution d a now eid) db _ refl fresh_id fresh_auth
        (ap (λ (after : Db). after.executions) e)
]

pub start-Advances : (eid now : ℕ) (db : Db) → Advances db (start_dispatch eid now db).1
start-Advances eid now db =
    Advances-update (λ e. (exec_id e == eid) && is_intent e.state) _ (λ e. refl) (λ e. refl)
      (λ e h. sending now (ground arith)) db _ (unfold start_dispatch in refl)

pub settle-Advances :
    (d : Dispatcher) (p : Provider) (r : Reply) (eid : ℕ) (status : Option ℕ) (evidence : Evidence)
    (now : ℕ) (db : Db)
    → Advances db (settle eid (verdict d p r).state status evidence now db).1
settle-Advances d p r eid status evidence now db =
    Advances-update (λ e. (exec_id e == eid) && is_dispatching e.state) _ (λ e. refl) (λ e. refl)
      (λ e h. finishing status evidence now (ground arith) (verdict-IsFinal d p r)) db _
      (unfold settle in refl)

pub recover-Advances : (d : Dispatcher) (now : ℕ) (db : Db) → Advances db (recover d now db).1
recover-Advances d now db =
    Advances-update
      (λ e. is_unsettled e.state && orphaned (d.instance_id ∷ alive_ids d now db.leases) e.owner_id)
      _ (λ e. refl) (λ e. refl) (λ e h. interrupting interrupted now (ground arith)) db _
      (unfold recover in refl)
