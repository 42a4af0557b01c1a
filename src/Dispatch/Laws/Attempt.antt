-- ===== src/Dispatch/Laws/Attempt.antt =====
-- The two updates of an execution row around the network attempt.
use personal_world.Prelude.{ℕ, Option, some, ◌≡◌, refl, arith, ◌&&◌, ◌==◌, nat_eq, ◌∙◌}
use personal_world.Tx.{ok}
use personal_world.Table.{
  count_where, find_by-update_where, find_by-key, count_where-by_key, IsKeyed,
}
use personal_world.Dispatch.Rows.{
  Db, Dispatcher, Execution, intent, dispatching, ExecState, Evidence,
}
use personal_world.Dispatch.Base.{find_exec, exec_id, is_intent, is_dispatching, heartbeat}
use personal_world.Dispatch.Execute.{start_dispatch, settle}

-- Where the row stands in INTENT, the move to DISPATCHING changes it and counts it.
pub start_ok :
    (eid now : ℕ) (db : Db) {e : Execution}
    → IsKeyed exec_id db.executions
    → find_exec eid db ≡ some e
    → e.state ≡ intent
    → ((start_dispatch eid now db).0 ≡ ok 1)
      × (find_exec eid (start_dispatch eid now db).1
          ≡ some (record e { state = dispatching; dispatch_started_at = some now }))
unfolding start_dispatch
start_ok eid now db {e = e} keyed found waits = (
  ground (
    arith,
    found,
    find_by-key exec_id eid db.executions found,
    count_where-by_key exec_id eid (λ (x : Execution). is_intent x.state) db.executions keyed,
  ),
  find_by-update_where exec_id (λ (x : Execution). (exec_id x == eid) && is_intent x.state) _
        (λ x. refl) eid db.executions
      ∙ ground (arith, found, find_by-key exec_id eid db.executions found),
)

pub settle_found :
    (eid : ℕ) (s : ExecState) (status : Option ℕ) (evidence : Evidence) (now : ℕ) (db : Db)
    {e : Execution}
    → find_exec eid db ≡ some e
    → e.state ≡ dispatching
    → find_exec eid (settle eid s status evidence now db).1
      ≡ some (record e {
        state = s;
        status_code = status;
        evidence = some evidence;
        finished_at = some now;
      })
unfolding settle
settle_found eid s status evidence now db {e = e} found sent =
    find_by-update_where exec_id (λ (x : Execution). (exec_id x == eid) && is_dispatching x.state) _
      (λ x. refl) eid db.executions
    ∙ ground (arith, found, find_by-key exec_id eid db.executions found)

pub heartbeat_ok : (d : Dispatcher) (now : ℕ) (db : Db) → (heartbeat d now db).0 ≡ ok tt
unfolding heartbeat
heartbeat_ok d now db = refl

pub settle_counts :
    (eid : ℕ) (s : ExecState) (status : Option ℕ) (evidence : Evidence) (now : ℕ) (db : Db)
    → (settle eid s status evidence now db).0
      ≡ ok (count_where (λ x. (exec_id x == eid) && is_dispatching x.state) db.executions)
unfolding settle
settle_counts eid s status evidence now db = refl
