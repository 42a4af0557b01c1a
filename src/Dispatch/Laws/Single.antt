-- ===== src/Dispatch/Laws/Single.antt =====
-- `execute`, from the call to the receipt.
use personal_world.Prelude.{ℕ, some, ◌≡◌, arith, nat_eq}
use personal_world.Tx.{ok, err}
use personal_world.Authn.Principal.{Principal}
use personal_world.Dispatch.Rows.{consumed, Db, Dispatcher, Error, Execution, dispatching, Reply}
use personal_world.Dispatch.Base.{heartbeat}
use personal_world.Dispatch.Send.{verdict, Verdict, reply_of, evidence_of}
use personal_world.Dispatch.Execute.{
  Consumed, consume, new_execution, start_dispatch, settle, World, Readings, Receipt, execute,
  attempt_for,
}
use personal_world.Dispatch.System.Invariant.{IsSound}
use personal_world.Dispatch.Laws.Consume.{consume_err}

module _ (d : Dispatcher) (p : Principal) (aid : ℕ) (at : Readings) (eid : ℕ) (w : World) where
  -- An `execute` whose authorization cannot be consumed sends nothing and changes nothing.
  pub execute_refused :
      {e : Error}
      → (consume d p aid at.consumed_at eid w.db).0 ≡ err e
      → execute d p aid at eid w ≡ (err e, w)
  unfolding execute
  execute_refused {e = e} h = ground (arith, h, consume_err d p aid at.consumed_at eid w.db h)

  module _ (c : Consumed) where
    abbrev reply : Reply
    reply = reply_of (d.send w.wire (attempt_for d c))

    abbrev outcome : Verdict
    outcome = verdict d c.target.provider reply

    abbrev consumed_db : Db
    consumed_db = (consume d p aid at.consumed_at eid w.db).1

    abbrev beaten_db : Db
    beaten_db = (heartbeat d at.beat_at consumed_db).1

    abbrev started_db : Db
    started_db = (start_dispatch eid at.started_at beaten_db).1

    abbrev settled_db : Db
    settled_db =
        (settle eid outcome.state outcome.status_code (evidence_of d c.target.request reply outcome)
          at.finished_at started_db).1

    module _ (s : IsSound w.db) (h : (consume d p aid at.consumed_at eid w.db).0 ≡ ok c) where
      started_row : Execution
      started_row = record (new_execution d c.row at.consumed_at eid) {
        state = dispatching;
        dispatch_started_at = some at.started_at;
      }

      -- What the receipt holds at the end.
      pub final_row : Execution
      unfolding started_row
      final_row = record started_row {
        state = outcome.state;
        status_code = outcome.status_code;
        evidence = some (evidence_of d c.target.request reply outcome);
        finished_at = some at.finished_at;
      }

      pub final_receipt : Receipt
      unfolding final_row
      final_receipt = record {
        execution = final_row;
        authorization = record (c.row) { state = consumed };
      }
