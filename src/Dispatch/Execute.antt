-- ===== src/Dispatch/Execute.antt =====
-- `_consume`, `execute` and the receipts of worlds/dispatcher.py.
use personal_world.Prelude.{
  ℕ, Bool, Option, none, some, List, [], ◌∷◌, ◌++◌, ◌&&◌, ◌==◌, nat_eq, string_eq, leb, ltb,
  if◌then◌else◌,
}
use personal_world.Tx.{Result, ok, err, Op, ◌>>=◌, ◌>>◌, write_tx, guard, pure}
use personal_world.Table.{find_by}
use personal_world.Authn.Principal.{Principal}
use personal_world.Config.Models.{resolved_effect}
use personal_world.Config.Store.{version_of}
use personal_world.Dispatch.Rows.{
  Authorization, AuthState, approved, expired, invalidated, consumed, ExecState, intent,
  dispatching, Execution, Evidence, Db, Error, bad_request, integrity, settled_before_send,
  not_consumable, authorization_is, not_configured, bad_params_hash, Reply, Attempt, Dispatcher,
}
use personal_world.Dispatch.Base.{
  Target, row, resolve, update_authorizations, update_executions, is_approved, is_intent,
  is_dispatching, auth_id, exec_id, exec_auth, find_auth, find_exec, may_touch, opt_is, heartbeat,
}
use personal_world.Dispatch.Request.{params_hash}
use personal_world.Dispatch.Send.{request_to_send, reply_of, verdict, evidence_of}

-- The state that the refusal names.
abbrev refused_state : AuthState → Bool → AuthState
refused_state approved lapsed = if lapsed then expired else invalidated
refused_state s lapsed = s

pub record Consumed : Type 0 where
  pub row : Authorization
  pub execution_id : ℕ
  pub target : Target

abbrev pub new_execution : Dispatcher → Authorization → ℕ → ℕ → Execution
new_execution d a now eid = record {
  id = eid;
  authorization_id = a.id;
  intent_at = now;
  dispatch_started_at = none;
  finished_at = none;
  state = intent;
  status_code = none;
  evidence = none;
  idempotency_key = a.idempotency_key;
  owner_id = some d.instance_id;
}

abbrev insert_if_both : Execution → Option Execution → Option Execution → Op Db Error (Unit {0})
insert_if_both e none none db = (ok tt, record db { executions = db.executions ++ e ∷ [] })
insert_if_both e none (some f) db = (err integrity, db)
insert_if_both e (some f) o db = (err integrity, db)

-- INSERT INTO executions, under the primary key and the UNIQUE `authorization_id`
unfoldable pub insert_execution : Execution → Op Db Error (Unit {0})
insert_execution e db =
    insert_if_both e (find_exec e.id db) (find_by exec_auth e.authorization_id db.executions) db

-- The body of `_consume`'s transaction.
unfoldable pub consume_tx : Dispatcher → Principal → ℕ → ℕ → ℕ → Op Db Error Consumed
unfolding row resolve update_authorizations insert_execution params_hash
consume_tx d p aid now eid = do
  a ← row aid
  guard (may_touch p a) Error.not_permitted
  t ← resolve d (not_consumable not_configured) a.action_id
  guard (a.params_hash == params_hash d.codec (d.codec.loads a.params_json))
      (not_consumable bad_params_hash)
  n ←
      update_authorizations
        (λ b.
          (auth_id b == aid)
          && (is_approved b.state
              && ltb now b.expires_at
              && opt_is (version_of d.store a.action_id) b.action_version))
        (λ b. record b { state = consumed })
  guard (n == 1) (not_consumable (authorization_is (refused_state a.state (leb a.expires_at now))))
  insert_execution (new_execution d a now eid)
  pure (record { row = a; execution_id = eid; target = t })

unfoldable pub consume : Dispatcher → Principal → ℕ → ℕ → ℕ → Op Db Error Consumed
unfolding consume_tx write_tx
consume d p aid now eid = write_tx (consume_tx d p aid now eid)

-- INTENT to DISPATCHING; the row count tells whether the row was still there to move.
unfoldable pub start_dispatch : ℕ → ℕ → Op Db Error ℕ
unfolding update_executions write_tx
start_dispatch eid now = write_tx (
    update_executions (λ e. (exec_id e == eid) && is_intent e.state)
      (λ e. record e { state = dispatching; dispatch_started_at = some now }))

-- DISPATCHING to the outcome
unfoldable pub settle : ℕ → ExecState → Option ℕ → Evidence → ℕ → Op Db Error ℕ
unfolding update_executions write_tx
settle eid state status evidence now = write_tx (
    update_executions (λ e. (exec_id e == eid) && is_dispatching e.state)
      (λ e. record e {
        state = state;
        status_code = status;
        evidence = some evidence;
        finished_at = some now;
      }))

-- The database and what has gone out on the network, newest first.
pub record World : Type 0 where
  pub db : Db
  pub wire : List Attempt

abbrev pub on_db : {A : Type 0} → Op Db Error A → Op World Error A
on_db m w = ((m w.db).0, record w { db = (m w.db).1 })

-- One attempt, and the answer.
unfoldable pub send_attempt : Dispatcher → Attempt → Op World Error Reply
send_attempt d attempt w =
    (ok (reply_of (d.send w.wire attempt)), record w { wire = attempt ∷ w.wire })

pub record Receipt : Type 0 where
  pub execution : Execution
  pub authorization : Authorization

abbrev join_auth : Execution → Option Authorization → Result Error Receipt
join_auth e none = err bad_request
join_auth e (some a) = ok (record { execution = e; authorization = a })

abbrev join_exec : Db → Option Execution → Result Error Receipt
join_exec db none = err bad_request
join_exec db (some e) = join_auth e (find_auth e.authorization_id db)

-- `receipt`: the execution joined with its authorization
unfoldable pub receipt : ℕ → Op Db Error Receipt
receipt eid db = (join_exec db (find_exec eid db), db)

-- What the clock says at each of its readings in `execute`.
pub record Readings : Type 0 where
  pub consumed_at : ℕ
  pub beat_at : ℕ
  pub started_at : ℕ
  pub finished_at : ℕ

abbrev pub attempt_for : Dispatcher → Consumed → Attempt
attempt_for d c = record {
  execution = c.execution_id;
  provider = c.target.provider;
  request =
      request_to_send (d.codec.loads c.row.params_json) c.row.idempotency_key c.target.request;
  effect = resolved_effect c.target.request;
}

-- `execute`; `eid` is the fresh id of the execution
unfoldable pub execute : Dispatcher → Principal → ℕ → Readings → ℕ → Op World Error Receipt
execute d p aid at eid = do
  c ← on_db (consume d p aid at.consumed_at eid)
  on_db (heartbeat d at.beat_at)
  moved ← on_db (start_dispatch c.execution_id at.started_at)
  on_db (guard (moved == 1) settled_before_send)
  reply ← send_attempt d (attempt_for d c)
  let v = verdict d c.target.provider reply
  on_db (
      settle c.execution_id v.state v.status_code (evidence_of d c.target.request reply v)
        at.finished_at)
  on_db (receipt c.execution_id)
