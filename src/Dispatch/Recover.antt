-- ===== src/Dispatch/Recover.antt =====
-- `recover`, `request_retry` and `list_receipts` of worlds/dispatcher.py.
use personal_world.Prelude.{
  ℕ, ◌+◌, ◌*◌, String, Bool, true, false, Option, none, some, List, [], ◌∷◌, ◌&&◌, ◌||◌, not, ◌==◌,
  nat_eq, string_eq, leb, take, elem, codes, if◌then◌else◌,
}
use personal_world.Tx.{ok, Op, ◌>>=◌, ◌>>◌, write_tx, guard, pure}
use personal_world.Table.{delete_where}
use personal_world.Value.{Value, obj, end}
use personal_world.Authn.Principal.{Principal}
use personal_world.Dispatch.Rows.{
  Authorization, ExecState, succeeded, unknown, Execution, Evidence, Lease, Identity, Db, Error,
  not_permitted, not_consumable, still_in_progress, Dispatcher, lease_ttl_s, lease_renew_s,
}
use personal_world.Dispatch.Base.{update_executions, is_unsettled, may_touch, opt_is}
use personal_world.Dispatch.Request.{request_authorization}
use personal_world.Dispatch.Execute.{Receipt, receipt}

-- The two sides, as SQL and Python compare them when neither need be there.
abbrev opt_nat_is : Option ℕ → ℕ → Bool
opt_nat_is none n = false
opt_nat_is (some m) n = m == n

abbrev known_and_not : Option String → String → Bool
known_and_not none s = false
known_and_not (some t) s = not (t == s)

-- `heartbeat <= now - ttl`, without going below 0
abbrev older_than : Lease → ℕ → ℕ → Bool
older_than l seconds now = leb (l.heartbeat + seconds) now

-- This lease proves that its process is gone.
unfoldable pub is_gone : Identity → ℕ → Lease → Bool
is_gone me now l =
    let same_host = opt_is l.host me.host in
    let rebooted = same_host && known_and_not l.boot_id me.boot in
    let restarted =
      same_host
      && opt_is l.boot_id me.boot
      && opt_nat_is l.pid me.pid
      && not (opt_is l.started me.started)
      && older_than l lease_renew_s now in
    older_than l lease_ttl_s now || rebooted || restarted

-- `alive`, after this process's own id
unfoldable pub alive_ids : Dispatcher → ℕ → List Lease → List ℕ
alive_ids d now [] = []
alive_ids d now (l ∷ rest) =
    if (l.instance_id == d.instance_id) || is_gone d.identity now l
    then alive_ids d now rest
    else l.instance_id ∷ alive_ids d now rest

abbrev pub interrupted : Evidence
interrupted = record {
  method = none;
  path = none;
  status_code = none;
  error_class = none;
  duration_ms = none;
  note = codes "interrupted before a result was recorded";
  summary = [];
}

-- `owner_id IS NULL OR owner_id NOT IN (alive)`
abbrev pub orphaned : List ℕ → Option ℕ → Bool
orphaned alive none = true
orphaned alive (some o) = not (elem o alive)

abbrev drop_leases : (Lease → Bool) → Op Db Error (Unit {0})
drop_leases p db = (ok tt, record db { leases = delete_where p db.leases })

recover_tx : Dispatcher → List ℕ → ℕ → Op Db Error ℕ
unfolding update_executions elem delete_where
recover_tx d alive now = do
  n ←
      update_executions (λ e. is_unsettled e.state && orphaned alive e.owner_id)
        (λ e. record e { state = unknown; finished_at = some now; evidence = some interrupted })
  drop_leases (λ l.
      not (l.instance_id == d.instance_id)
      && not (elem l.instance_id alive)
      && older_than l (10 * lease_ttl_s) now)
  pure n

-- `recover`: the leases are read before the transaction begins
unfoldable pub recover : Dispatcher → ℕ → Op Db Error ℕ
unfolding recover_tx write_tx alive_ids is_gone
recover d now db = write_tx (recover_tx d (d.instance_id ∷ alive_ids d now db.leases) now) db

-- `state in ("UNKNOWN", "SUCCEEDED")`
abbrev pub may_have_run : ExecState → Bool
may_have_run unknown = true
may_have_run succeeded = true
may_have_run _ = false

-- `json.loads(…) or None`, at a dict
abbrev pub params_again : Value → Option Value
params_again (obj end) = none
params_again v = some v

-- `request_retry`
unfoldable pub request_retry : Dispatcher → Principal → ℕ → ℕ → ℕ → Op Db Error Authorization
unfolding request_authorization receipt
request_retry d p eid now aid = do
  r ← receipt eid
  guard (may_touch p r.authorization) not_permitted
  guard (not (is_unsettled r.execution.state)) (not_consumable still_in_progress)
  request_authorization d p r.authorization.action_id
      (params_again (d.codec.loads r.authorization.params_json)) r.execution.idempotency_key
      (some eid) (may_have_run r.execution.state) now aid

-- ORDER BY intent_at DESC; rows of one time keep their order
unfoldable pub insert_newest : Execution → List Execution → List Execution
insert_newest e [] = e ∷ []
insert_newest e (f ∷ rest) =
    if leb f.intent_at e.intent_at then e ∷ f ∷ rest else f ∷ insert_newest e rest

unfoldable pub newest_first : List Execution → List Execution
unfolding insert_newest
newest_first [] = []
newest_first (e ∷ rest) = insert_newest e (newest_first rest)

unfoldable pub receipts_of : List Execution → Op Db Error (List Receipt)
unfolding receipt
receipts_of [] = pure []
receipts_of (e ∷ rest) = do r ← receipt e.id; rs ← receipts_of rest; pure (r ∷ rs)

-- `list_receipts`
unfoldable pub list_receipts : ℕ → Op Db Error (List Receipt)
unfolding newest_first receipts_of
list_receipts limit db = receipts_of (take limit (newest_first db.executions)) db
