-- ===== src/Dispatch/Base.antt =====
-- The helpers of `Dispatcher`: rows by id, updates with their row counts, resolution, the lease.
use personal_world.Prelude.{
  ℕ, String, Bool, true, false, Option, none, some, List, [], ◌∷◌, ◌&&◌, ◌||◌, not, ◌==◌, nat_eq,
  string_eq, leb, if◌then◌else◌,
}
use personal_world.Tx.{Result, ok, err, Op, write_tx}
use personal_world.Table.{find_by, update_where, count_where}
use personal_world.Authn.Principal.{Principal, is_owner, via_session, allows_scope}
use personal_world.Config.Models.{Action, Request, Provider}
use personal_world.Config.Store.{ConfigStore, version_of}
use personal_world.Dispatch.Rows.{
  AuthState, pending, approved, Authorization, ExecState, intent, dispatching, Execution, Lease, Db,
  Error, bad_request, not_consumable, authorization_is, authorization_expired, action_changed,
  Dispatcher,
}

abbrev pub is_pending : AuthState → Bool
is_pending pending = true
is_pending _ = false

abbrev pub is_approved : AuthState → Bool
is_approved approved = true
is_approved _ = false

-- `state IN ('pending','approved')`
abbrev pub is_open : AuthState → Bool
is_open pending = true
is_open approved = true
is_open _ = false

abbrev pub is_intent : ExecState → Bool
is_intent intent = true
is_intent _ = false

abbrev pub is_dispatching : ExecState → Bool
is_dispatching dispatching = true
is_dispatching _ = false

-- `state IN ('INTENT','DISPATCHING')`
abbrev pub is_unsettled : ExecState → Bool
is_unsettled intent = true
is_unsettled dispatching = true
is_unsettled _ = false

-- SQL `=` between a column and a value that may be NULL; Python's `==` with None too.
abbrev pub opt_is : Option String → String → Bool
opt_is none s = false
opt_is (some t) s = t == s

abbrev pub auth_id : Authorization → ℕ
auth_id a = a.id

abbrev pub exec_id : Execution → ℕ
exec_id e = e.id

abbrev pub exec_auth : Execution → ℕ
exec_auth e = e.authorization_id

abbrev pub find_auth : ℕ → Db → Option Authorization
find_auth i db = find_by auth_id i db.authorizations

abbrev pub find_exec : ℕ → Db → Option Execution
find_exec i db = find_by exec_id i db.executions

abbrev row_or_bad : Option Authorization → Result Error Authorization
row_or_bad none = err bad_request
row_or_bad (some a) = ok a

-- `_row`
unfoldable pub row : ℕ → Op Db Error Authorization
row i db = (row_or_bad (find_auth i db), db)

-- An UPDATE of a table, with its `rowcount`.
unfoldable pub update_authorizations :
    (Authorization → Bool) → (Authorization → Authorization) → Op Db Error ℕ
update_authorizations p f db = (
  ok (count_where p db.authorizations),
  record db { authorizations = update_where p f db.authorizations },
)

unfoldable pub update_executions : (Execution → Bool) → (Execution → Execution) → Op Db Error ℕ
update_executions p f db =
    (ok (count_where p db.executions), record db { executions = update_where p f db.executions })

pub record Target : Type 0 where
  pub action : Action
  pub request : Request
  pub provider : Provider

abbrev resolve_provider : Action → Request → Option Provider → Option Target
resolve_provider a r none = none
resolve_provider a r (some p) = some (record { action = a; request = r; provider = p })

abbrev resolve_request : ConfigStore → Action → Option Request → Option Target
resolve_request store a none = none
resolve_request store a (some r) = resolve_provider a r (store.provider r.provider)

abbrev resolve_action : ConfigStore → Option Action → Option Target
resolve_action store none = none
resolve_action store (some a) = resolve_request store a (store.request a.request)

-- The chain of lookups of `_resolve`.
unfoldable pub target_of : ConfigStore → String → Option Target
target_of store action_id = resolve_action store (store.action action_id)

abbrev target_or : Error → Option Target → Result Error Target
target_or e none = err e
target_or e (some t) = ok t

-- `_resolve`, with the exception that the caller turns `BadRequest` into
unfoldable pub resolve : Dispatcher → Error → String → Op Db Error Target
unfolding target_of
resolve d e action_id db = (target_or e (target_of d.store action_id), db)

-- `_owner_ok`
abbrev pub owner_ok : Principal → Bool
owner_ok p = not (not (is_owner p) || not (via_session p.via))

-- `principal.is_owner or principal.id == row["caller"]`
abbrev pub may_touch : Principal → Authorization → Bool
may_touch p a = is_owner p || (p.id == a.caller)

-- `can_see`
unfoldable pub can_see : Principal → Action → Bool
can_see p a = is_owner p || (a.exposed && allows_scope p a.scope)

unfoldable pub see_all : Principal → List Action → List Action
see_all p [] = []
see_all p (a ∷ rest) = if can_see p a then a ∷ see_all p rest else see_all p rest

-- `list_actions`
unfoldable pub list_actions : Dispatcher → Principal → List Action
unfolding see_all
list_actions d p = see_all p d.store.actions

-- `_check_approvable`
unfoldable pub check_approvable : Dispatcher → Authorization → ℕ → Result Error (Unit {0})
check_approvable d a now =
    if not (is_pending a.state)
    then err (not_consumable (authorization_is a.state))
    else if leb a.expires_at now
    then err (not_consumable authorization_expired)
    else if not (opt_is (version_of d.store a.action_id) a.action_version)
    then err (not_consumable action_changed)
    else ok tt

unfoldable pub upsert_lease : Lease → List Lease → List Lease
upsert_lease l [] = l ∷ []
upsert_lease l (m ∷ rest) =
    if m.instance_id == l.instance_id
    then record m { heartbeat = l.heartbeat } ∷ rest
    else m ∷ upsert_lease l rest

-- `heartbeat`
unfoldable pub heartbeat : Dispatcher → ℕ → Op Db Error (Unit {0})
unfolding upsert_lease write_tx
heartbeat d now = write_tx λ db. (
  ok tt,
  record db {
    leases =
        upsert_lease
          (record {
            instance_id = d.instance_id;
            heartbeat = now;
            pid = some d.identity.pid;
            boot_id = some d.identity.boot;
            started = some d.identity.started;
            host = some d.identity.host;
          })
          db.leases;
  },
)
