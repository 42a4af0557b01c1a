-- ===== src/Dispatch/System.antt =====
-- Every process at once: the database that they share, what went out on the network, and the threads
-- that stand between `execute`'s move to DISPATCHING and its send. Any operation of any process, with
-- any configuration, clock and ids, may come between two transactions of an `execute`.
pub mod Invariant
pub mod Unchanged
pub mod Operations
pub mod Safety
use personal_world.Prelude.{
  ℕ, suc, String, Bool, true, false, Option, none, some, List, [], ◌∷◌, ◌==◌, nat_eq, ◌≡◌, elem,
  if◌then◌else◌,
}
use personal_world.Tx.{Result, ok, err}
use personal_world.Value.{Value}
use personal_world.Authn.Principal.{Principal}
use personal_world.Config.Models.{Provider, Request}
use personal_world.Dispatch.Rows.{Db, Error, Dispatcher, Reply, Attempt}
use personal_world.Dispatch.Base.{heartbeat}
use personal_world.Dispatch.Request.{request_authorization}
use personal_world.Dispatch.Approve.{
  approve, record_project_home_approval, deny, expire_due, on_actions_changed,
}
use personal_world.Dispatch.Send.{verdict, evidence_of}
use personal_world.Dispatch.Execute.{consume, start_dispatch, settle}
use personal_world.Dispatch.Recover.{recover, request_retry}

-- A call with its arguments; times and fresh ids are among them.
pub data Operation : Type 0 where
  requests : Dispatcher → Principal → String → Option Value → Option String → ℕ → ℕ → Operation
  approves : Dispatcher → Principal → ℕ → ℕ → ℕ → Operation
  confirms : Dispatcher → ℕ → String → ℕ → Operation
  denies : Principal → ℕ → Operation
  expires : ℕ → Operation
  changes : Dispatcher → List String → Operation
  beats : Dispatcher → ℕ → Operation
  consumes : Dispatcher → Principal → ℕ → ℕ → ℕ → Operation
  settles : Dispatcher → Provider → Request → Reply → ℕ → ℕ → Operation
  recovers : Dispatcher → ℕ → Operation
  retries : Dispatcher → Principal → ℕ → ℕ → ℕ → Operation

-- The database after the call, whether it returns or raises.
unfoldable pub run : Operation → Db → Db
run (requests d p action_id params key now aid) db =
    (request_authorization d p action_id params key none false now aid db).1
run (approves d p aid step_up_now now) db = (approve d p aid step_up_now now db).1
run (confirms d aid ph_id now) db = (record_project_home_approval d aid ph_id now db).1
run (denies p aid) db = (deny p aid db).1
run (expires now) db = (expire_due now db).1
run (changes d ids) db = (on_actions_changed d ids db).1
run (beats d now) db = (heartbeat d now db).1
run (consumes d p aid now eid) db = (consume d p aid now eid db).1
run (settles d p r reply eid now) db =
    let v = verdict d p reply in
    (settle eid v.state v.status_code (evidence_of d r reply v) now db).1
run (recovers d now) db = (recover d now db).1
run (retries d p eid now aid) db = (request_retry d p eid now aid db).1

pub record System : Type 0 where
  pub db : Db
  pub wire : List Attempt
  pub going : List ℕ

-- `moved.rowcount == 1`
abbrev pub has_moved : Result Error ℕ → Bool
has_moved (ok n) = n == 1
has_moved (err e) = false

unfoldable pub start : ℕ → ℕ → System → System
start eid now s =
    let r = start_dispatch eid now s.db in
    record { db = r.1; wire = s.wire; going = if has_moved r.0 then eid ∷ s.going else s.going }

unfoldable pub drop_one : ℕ → List ℕ → List ℕ
drop_one k [] = []
drop_one k (x ∷ xs) = if x == k then xs else x ∷ drop_one k xs

pub data Step (s : System) : System → Type 0 where
  operate : (o : Operation) → Step s (record s { db = run o s.db })
  begin : (eid now : ℕ) → Step s (start eid now s)
  transmit :
      (a : Attempt)
      → elem a.execution s.going ≡ true
      → Step s (record s { going = drop_one a.execution s.going; wire = a ∷ s.wire })
  crash : (eid : ℕ) → Step s (record s { going = drop_one eid s.going })

pub data Reach (s : System) : System → Type 0 where
  here : Reach s s
  next : {t u : System} → Reach s t → Step t u → Reach s u

abbrev pub empty : System
empty = record {
  db = record { authorizations = []; executions = []; leases = [] };
  wire = [];
  going = [];
}
