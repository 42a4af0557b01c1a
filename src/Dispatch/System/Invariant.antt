-- ===== src/Dispatch/System/Invariant.antt =====
-- The invariant of `System`, kept by every operation.
use personal_world.Prelude.{
  ℕ, suc, ◌≤◌, Bool, true, false, Option, none, some, List, [], ◌∷◌, ◌==◌, nat_eq, ◌≡◌, refl, arith,
  sym, subst, if◌then◌else◌,
}
use personal_world.Table.{IsKeyed}
use personal_world.Dispatch.Rows.{
  Authorization, AuthState, approved, consumed, Authority, Db, Execution, Attempt,
}
use personal_world.Dispatch.Base.{auth_id, exec_id, exec_auth, find_auth, find_exec, is_intent}
use personal_world.Dispatch.Moves.Rules.{
  AuthMove, AuthPath, stay, born_pending, born_approved, by_owner, by_project_home, close, use_up,
  here, and_then, to_denied, to_expired, to_invalidated,
}
use personal_world.Dispatch.Moves.Executions.{
  ExecMove, rest, recorded, sending, finishing, interrupting, is_succeeded, is_failed, is_unknown,
  Advances,
}
use personal_world.Dispatch.Moves.Authorizations.{Decides}

-- How often an id is about to be sent, and was sent.
unfoldable pub times : ℕ → List ℕ → ℕ
times k [] = 0
times k (x ∷ xs) = if x == k then suc (times k xs) else times k xs

unfoldable pub sends : ℕ → List Attempt → ℕ
sends k [] = 0
sends k (a ∷ sent) = if a.execution == k then suc (sends k sent) else sends k sent

-- One send is due from the moment that the row leaves INTENT.
abbrev pub weight : Option Execution → ℕ
weight none = 0
weight (some e) = if is_intent e.state then 0 else 1

abbrev pub Granted : Option Authority → Type 0
Granted none = ⊥
Granted (some a) = Unit

-- The authorization was approved by some authority, and then used.
abbrev pub IsSpent : Option Authorization → Type 0
IsSpent none = ⊥
IsSpent (some a) = (a.state ≡ consumed) × Granted a.authority

abbrev pub wants_authority : AuthState → Bool
wants_authority approved = true
wants_authority consumed = true
wants_authority _ = false

abbrev pub HasAuthority : Option Authorization → Type 0
HasAuthority none = Unit
HasAuthority (some a) = wants_authority a.state ≡ true → Granted a.authority

abbrev pub IsBacked : Db → Option Execution → Type 0
IsBacked db none = Unit
IsBacked db (some e) = IsSpent (find_auth e.authorization_id db)

pub record IsSound (db : Db) : Type 0 where
  pub exec_ids : IsKeyed exec_id db.executions
  pub exec_auths : IsKeyed exec_auth db.executions
  pub auth_ids : IsKeyed auth_id db.authorizations
  pub authority : (k : ℕ) → HasAuthority (find_auth k db)
  pub backed : (k : ℕ) → IsBacked db (find_exec k db)

AuthMove-HasAuthority :
    {o q : Option Authorization} → AuthMove o q → HasAuthority o → HasAuthority q
AuthMove-HasAuthority stay h = h
AuthMove-HasAuthority (born_pending e) h = λ w. ground arith
AuthMove-HasAuthority (born_approved e f) h = λ w. ground arith
AuthMove-HasAuthority (by_owner p now e) h = λ w. tt
AuthMove-HasAuthority (by_project_home i now e) h = λ w. tt
AuthMove-HasAuthority (close e to_denied) h = λ w. cc
AuthMove-HasAuthority (close e to_expired) h = λ w. cc
AuthMove-HasAuthority (close e to_invalidated) h = λ w. cc
AuthMove-HasAuthority (use_up e) h = λ w. h (ground arith)

AuthPath-HasAuthority :
    {o q : Option Authorization} → AuthPath o q → HasAuthority o → HasAuthority q
AuthPath-HasAuthority here h = h
AuthPath-HasAuthority (and_then m l) h = AuthPath-HasAuthority l (AuthMove-HasAuthority m h)

-- A used authorization stays as it is.
AuthMove-IsSpent : {o q : Option Authorization} → AuthMove o q → IsSpent o → IsSpent q
AuthMove-IsSpent stay h = h
AuthMove-IsSpent (born_pending e) h = absurd h
AuthMove-IsSpent (born_approved e f) h = absurd h
AuthMove-IsSpent (by_owner p now e) h = absurd (ground arith)
AuthMove-IsSpent (by_project_home i now e) h = absurd (ground arith)
AuthMove-IsSpent (close e c) h = absurd (ground arith)
AuthMove-IsSpent (use_up e) h = absurd (ground arith)

AuthPath-IsSpent : {o q : Option Authorization} → AuthPath o q → IsSpent o → IsSpent q
AuthPath-IsSpent here h = h
AuthPath-IsSpent (and_then m l) h = AuthPath-IsSpent l (AuthMove-IsSpent m h)

pub weight-ExecMove : {o q : Option Execution} → ExecMove o q → weight o ≤ weight q
weight-ExecMove rest = omega arith
weight-ExecMove (recorded e) = omega arith
weight-ExecMove (sending now e) = ground arith
weight-ExecMove (finishing st ev now e is_succeeded) = ground arith
weight-ExecMove (finishing st ev now e is_failed) = ground arith
weight-ExecMove (finishing st ev now e is_unknown) = ground arith
weight-ExecMove (interrupting ev now e) = ground arith

-- A row that was there keeps its authorization.
IsBacked-ExecMove :
    (db : Db) {o q : Option Execution}
    → ExecMove o q
    → ((e : Execution) → o ≡ none → q ≡ some e → IsBacked db q)
    → IsBacked db o
    → IsBacked db q
IsBacked-ExecMove db rest fresh h = h
IsBacked-ExecMove db (recorded {e} s) fresh h = fresh e refl refl
IsBacked-ExecMove db (sending now s) fresh h = h
IsBacked-ExecMove db (finishing st ev now s f) fresh h = h
IsBacked-ExecMove db (interrupting ev now s) fresh h = h

IsBacked-Decides :
    {db after : Db} → Decides db after → (o : Option Execution) → IsBacked db o → IsBacked after o
IsBacked-Decides m none h = tt
IsBacked-Decides m (some e) h = AuthPath-IsSpent (m.path e.authorization_id) h

-- An operation that records no new execution without spending its authorization keeps the tables sound.
pub IsSound-step :
    {db after : Db}
    → Decides db after
    → Advances db after
    → ((k : ℕ) (e : Execution)
        → find_exec k db ≡ none
        → find_exec k after ≡ some e
        → IsSpent (find_auth e.authorization_id after))
    → IsSound db
    → IsSound after
IsSound-step {db} {after} m v fresh h = record {
  exec_ids = v.ids h.exec_ids;
  exec_auths = v.auths h.exec_auths;
  auth_ids = m.ids h.auth_ids;
  authority = λ k. AuthPath-HasAuthority (m.path k) (h.authority k);
  backed = λ k.
      IsBacked-ExecMove after (v.move k)
        (λ e was is. subst (IsBacked after) (sym is) (fresh k e was is))
        (IsBacked-Decides m (find_exec k db) (h.backed k));
}
