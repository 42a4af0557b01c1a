-- ===== src/Dispatch/Laws/Forever.antt =====
-- Settled executions and closed authorizations in the later states of `System`.
use personal_world.Prelude.{ℕ, false, Option, none, some, ◌≡◌, refl, arith}
use personal_world.Dispatch.Rows.{Authorization, Db, Execution}
use personal_world.Dispatch.Base.{find_auth, find_exec, is_open, is_unsettled, heartbeat}
use personal_world.Dispatch.Execute.{start_dispatch, settle}
use personal_world.Dispatch.Recover.{recover}
use personal_world.Dispatch.Moves.Rules.{
  AuthMove, AuthPath, stay, by_owner, by_project_home, close, use_up, here, and_then,
}
use personal_world.Dispatch.Moves.Executions.{
  ExecMove, rest, sending, finishing, interrupting, start-Advances,
}
use personal_world.Dispatch.Moves.Authorizations.{
  Decides, Decides-same, approve-Decides, project_home-Decides, deny-Decides, expire_due-Decides,
  request-Decides, consume-Decides, retry-Decides, changed-Decides,
}
use personal_world.Dispatch.System.{
  Operation, requests, approves, confirms, denies, expires, changes, beats, consumes, settles,
  recovers, retries, run, System, operate, begin, transmit, crash, Reach, next, start,
}
use personal_world.Dispatch.System.Operations.{run-Advances}

run-Decides : (o : Operation) (db : Db) → Decides db (run o db)
unfolding run
run-Decides (requests d p action_id params key now aid) db =
    request-Decides db d p action_id params key none false now aid
run-Decides (approves d p aid step_up_now now) db = approve-Decides db d p aid step_up_now now
run-Decides (confirms d aid ph_id now) db = project_home-Decides db d aid ph_id now
run-Decides (denies p aid) db = deny-Decides db p aid
run-Decides (expires now) db = expire_due-Decides db now
run-Decides (changes d ids) db = changed-Decides d ids db
run-Decides (beats d now) db = Decides-same db (heartbeat d now db).1 (unfold heartbeat in refl)
run-Decides (consumes d p aid now eid) db = consume-Decides db d p aid now eid
run-Decides (settles d p r reply eid now) db =
    Decides-same db (run (settles d p r reply eid now) db) (unfold settle in refl)
run-Decides (recovers d now) db = Decides-same db (recover d now db).1 (unfold recover in refl)
run-Decides (retries d p eid now aid) db = retry-Decides db d p eid now aid

AuthMove-closed :
    {o q : Option Authorization}
    → AuthMove o q
    → (a : Authorization) → o ≡ some a
    → is_open a.state ≡ false
    → q ≡ some a
AuthMove-closed stay a e c = e
AuthMove-closed (by_owner p now s) a e c = absurd (ground arith)
AuthMove-closed (by_project_home i now s) a e c = absurd (ground arith)
AuthMove-closed (close s t) a e c = absurd (ground arith)
AuthMove-closed (use_up s) a e c = absurd (ground arith)
AuthMove-closed _ a e c = cc

AuthPath-closed :
    {o q : Option Authorization}
    → AuthPath o q
    → (a : Authorization) → o ≡ some a
    → is_open a.state ≡ false
    → q ≡ some a
AuthPath-closed here a e c = e
AuthPath-closed (and_then m l) a e c = AuthPath-closed l a (AuthMove-closed m a e c) c

ExecMove-settled :
    {o q : Option Execution}
    → ExecMove o q
    → (x : Execution) → o ≡ some x
    → is_unsettled x.state ≡ false
    → q ≡ some x
ExecMove-settled rest x e c = e
ExecMove-settled (sending now s) x e c = absurd (ground arith)
ExecMove-settled (finishing st ev now s f) x e c = absurd (ground arith)
ExecMove-settled (interrupting ev now s) x e c = absurd (ground arith)
ExecMove-settled _ x e c = cc

-- An execution that is SUCCEEDED, FAILED or UNKNOWN keeps its whole row in every later state: no late
-- answer, recovery or retry rewrites a receipt.
pub receipt_forever :
    {s t : System}
    → Reach s t
    → (k : ℕ) (x : Execution) → find_exec k s.db ≡ some x
    → is_unsettled x.state ≡ false
    → find_exec k t.db ≡ some x
unfolding start
receipt_forever Reach.here k x e c = e
receipt_forever (next {t = t} r (operate o)) k x e c =
    ExecMove-settled ((run-Advances o t.db).move k) x (receipt_forever r k x e c) c
receipt_forever (next {t = t} r (begin eid now)) k x e c =
    ExecMove-settled ((start-Advances eid now t.db).move k) x (receipt_forever r k x e c) c
receipt_forever (next r (transmit a due)) k x e c = receipt_forever r k x e c
receipt_forever (next r (crash eid)) k x e c = receipt_forever r k x e c

-- An authorization that is denied, expired, invalidated or consumed keeps its whole row in every later
-- state: it can never be approved or used again.
pub closed_forever :
    {s t : System}
    → Reach s t
    → (k : ℕ) (a : Authorization) → find_auth k s.db ≡ some a
    → is_open a.state ≡ false
    → find_auth k t.db ≡ some a
unfolding start start_dispatch
closed_forever Reach.here k a e c = e
closed_forever (next {t = t} r (operate o)) k a e c =
    AuthPath-closed ((run-Decides o t.db).path k) a (closed_forever r k a e c) c
closed_forever (next {t = t} r (begin eid now)) k a e c = closed_forever r k a e c
closed_forever (next r (transmit a' due)) k a e c = closed_forever r k a e c
closed_forever (next r (crash eid)) k a e c = closed_forever r k a e c
