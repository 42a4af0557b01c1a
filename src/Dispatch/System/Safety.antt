-- ===== src/Dispatch/System/Safety.antt =====
-- The reachable states of `System`: the attempts on the network against the rows of the database.
use personal_world.Prelude.{
  ℕ, suc, zero, ◌+◌, ◌≤◌, true, false, some, List, [], ◌∷◌, ◌==◌, ◌&&◌, nat_eq, nat_beq_iff, ◌≡◌,
  inl, inr, refl, arith, ap, sym, subst, ◌∙◌, if◌then◌else◌, elem, get_elem?, Bool-cases,
  Option-cases,
}
use personal_world.Table.{
  find_by, find_by-update_where, count_where, count_where-by_key, IsKeyed, map_row, row_count,
  find_by-key, find_by-find_by,
}
use personal_world.Dispatch.Rows.{Db, Execution, dispatching, Attempt}
use personal_world.Dispatch.Base.{exec_id, exec_auth, find_exec, find_auth, is_intent}
use personal_world.Dispatch.Execute.{start_dispatch}
use personal_world.Dispatch.Moves.Executions.{start-Advances}
use personal_world.Dispatch.System.{
  System, Step, operate, begin, transmit, crash, Reach, here, next, start, has_moved, drop_one,
  empty,
}
use personal_world.Dispatch.System.Invariant.{
  IsSound, IsSpent, IsBacked, times, sends, weight, weight-ExecMove,
}
use personal_world.Dispatch.System.Operations.{run-IsSound, run-Advances, start-IsSound}

-- At most one send of an execution is due or done, and none before its row left INTENT.
pub record Inv (s : System) : Type 0 where
  pub sound : IsSound s.db
  pub bounded : (k : ℕ) → times k s.going + sends k s.wire ≤ weight (find_exec k s.db)

times-drop_one :
    (k e : ℕ) (xs : List ℕ)
    → elem e xs ≡ true
    → times k (drop_one e xs) + (if e == k then 1 else 0) ≡ times k xs
unfolding times drop_one elem
times-drop_one k e [] h = cc
times-drop_one k e (x ∷ xs) h = ground (arith, times-drop_one k e xs)

times-drop_one-le : (k e : ℕ) (xs : List ℕ) → times k (drop_one e xs) ≤ times k xs
unfolding times drop_one
times-drop_one-le k e [] = omega arith
times-drop_one-le k e (x ∷ xs) = ground (arith, times-drop_one-le k e xs)

-- A row count of 1 means that the row stood in INTENT, and has left it.
start_moves :
    (eid now : ℕ) (db : Db)
    → IsKeyed exec_id db.executions
    → has_moved (start_dispatch eid now db).0 ≡ true
    → (weight (find_exec eid db) ≡ 0) × (weight (find_exec eid (start_dispatch eid now db).1) ≡ 1)
unfolding start_dispatch
start_moves eid now db keyed h = elim (Option-cases (find_exec eid db)) [
  | inl e ↦ ground (arith, counted, e)
  | inr (x, e) ↦ ground (arith, counted, seen, e, find_by-key exec_id eid db.executions e)
]
  where
    counted :
        count_where (λ (e : Execution). (exec_id e == eid) && is_intent e.state) db.executions
        ≡ row_count (λ (e : Execution). is_intent e.state) (find_exec eid db)
    counted = count_where-by_key exec_id eid (λ e. is_intent e.state) db.executions keyed

    seen :
        find_exec eid (start_dispatch eid now db).1
        ≡ map_row
            (λ e. (exec_id e == eid) && is_intent e.state)
            (λ e. record e { state = dispatching; dispatch_started_at = some now })
            (find_exec eid db)
    seen = find_by-update_where exec_id _ _ (λ e. refl) eid db.executions

start-Inv : (eid now : ℕ) (s : System) → Inv s → Inv (start eid now s)
unfolding start times
start-Inv eid now s h = record {
  sound = start-IsSound eid now s.db h.sound;
  bounded = λ k. elim (Bool-cases (has_moved (start_dispatch eid now s.db).0)) [
    | inl e ↦ ground (
      arith,
      e,
      h.bounded k,
      start_moves eid now s.db h.sound.exec_ids e,
      weight-ExecMove ((start-Advances eid now s.db).move k),
      nat_beq_iff eid k,
    )
    | inr e ↦ ground (arith, e, h.bounded k, weight-ExecMove ((start-Advances eid now s.db).move k))
  ];
}

Step-Inv : {s t : System} → Step s t → Inv s → Inv t
unfolding sends
Step-Inv {s} (operate o) h = record {
  sound = run-IsSound o s.db h.sound;
  bounded = λ k. omega (arith, h.bounded k, weight-ExecMove ((run-Advances o s.db).move k));
}
Step-Inv {s} (begin eid now) h = start-Inv eid now s h
Step-Inv {s} (transmit a due) h = record {
  sound = h.sound;
  bounded = λ k. ground (arith, h.bounded k, times-drop_one k a.execution s.going due);
}
Step-Inv {s} (crash eid) h = record {
  sound = h.sound;
  bounded = λ k. omega (arith, h.bounded k, times-drop_one-le k eid s.going);
}

Inv-empty : Inv empty
unfolding times sends find_by
Inv-empty = record {
  sound = record {
    exec_ids = tt;
    exec_auths = tt;
    auth_ids = tt;
    authority = λ k. tt;
    backed = λ k. tt;
  };
  bounded = λ k. omega arith;
}

pub Reach-Inv : {s : System} → Reach empty s → Inv s
Reach-Inv here = Inv-empty
Reach-Inv (next r st) = Step-Inv st (Reach-Inv r)

-- Whatever the processes do and however their transactions interleave, crash and recover, no execution
-- is ever sent twice.
pub send_at_most_once : {s : System} → Reach empty s → (k : ℕ) → sends k s.wire ≤ 1
send_at_most_once {s} r k = ground (arith, (Reach-Inv r).bounded k)

sends-pos :
    (wire : List Attempt) (i : ℕ) {a : Attempt}
    → get_elem? wire i ≡ some a
    → 1 ≤ sends a.execution wire
unfolding sends
sends-pos [] i h = cc
sends-pos (b ∷ wire) zero h = ground arith
sends-pos (b ∷ wire) (suc i) {a = a} h = ground (arith, sends-pos wire i {a = a} h)

-- Two places of one execution are one place.
sends_unique :
    (wire : List Attempt) (i j : ℕ) {a b : Attempt}
    → get_elem? wire i ≡ some a
    → get_elem? wire j ≡ some b
    → a.execution ≡ b.execution
    → sends a.execution wire ≤ 1
    → i ≡ j
unfolding sends
sends_unique [] i j h k e u = cc
sends_unique (c ∷ wire) zero zero h k e u = refl
sends_unique (c ∷ wire) zero (suc j) {b = b} h k e u = ground (arith, sends-pos wire j {a = b} k)
sends_unique (c ∷ wire) (suc i) zero {a = a} h k e u = ground (arith, sends-pos wire i {a = a} h)
sends_unique (c ∷ wire) (suc i) (suc j) {a = a} {b = b} h k e u =
    ground (arith, sends_unique wire i j {a = a} {b = b} h k e)

-- What the tables hold of an attempt that went out.
abbrev pub Traced : Db → Attempt → Execution → Type 0
Traced db a e =
    (find_exec a.execution db ≡ some e)
    × (is_intent e.state ≡ false)
    × IsSpent (find_auth e.authorization_id db)

-- Every attempt on the network belongs to a recorded execution that has left INTENT, and its
-- authorization was approved by the owner, by Project Home or by policy, and is consumed.
pub sent_was_approved :
    {s : System}
    → Reach empty s
    → (i : ℕ) (a : Attempt) → get_elem? s.wire i ≡ some a
    → (e : Execution) × Traced s.db a e
sent_was_approved {s} r i a h = elim (Option-cases (find_exec a.execution s.db)) [
  | inl e ↦ absurd (ground (arith, e, inv.bounded a.execution, sends-pos s.wire i h))
  | inr (x, e) ↦ (
    x,
    (
      e,
      ground (arith, e, inv.bounded a.execution, sends-pos s.wire i h),
      subst (IsBacked s.db) e (inv.sound.backed a.execution),
    ),
  )
]
  where
    inv : Inv s
    inv = Reach-Inv r

-- Two attempts on the network whose executions stem from one authorization are the same attempt: an
-- approval leads to one send at most.
pub approval_sends_once :
    {s : System}
    → Reach empty s
    → (i j : ℕ) (a b : Attempt) (e f : Execution) → get_elem? s.wire i ≡ some a
    → get_elem? s.wire j ≡ some b
    → find_exec a.execution s.db ≡ some e
    → find_exec b.execution s.db ≡ some f
    → e.authorization_id ≡ f.authorization_id
    → i ≡ j
approval_sends_once {s} r i j a b e f ha hb he hf same =
    sends_unique s.wire i j ha hb
      (sym (find_by-key exec_id a.execution s.db.executions he)
        ∙ ap exec_id one_row
        ∙ find_by-key exec_id b.execution s.db.executions hf)
      (send_at_most_once r a.execution)
  where
    keyed : IsKeyed exec_auth s.db.executions
    keyed = (Reach-Inv r).sound.exec_auths

    one_row : e ≡ f
    one_row = cc (
      same,
      find_by-find_by exec_id exec_auth a.execution s.db.executions keyed he,
      find_by-find_by exec_id exec_auth b.execution s.db.executions keyed hf,
    )
