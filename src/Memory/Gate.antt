-- ===== src/Memory/Gate.antt =====
-- The gate of locked records, and what a call of the store leaves behind.
use personal_world.Prelude.{
  ℕ, Bool, true, false, some, String, List, ◌++◌, ◌≡◌, ◌⊎◌, inl, inr, refl, arith, codes,
  Option-cases, nat_eq, ◌&&◌, none, [], ◌∷◌,
}
use personal_world.Value.{obj, field, str, end, Fields}
use personal_world.Tx.{Result, ok, err, write_tx}
use personal_world.Table.{find_by}
use personal_world.Memory.Rows.{
  Table, Row, Memory, rows_of, MemoryError, memory_error, locked_out, StringOps,
}
use personal_world.Memory.Validation.{require_table, actor_ok, scope_ok, clean_fields}
use personal_world.Memory.Store.{
  row_id, update, delete, get, agent_answer, fetch, is_locked, gate_locked, answer_of,
  changes_sensitivity, has_fields, log_event, record_history,
}

-- Without step-up a locked row can be neither read nor deleted, and the refusal leaves everything as
-- it was.
pub locked_needs_step_up :
    (ops : StringOps) (name actor : String) (rid at : ℕ) (m : Memory) {table : Table} {row : Row}
    → require_table name ≡ ok table
    → actor_ok ops actor ≡ true
    → find_by row_id rid (rows_of table m) ≡ some row
    → is_locked row ≡ true
    → (get ops name rid false actor at m ≡ (err locked_out, m))
      × (delete ops name rid actor false at m ≡ (err locked_out, m))
unfolding get delete fetch gate_locked write_tx
locked_needs_step_up ops name actor rid at m table named found locked =
    (ground (arith, table, found, locked), ground (arith, table, named, found, locked))

-- An `update` that is refused leaves everything as it was, and without step-up only an unlocked row
-- can be updated, its sensitivity kept.
pub update_guarded :
    (ops : StringOps) (name actor : String) (rid now at : ℕ) (fields : Fields) (m : Memory)
    {table : Table} {row : Row}
    → require_table name ≡ ok table
    → find_by row_id rid (rows_of table m) ≡ some row
    → ((e : MemoryError) × (update ops name rid fields actor false now at m ≡ (err e, m)))
      ⊎ ((is_locked row ≡ false)
          × ((clean : Fields) × (clean_fields ops table fields ≡ ok clean)
              × (changes_sensitivity clean row.fields ≡ false)))
unfolding update fetch gate_locked write_tx
update_guarded ops name actor rid now at fields m {table = t} {row = r} h found =
    by_actor (actor_ok ops actor && has_fields fields) refl (clean_fields ops t fields) refl
  where
    Outcome : Type 0
    Outcome =
        ((e : MemoryError) × (update ops name rid fields actor false now at m ≡ (err e, m)))
        ⊎ ((is_locked r ≡ false)
            × ((clean : Fields) × (clean_fields ops t fields ≡ ok clean)
                × (changes_sensitivity clean r.fields ≡ false)))

    by_lock :
        (c : Fields)
        → clean_fields ops t fields ≡ ok c
        → actor_ok ops actor && has_fields fields ≡ true
        → (b d : Bool) → is_locked r ≡ b
        → changes_sensitivity c r.fields ≡ d
        → Outcome
    by_lock c e f true d g k = inl (locked_out, ground (arith, h, found, e, f, g))
    by_lock c e f false true g k = inl (locked_out, ground (arith, h, found, e, f, g, k))
    by_lock c e f false false g k = inr (g, (c, e, k))

    by_actor :
        (b : Bool)
        → actor_ok ops actor && has_fields fields ≡ b
        → (c : Result MemoryError Fields) → clean_fields ops t fields ≡ c
        → Outcome
    by_actor false f c e = inl (memory_error, ground (arith, h, f))
    by_actor true f (err x) e = inl (x, ground (arith, h, f, e))
    by_actor true f (ok c) e =
        by_lock c e f (is_locked r) (changes_sensitivity c r.fields) refl refl

abbrev pub with_answer : String → String → ℕ → Memory → Memory
with_answer name actor at m = record m {
  history =
      m.history
      ++ record {
        at = at;
        actor = actor;
        event = "agent_read";
        table = none;
        row_id = none;
        detail = some (obj (field "name" (str name) end));
      }
        ∷ [];
}

-- An agent is answered only under a scope for that count, with what the query counts; the store gains
-- the history entry of the answer and nothing else changes.
agent_answer_sound :
    (ops : StringOps) (name actor : String) (scopes : List (List ℕ)) (at : ℕ) (m : Memory) {n : ℕ}
    → (agent_answer ops name scopes actor at m).0 ≡ ok n
    → (scope_ok (codes "memory." ++ codes name) scopes ≡ true)
      × ((query : Memory → ℕ) × (answer_of name ≡ some query) × (n ≡ query m))
      × ((agent_answer ops name scopes actor at m).1 ≡ with_answer name actor at m)
unfolding agent_answer log_event record_history write_tx
agent_answer_sound ops name actor scopes at m {n} h = elim (Option-cases (answer_of name)) [
  | inl e ↦ absurd (ground (arith, e))
  | inr (q, e) ↦ (ground (arith, e), (q, e, ground (arith, e)), ground (arith, e))
]
