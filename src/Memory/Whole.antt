-- ===== src/Memory/Whole.antt =====
-- What `add` writes, a row with its find entry and its history entry.
use personal_world.Prelude.{
  ℕ, Bool, true, false, Option, none, some, String, List, [], ◌∷◌, ◌++◌, ◌≡◌, ◌⊎◌, inl, inr, refl,
  nat_eq,
}
use personal_world.Value.{Fields, get_field, null}
use personal_world.Tx.{Result, ok, err, write_tx}
use personal_world.Table.{find_by}
use personal_world.Memory.Rows.{
  Table, kept, later, records, Row, HistoryEntry, FindEntry, Memory, rows_of, with_rows,
  MemoryError, memory_error, StringOps, fields_of,
}
use personal_world.Memory.Validation.{
  require_table, actor_ok, clean_fields, provenance, given_fields,
}
use personal_world.Memory.Store.{row_id, add, insert, index, record_history, indexed_as, value_or}

abbrev entry_of : Table → Row → FindEntry
entry_of table r = record {
  table = table;
  row_id = r.id;
  sensitivity = indexed_as table r.fields;
  title = value_or null (get_field "title" r.fields);
  body = value_or null (get_field "body" r.fields);
}

abbrev event_of : String → Table → ℕ → String → ℕ → HistoryEntry
event_of event table rid actor at = record {
  at = at;
  actor = actor;
  event = event;
  table = some table;
  row_id = some rid;
  detail = none;
}

abbrev pub with_entries : Table → Row → String → ℕ → Memory → Memory
with_entries table r actor at m = record (with_rows table (rows_of table m ++ r ∷ []) m) {
  find_index = m.find_index ++ entry_of table r ∷ [];
  history = m.history ++ event_of "created" table r.id actor at ∷ [];
}

same_index :
    (table : Table) (rows : List Row) (m : Memory)
    → (with_rows table rows m).find_index ≡ m.find_index
same_index kept rows m = refl
same_index later rows m = refl
same_index records rows m = refl

same_history :
    (table : Table) (rows : List Row) (m : Memory) → (with_rows table rows m).history ≡ m.history
same_history kept rows m = refl
same_history later rows m = refl
same_history records rows m = refl

-- An `add` that is refused writes nothing; one that succeeds found its id free, and appends its row,
-- one find entry for it and one history entry.
pub add_whole :
    (ops : StringOps) (name : String) (given : Fields) (actor origin : String)
    (source : Option String) (now at rid : ℕ) (m : Memory) {table : Table}
    → require_table name ≡ ok table
    → ((e : MemoryError) × (add ops name given actor origin source now at rid m ≡ (err e, m)))
      ⊎ ((row : Row) × (row.id ≡ rid)
          × (find_by row_id rid (rows_of table m) ≡ none)
          × (add ops name given actor origin source now at rid m
              ≡ (ok row, with_entries table row actor at m)))
unfolding add write_tx insert index record_history
add_whole ops name given actor origin source now at rid m {table = t} h =
    by_values (actor_ok ops actor) refl (clean_fields ops t (given_fields (fields_of t) given)) refl
      (provenance ops origin source) refl (find_by row_id rid (rows_of t m)) refl
  where
    by_values :
        (b : Bool)
        → actor_ok ops actor ≡ b
        → (c : Result MemoryError Fields)
        → clean_fields ops t (given_fields (fields_of t) given) ≡ c
        → (o : Result MemoryError (String × Option String)) → provenance ops origin source ≡ o
        → (r : Option Row) → find_by row_id rid (rows_of t m) ≡ r
        → ((e : MemoryError) × (add ops name given actor origin source now at rid m ≡ (err e, m)))
          ⊎ ((row : Row) × (row.id ≡ rid)
              × (find_by row_id rid (rows_of t m) ≡ none)
              × (add ops name given actor origin source now at rid m
                  ≡ (ok row, with_entries t row actor at m)))
    by_values false f c e o k r q = inl (memory_error, rw (h, f) refl)
    by_values true f (err x) e o k r q = inl (x, rw (h, f, e) refl)
    by_values true f (ok c) e (err x) k r q = inl (x, rw (h, f, e, k) refl)
    by_values true f (ok c) e (ok o) k (some r) q = inl (memory_error, rw (h, f, e, k, q) refl)
    by_values true f (ok c) e (ok o) k none q =
        (let row : Row = record {
          id = rid;
          fields = c;
          provenance = o.0;
          source_ref = o.1;
          created_at = now;
          updated_at = now;
        } in
          inr (
            row,
            refl,
            q,
            rw
                (
                  h,
                  f,
                  e,
                  k,
                  q,
                  same_index t (rows_of t m ++ row ∷ []) m,
                  same_history t (rows_of t m ++ row ∷ []) m,
                )
                refl,
          ))
