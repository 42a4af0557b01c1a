-- ===== src/Memory/Store.antt =====
-- The operations of `MemoryStore` in worlds/memory_store.py.
use personal_world.Prelude.{
  ℕ, Bool, true, false, Option, none, some, String, List, [], ◌∷◌, ◌++◌, ◌==◌, string_eq, nat_eq,
  not, codes, ◌&&◌, if◌then◌else◌,
}
use personal_world.Value.{
  Value, null, str, arr, obj, nil, cons, Items, Fields, end, field, get_field,
}
use personal_world.Tx.{Result, ok, err, Op, ◌>>=◌, ◌>>◌, write_tx, guard, pure, lift, modify}
use personal_world.Table.{find_by, update_where, delete_where, count_where}
use personal_world.Memory.Rows.{
  Table, records, Row, FindEntry, Memory, rows_of, with_rows, MemoryError, memory_error, not_found,
  locked_out, not_permitted, StringOps, fields_of,
}
use personal_world.Memory.Validation.{
  require_table, clean_fields, given_fields, provenance, actor_ok, scope_ok,
}

abbrev pub row_id : Row → ℕ
row_id r = r.id

abbrev found_or : Option Row → Result MemoryError Row
found_or none = err not_found
found_or (some r) = ok r

-- `_fetch`
unfoldable pub fetch : Table → ℕ → Op Memory MemoryError Row
fetch table rid m = (found_or (find_by row_id rid (rows_of table m)), m)

abbrev is_str : String → Option Value → Bool
is_str s (some (str t)) = t == s
is_str s _ = false

-- `row.get("sensitivity") == "locked"`
unfoldable pub is_locked : Row → Bool
unfolding get_field
is_locked r = is_str "locked" (get_field "sensitivity" r.fields)

-- `_gate_locked`
unfoldable pub gate_locked : Row → Bool → Op Memory MemoryError (Unit {0})
unfolding is_locked
gate_locked r step_up = guard (not (is_locked r && not step_up)) locked_out

abbrev insert_if_new : Table → Row → Option Row → Op Memory MemoryError (Unit {0})
insert_if_new table r none m = (ok tt, with_rows table (rows_of table m ++ r ∷ []) m)
insert_if_new table r (some s) m = (err memory_error, m)

-- `_insert`
unfoldable pub insert : Table → Row → Op Memory MemoryError (Unit {0})
insert table r m = insert_if_new table r (find_by row_id r.id (rows_of table m)) m

abbrev pub value_or : Value → Option Value → Value
value_or v none = v
value_or v (some w) = w

abbrev pub indexed_as : Table → Fields → Value
indexed_as records fs = value_or (str "normal") (get_field "sensitivity" fs)
indexed_as table fs = str "normal"

-- `_index`, at a row of the table
unfoldable pub index : Table → ℕ → Fields → Op Memory MemoryError (Unit {0})
unfolding get_field
index table rid fs m = (
  ok tt,
  record m {
    find_index =
        m.find_index
        ++ record {
          table = table;
          row_id = rid;
          sensitivity = indexed_as table fs;
          title = value_or null (get_field "title" fs);
          body = value_or null (get_field "body" fs);
        }
          ∷ [];
  },
)

-- `DELETE FROM find_index WHERE row_id=?`
unfoldable pub unindex : ℕ → Op Memory MemoryError (Unit {0})
unindex rid m = (
  ok tt,
  record m { find_index = delete_where (λ (f : FindEntry). f.row_id == rid) m.find_index },
)

-- `_record_history`
unfoldable pub record_history :
    String → Option Table → Option ℕ → Option Value → String → ℕ → Op Memory MemoryError (Unit {0})
record_history event table rid detail actor at m = (
  ok tt,
  record m {
    history =
        m.history
        ++ record {
          at = at;
          actor = actor;
          event = event;
          table = table;
          row_id = rid;
          detail = detail;
        }
          ∷ [];
  },
)

-- `_log`
unfoldable pub log_event :
    String → Option Table → Option ℕ → Option Value → String → ℕ → Op Memory MemoryError (Unit {0})
unfolding record_history write_tx
log_event event table rid detail actor at =
    write_tx (record_history event table rid detail actor at)

-- `add`; `given` has what the call passes for each field, `status` "open" among it
unfoldable pub add :
    StringOps
    → String
    → Fields
    → String
    → String
    → Option String
    → ℕ
    → ℕ
    → ℕ
    → Op Memory MemoryError Row
unfolding require_table clean_fields given_fields provenance actor_ok insert index record_history
    write_tx
add ops name given actor origin source now at rid = do
  table ← lift (require_table name)
  guard (actor_ok ops actor) memory_error
  values ← lift (clean_fields ops table (given_fields (fields_of table) given))
  from ← lift (provenance ops origin source)
  let row : Row = record {
    id = rid;
    fields = values;
    provenance = from.0;
    source_ref = from.1;
    created_at = now;
    updated_at = now;
  }
  write_tx (do
    insert table row
    index table rid values
    record_history "created" (some table) (some rid) none actor at)
  pure row

-- `{**current, **clean}`
unfoldable pub set_field : String → Value → Fields → Fields
set_field name v end = field name v end
set_field name v (field key w rest) =
    let later = set_field name v rest in if key == name then field key v rest else field key w later

unfoldable pub merge : Fields → Fields → Fields
unfolding set_field
merge current end = current
merge current (field name v rest) = merge (set_field name v current) rest

unfoldable pub field_names : Fields → List String
field_names end = []
field_names (field name v rest) = name ∷ field_names rest

unfoldable pub name_items : List String → Items
name_items [] = nil
name_items (name ∷ rest) = cons (str name) (name_items rest)

abbrev pub has_fields : Fields → Bool
has_fields end = false
has_fields (field name v rest) = true

abbrev str_of : Option Value → Option String
str_of (some (str s)) = some s
str_of _ = none

abbrev changes_to : Option String → Option String → Bool
changes_to none now = false
changes_to (some s) none = true
changes_to (some s) (some t) = not (s == t)

-- `"sensitivity" in clean and clean["sensitivity"] != current.get("sensitivity")`
unfoldable pub changes_sensitivity : Fields → Fields → Bool
unfolding get_field
changes_sensitivity clean current =
    changes_to (str_of (get_field "sensitivity" clean)) (str_of (get_field "sensitivity" current))

-- `update`
unfoldable pub update :
    StringOps → String → ℕ → Fields → String → Bool → ℕ → ℕ → Op Memory MemoryError Row
unfolding require_table clean_fields actor_ok fetch gate_locked changes_sensitivity merge
    field_names name_items unindex index record_history write_tx
update ops name rid fields actor step_up now at = do
  table ← lift (require_table name)
  guard (actor_ok ops actor && has_fields fields) memory_error
  clean ← lift (clean_fields ops table fields)
  write_tx (do
    current ← fetch table rid
    gate_locked current step_up
    guard (not (changes_sensitivity clean current.fields && not step_up)) locked_out
    let merged : Row = record current { fields = merge current.fields clean; updated_at = now }
    modify (λ m.
        with_rows table (update_where (λ r. row_id r == rid) (λ r. merged) (rows_of table m)) m)
    unindex rid
    index table rid merged.fields
    record_history "updated" (some table) (some rid)
        (some (obj (field "fields" (arr (name_items (ops.sorted (field_names clean)))) end))) actor
        at
    pure merged)

-- `delete`
unfoldable pub delete :
    StringOps → String → ℕ → String → Bool → ℕ → Op Memory MemoryError (Unit {0})
unfolding require_table actor_ok fetch gate_locked unindex record_history write_tx
delete ops name rid actor step_up at = do
  table ← lift (require_table name)
  guard (actor_ok ops actor) memory_error
  write_tx (do
    current ← fetch table rid
    gate_locked current step_up
    modify (λ m. with_rows table (delete_where (λ r. row_id r == rid) (rows_of table m)) m)
    unindex rid
    record_history "deleted" (some table) (some rid) none actor at)

abbrev log_locked : Bool → StringOps → Table → ℕ → String → ℕ → Op Memory MemoryError (Unit {0})
log_locked false ops table rid actor at = pure tt
log_locked true ops table rid actor at = do
  guard (actor_ok ops actor) memory_error
  log_event "read_locked" (some table) (some rid) none actor at

-- `get`
unfoldable pub get : StringOps → String → ℕ → Bool → String → ℕ → Op Memory MemoryError Row
unfolding require_table actor_ok fetch gate_locked log_event
get ops name rid step_up actor at = do
  table ← lift (require_table name)
  row ← fetch table rid
  gate_locked row step_up
  log_locked (is_locked row) ops table row.id actor at
  pure row

abbrev is_open_row : Row → Bool
is_open_row r = is_str "open" (get_field "status" r.fields)

-- `AGENT_ANSWERS`, each query with its answer
unfoldable pub answer_of : String → Option (Memory → ℕ)
unfolding is_locked get_field
answer_of name =
    if name == "later.count"
    then some (λ (m : Memory). count_where is_open_row m.later_rows)
    else if name == "kept.count"
    then some (λ (m : Memory). count_where (λ r. true) m.kept_rows)
    else if name == "records.count"
    then some (λ (m : Memory). count_where (λ r. not (is_locked r)) m.records_rows)
    else none

abbrev query_or : Option (Memory → ℕ) → Result MemoryError (Memory → ℕ)
query_or none = err not_found
query_or (some q) = ok q

-- `agent_answer`
unfoldable pub agent_answer :
    StringOps → String → List (List ℕ) → String → ℕ → Op Memory MemoryError ℕ
unfolding answer_of scope_ok actor_ok log_event
agent_answer ops name scopes actor at = do
  query ← lift (query_or (answer_of name))
  guard (scope_ok (codes "memory." ++ codes name) scopes) not_permitted
  value ← (λ m. (ok (query m), m))
  guard (actor_ok ops actor) memory_error
  log_event "agent_read" none none (some (obj (field "name" (str name) end))) actor at
  pure value

-- `record_event`
unfoldable pub record_event :
    StringOps → String → Option Value → String → ℕ → Op Memory MemoryError (Unit {0})
unfolding actor_ok log_event
record_event ops event detail actor at = do
  guard (event == "connect_try") memory_error
  guard (actor_ok ops actor) memory_error
  log_event event none none detail actor at
