-- ===== src/Memory/Validation.antt =====
-- The validation of worlds/memory_store.py: `_require_table` to `_actor`, and `_scope_ok`.
use personal_world.Prelude.{
  ℕ, Bool, false, Option, none, some, String, List, [], ◌∷◌, ◌==◌, string_eq, ltb, not, length,
  codes, Text, ◌&&◌, ◌||◌, if◌then◌else◌, same_text, starts_with, ends_with, but_last,
}
use personal_world.Value.{
  Value, null, num, str, arr, nil, cons, Items, Fields, end, field, get_field,
}
use personal_world.Tx.{Result, ok, err}
use personal_world.Memory.Rows.{
  Table, kept, later, records, MemoryError, memory_error, StringOps, one_of, fields_of, immutable,
}

-- `_require_table`
unfoldable pub require_table : String → Result MemoryError Table
require_table name =
    if name == "kept"
    then ok kept
    else if name == "later"
    then ok later
    else if name == "records"
    then ok records
    else err memory_error

-- `_text`
unfoldable pub text : Value → ℕ → Result MemoryError String
text (str s) max_len = if ltb max_len (length (codes s)) then err memory_error else ok s
text v max_len = err memory_error

-- `_one_of`
unfoldable pub one_of_values : Value → List String → Result MemoryError Value
one_of_values (str s) allowed = if one_of s allowed then ok (str s) else err memory_error
one_of_values v allowed = err memory_error

abbrev pub as_text : Result MemoryError String → Result MemoryError Value
as_text (ok s) = ok (str s)
as_text (err e) = err e

abbrev titled : StringOps → Result MemoryError String → Result MemoryError Value
titled ops (err e) = err e
titled ops (ok s) = if ops.strip s == "" then err memory_error else ok (str (ops.strip s))

abbrev add_tag : Result MemoryError String → Result MemoryError Items → Result MemoryError Items
add_tag (err e) rest = err e
add_tag (ok s) (err e) = err e
add_tag (ok s) (ok tags) = ok (cons (str s) tags)

unfoldable pub all_tags : Items → Result MemoryError Items
unfolding text
all_tags nil = ok nil
all_tags (cons v rest) = let later = all_tags rest in add_tag (text v 64) later

unfoldable pub count_items : Items → ℕ
count_items nil = 0
count_items (cons v rest) = ℕ.suc (count_items rest)

abbrev as_list : Result MemoryError Items → Result MemoryError Value
as_list (ok tags) = ok (arr tags)
as_list (err e) = err e

unfoldable pub tags_value : Value → Result MemoryError Value
unfolding all_tags count_items
tags_value null = ok (arr nil)
tags_value (arr tags) =
    if ltb 32 (count_items tags) then err memory_error else as_list (all_tags tags)
tags_value v = err memory_error

unfoldable pub kind_value : Value → Result MemoryError Value
unfolding text
kind_value null = ok null
kind_value v = as_text (text v 64)

unfoldable pub due_value : Value → Result MemoryError Value
due_value null = ok null
due_value (num n) = ok (num n)
due_value v = err memory_error

-- `_field_value`
unfoldable pub field_value : StringOps → Table → String → Value → Result MemoryError Value
unfolding text tags_value kind_value due_value one_of_values
field_value ops table name v =
    if one_of name immutable
    then err memory_error
    else if not (one_of name (fields_of table))
    then err memory_error
    else if name == "title"
    then titled ops (text v 200)
    else if name == "body"
    then as_text (text v 65536)
    else if name == "tags"
    then tags_value v
    else if name == "kind"
    then kind_value v
    else if name == "sensitivity"
    then one_of_values v ("normal" ∷ "locked" ∷ [])
    else if name == "status"
    then one_of_values v ("open" ∷ "done" ∷ "dropped" ∷ [])
    else if name == "due_at"
    then due_value v
    else err memory_error

abbrev keep_field :
    String → Result MemoryError Value → Result MemoryError Fields → Result MemoryError Fields
keep_field name (err e) rest = err e
keep_field name (ok v) (err e) = err e
keep_field name (ok v) (ok rest) = ok (field name v rest)

-- `{name: _field_value(table, name, value) for name, value in fields.items()}`
unfoldable pub clean_fields : StringOps → Table → Fields → Result MemoryError Fields
unfolding field_value
clean_fields ops table end = ok end
clean_fields ops table (field name v rest) =
    let later = clean_fields ops table rest in keep_field name (field_value ops table name v) later

abbrev or_null : Option Value → Value
or_null none = null
or_null (some v) = v

-- The loop of `add` over the fields of the table
unfoldable pub given_fields : List String → Fields → Fields
unfolding get_field
given_fields [] given = end
given_fields (name ∷ rest) given =
    field name (or_null (get_field name given)) (given_fields rest given)

-- `_provenance`
unfoldable pub provenance :
    StringOps → String → Option String → Result MemoryError (String × Option String)
provenance ops p none =
    if not (one_of p ("owner" ∷ "suggestion" ∷ "external_ref" ∷ []))
    then err memory_error
    else if p == "external_ref"
    then err memory_error
    else ok (p, none)
provenance ops p (some s) =
    if not (one_of p ("owner" ∷ "suggestion" ∷ "external_ref" ∷ []))
    then err memory_error
    else if p == "external_ref"
    then (if (ops.strip s == "") || ltb 512 (length (codes s))
        then err memory_error
        else ok (p, some s))
    else if s == ""
    then ok (p, none)
    else err memory_error

-- `_actor`
unfoldable pub actor_ok : StringOps → String → Bool
actor_ok ops actor = not (ops.strip actor == "")

-- One scope of `_scope_ok`
abbrev scope_covers : Text → Text → Bool
scope_covers needed scope =
    same_text scope needed
    || same_text scope (codes "*")
    || (ends_with scope (codes ".*") && starts_with needed (but_last scope))

-- `_scope_ok`
unfoldable pub scope_ok : Text → List Text → Bool
unfolding same_text ends_with starts_with but_last
scope_ok needed [] = false
scope_ok needed (scope ∷ rest) = scope_covers needed scope || scope_ok needed rest
