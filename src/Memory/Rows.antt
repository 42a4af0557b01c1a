-- ===== src/Memory/Rows.antt =====
-- The tables of worlds/memory_store.py and what the module raises.
use personal_world.Prelude.{
  ℕ, Bool, true, false, Option, String, List, [], ◌∷◌, ◌==◌, string_eq, if◌then◌else◌,
}
use personal_world.Value.{Value, Fields}

-- `TABLES`
pub data Table : Type 0 where
  kept later records : Table

abbrev pub same_table : Table → Table → Bool
same_table kept kept = true
same_table later later = true
same_table records records = true
same_table _ _ = false

-- A row: its fields by name, and the store's own columns.
pub record Row : Type 0 where
  pub id : ℕ
  pub fields : Fields
  pub provenance : String
  pub source_ref : Option String
  pub created_at : ℕ
  pub updated_at : ℕ

pub record FindEntry : Type 0 where
  pub table : Table
  pub row_id : ℕ
  pub sensitivity : Value
  pub title : Value
  pub body : Value

pub record HistoryEntry : Type 0 where
  pub at : ℕ
  pub actor : String
  pub event : String
  pub table : Option Table
  pub row_id : Option ℕ
  pub detail : Option Value

-- The rows in the order in which they were inserted.
pub record Memory : Type 0 where
  pub kept_rows : List Row
  pub later_rows : List Row
  pub records_rows : List Row
  pub find_index : List FindEntry
  pub history : List HistoryEntry

abbrev pub rows_of : Table → Memory → List Row
rows_of kept m = m.kept_rows
rows_of later m = m.later_rows
rows_of records m = m.records_rows

abbrev pub with_rows : Table → List Row → Memory → Memory
with_rows kept rows m = record m { kept_rows = rows }
with_rows later rows m = record m { later_rows = rows }
with_rows records rows m = record m { records_rows = rows }

-- `MemoryError_`, `NotFound`, `Locked` and `NotPermitted_`, without their messages
pub data MemoryError : Type 0 where
  memory_error not_found locked_out not_permitted : MemoryError

-- What the store takes from Python: `str.strip`, `sorted` on names.
pub record StringOps : Type 0 where
  pub strip : String → String
  pub sorted : List String → List String

abbrev pub one_of : String → List String → Bool
one_of s [] = false
one_of s (t ∷ rest) = if s == t then true else one_of s rest

-- `_FIELDS`
abbrev pub fields_of : Table → List String
fields_of kept = "title" ∷ "body" ∷ "tags" ∷ []
fields_of later = "title" ∷ "body" ∷ "due_at" ∷ "status" ∷ []
fields_of records = "title" ∷ "body" ∷ "kind" ∷ "sensitivity" ∷ []

-- `_IMMUTABLE`
abbrev pub immutable : List String
immutable = "id" ∷ "table" ∷ "provenance" ∷ "source_ref" ∷ "created_at" ∷ "updated_at" ∷ []
