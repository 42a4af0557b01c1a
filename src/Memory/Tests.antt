-- ===== src/Memory/Tests.antt =====
-- The memory store at concrete inputs.
use personal_world.Prelude.{false, none, [], ◌∷◌, ◌≡◌, ◌⊎◌, refl}
use personal_world.Value.{Fields, str, null, end, field, get_field}
use personal_world.Tx.{ok, err}
use personal_world.Table.{find_by}
use personal_world.Memory.Rows.{
  kept, records, Row, Memory, rows_of, MemoryError, locked_out, StringOps,
}
use personal_world.Memory.Validation.{require_table, actor_ok, clean_fields}
use personal_world.Memory.Store.{row_id, add, update, delete, get, is_locked, changes_sensitivity}
use personal_world.Memory.Gate.{locked_needs_step_up, update_guarded}
use personal_world.Memory.Whole.{add_whole, with_entries}

abbrev ops : StringOps
ops = record { strip = λ s. s; sorted = λ xs. xs }

abbrev secret : Row
secret = record {
  id = 4;
  fields = field "title" (str "deed") (field "sensitivity" (str "locked") end);
  provenance = "owner";
  source_ref = none;
  created_at = 10;
  updated_at = 10;
}

abbrev vault : Memory
vault = record {
  kept_rows = [];
  later_rows = [];
  records_rows = secret ∷ [];
  find_index = [];
  history = [];
}

locked_needs_step_up_example :
    (get ops "records" 4 false "owner" 20 vault ≡ (err locked_out, vault))
    × (delete ops "records" 4 "owner" false 20 vault ≡ (err locked_out, vault))
unfolding require_table actor_ok find_by is_locked get_field
locked_needs_step_up_example =
    locked_needs_step_up ops "records" "owner" 4 20 vault {table = records} {row = secret} refl refl
      refl refl

update_guarded_example :
    ((e : MemoryError) × (update ops "records" 4
          (field "title" (str "will") end)
          "owner"
          false
          20
          20
          vault
        ≡ (err e, vault)))
    ⊎ ((is_locked secret ≡ false)
        × ((clean : Fields) × (clean_fields ops records (field "title" (str "will") end) ≡ ok clean)
            × (changes_sensitivity clean secret.fields ≡ false)))
unfolding require_table find_by
update_guarded_example =
    update_guarded ops "records" "owner" 4 20 20 (field "title" (str "will") end) vault
      {table = records} {row = secret} refl refl

abbrev note : Fields
note = field "title" (str "soup") (field "body" (str "") (field "tags" null end))

add_whole_example :
    ((e : MemoryError) × (add ops "kept" note "owner" "owner" none 20 20 9 vault ≡ (err e, vault)))
    ⊎ ((row : Row) × (row.id ≡ 9)
        × (find_by row_id 9 (rows_of kept vault) ≡ none)
        × (add ops "kept" note "owner" "owner" none 20 20 9 vault
            ≡ (ok row, with_entries kept row "owner" 20 vault)))
unfolding require_table
add_whole_example = add_whole ops "kept" note "owner" "owner" none 20 20 9 vault {table = kept} refl
