-- ===== src/Value.antt =====
-- The JSON documents that the worlds modules read (`Any` in their signatures): what `json.loads`
-- returns. A number, int or float, is an integer count of one fixed small unit.
use personal_world.Prelude.{
  String, Bool, true, false, Option, none, some, not, ◌==◌, string_eq, if◌then◌else◌,
}
use personal_world.Prelude.Int.{ℤ, pos, int_beq}

mutual
  pub data Value : Type 0 where
    null : Value
    bool : Bool → Value
    num : ℤ → Value
    str : String → Value
    arr : Items → Value
    obj : Fields → Value

  pub data Fields : Type 0 where
    end : Fields
    field : String → Value → Fields → Fields

  pub data Items : Type 0 where
    nil : Items
    cons : Value → Items → Items

-- `name in doc` and `doc.get(name)`, at a dict
unfoldable pub get_field : String → Fields → Option Value
get_field name end = none
get_field name (field key v rest) = if key == name then some v else get_field name rest

-- `v in (None, [], {}, "", False)`: in Python 0 and 0.0 equal `False`
unfoldable pub nothing_there : Value → Bool
nothing_there null = true
nothing_there (bool b) = not b
nothing_there (num n) = int_beq n (pos 0)
nothing_there (str s) = s == ""
nothing_there (arr nil) = true
nothing_there (arr (cons v vs)) = false
nothing_there (obj end) = true
nothing_there (obj (field k v rest)) = false
