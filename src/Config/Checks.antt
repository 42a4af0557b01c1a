-- ===== src/Config/Checks.antt =====
-- The validators of worlds/models.py on field paths: `_check_path` and `Assertion._check`.
use personal_world.Prelude.{
  String, Bool, true, false, Option, none, some, ◌&&◌, ◌||◌, codes, is_some, ◌≡◌, ◌≢◌, arith,
}
use personal_world.Tx.{Result, ok, err}
use personal_world.Config.Models.{Assertion}
use personal_world.Mapping.Path.{PathError, value_error, Digits, parse_path}

abbrev is_ok : {A : Type 0} → Result PathError A → Bool
is_ok (ok a) = true
is_ok (err e) = false

-- `_check_path`: a `ValueError` of any kind refuses the object.
unfoldable pub check_path_field : Digits → Option String → Bool
unfolding parse_path
check_path_field d none = true
check_path_field d (some path) = is_ok (parse_path d (codes path))

-- `Assertion._check`
unfoldable pub valid_assertion : Digits → Assertion → Bool
unfolding check_path_field
valid_assertion d a = (is_some a.status || is_some a.path) && check_path_field d a.path

refused_path : {A : Type 0} (x : Result PathError A) → is_ok x ≡ true → x ≢ err value_error
refused_path (ok a) h e = absurd (ground (arith, e))
refused_path (err e) h q = absurd (ground (arith, h))

-- The path of a valid assertion parses.
pub valid-reads :
    (d : Digits) (a : Assertion)
    → valid_assertion d a ≡ true
    → (path : String) → a.path ≡ some path
    → parse_path d (codes path) ≢ err value_error
unfolding valid_assertion check_path_field
valid-reads d a h path e = refused_path (parse_path d (codes path)) (ground (arith, h, e))
