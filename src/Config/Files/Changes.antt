-- ===== src/Config/Files/Changes.antt =====
-- `save`, `delete` and `_refresh_versions` of worlds/config_store.py. The listeners are told the ids
-- that a call answers with; the file on disk is written before the state changes.
use text.Mathlib.TextEquality.{eq_iff}
use personal_world.Prelude.{
  String, Bool, true, false, Option, none, some, List, [], ◌∷◌, ◌&&◌, ◌||◌, ◌++◌, not, any, Eq, ◌≡◌,
  ◌↔◌, arith, ◌==◌, string_eq, dict_get, dict_put, dict_del, is_some, map, if◌then◌else◌,
}
use personal_world.Tx.{Result, ok, err, Op, ◌>>=◌, ◌>>◌, guard, lift}
use personal_world.Table.{delete_where}
use personal_world.Config.Models.{Action}
use personal_world.Config.Store.{version_of}
use personal_world.Config.Files.Objects.{
  Kind, kind_beq, Object, kind_of, id_of, Objects, get_object, put_object, del_object, BadFile,
  FileStore, StoreOps, snapshot,
}
use personal_world.Config.Files.References.{check_references, not_referenced}

-- `ConfigInvalid` and `EtagMismatch`
pub data StoreError : Type 0 where
  config_invalid etag_mismatch : StoreError

pub kind_beq_iff : (a b : Kind) → (kind_beq a b ≡ true) ↔ (a ≡ b)
kind_beq_iff a b = ground arith

abbrev pub key_beq : Kind × String → Kind × String → Bool
key_beq a b = kind_beq a.0 b.0 && (a.1 == b.1)

pub key_beq_iff : (a b : Kind × String) → (key_beq a b ≡ true) ↔ (a ≡ b)
key_beq_iff a b = ground (arith, kind_beq_iff a.0 b.0, eq_iff a.1 b.1)

-- The key of `_etags`
instance abbrev pub key_eq : Eq (Kind × String)
key_eq = record { beq = key_beq; beq_iff = key_beq_iff }

abbrev pub entry_version : StoreOps → Objects → String × Action → String × Option String
entry_version ops o p = (p.0, version_of (snapshot ops o) p.0)

-- `{action_id: self._version_of(action_id) for action_id in ...}`
unfoldable pub current_versions : StoreOps → Objects → List (String × Option String)
current_versions ops o = map (entry_version ops o) o.all_actions

-- `versions.get(aid)`
abbrev pub version_in : Option (Option String) → Option String
version_in none = none
version_in (some v) = v

abbrev pub same_version : Option String → Option String → Bool
same_version none none = true
same_version none (some w) = false
same_version (some v) none = false
same_version (some v) (some w) = v == w

unfoldable pub differing :
    List (String × Option String) → List (String × Option String) → List String
unfolding dict_get
differing old [] = []
differing old ((k, v) ∷ current) =
    let rest = differing old current in
    if same_version (version_in (dict_get k old)) v then rest else k ∷ rest

unfoldable pub dropped : List (String × Option String) → List (String × Option String) → List String
unfolding dict_get
dropped current [] = []
dropped current ((k, v) ∷ old) =
    let rest = dropped current old in
    if is_some (dict_get k current) || not (is_some v) then rest else k ∷ rest

-- The set that `_refresh_versions` returns, from the old versions and the new ones
unfoldable pub changed_ids :
    List (String × Option String) → List (String × Option String) → List String
unfolding differing dropped
changed_ids old current = differing old current ++ dropped current old

abbrev pub is_entry : Kind → String → BadFile → Bool
is_entry k name b = kind_beq b.kind k && (b.name == name)

pub record Saved : Type 0 where
  pub etag : Option String
  pub changed : List String

-- The new objects and etags, and `_refresh_versions`
unfoldable pub commit :
    StoreOps
    → Kind
    → String
    → Objects
    → List ((Kind × String) × String)
    → Option String
    → Op FileStore StoreError Saved
unfolding changed_ids current_versions
commit ops k name objects etags etag st = (
  ok (record { etag = etag; changed = changed_ids st.versions (current_versions ops objects) }),
  record {
    objects = objects;
    etags = etags;
    errors = delete_where (is_entry k name) st.errors;
    versions = current_versions ops objects;
  },
)

-- The etag test of `save`: "" asks for a new object, `none` for no test
abbrev pub etag_fits : Option String → Option String → Bool
etag_fits none current = true
etag_fits (some e) none = e == ""
etag_fits (some e) (some c) = not (e == "") && (c == e)

abbrev pub written_or : Option String → Result StoreError String
written_or none = err config_invalid
written_or (some e) = ok e

-- `save`; the validated copy is the object itself, and a write that fails, an OSError too, is
-- ConfigInvalid.
unfoldable pub save : StoreOps → Object → Option String → Op FileStore StoreError Saved
unfolding commit
save ops x etag st =
    (do
      guard (ops.is_id (kind_of x) (id_of x)) config_invalid
      guard (ops.valid x) config_invalid
      guard (check_references st.objects x) config_invalid
      guard (etag_fits etag (dict_get (kind_of x, id_of x) st.etags)) etag_mismatch
      new_etag ← lift (written_or (ops.written x))
      commit ops (kind_of x) (id_of x) (put_object x st.objects)
          (dict_put (kind_of x, id_of x) new_etag st.etags) (some new_etag))
      st

-- The etag test of `delete`, at an object that is loaded
abbrev pub current_etag : Option String → Option String → Bool
current_etag none current = true
current_etag (some e) none = false
current_etag (some e) (some c) = e == c

-- `not etag or etag != current`, negated
abbrev pub exact_etag : Option String → Option String → Bool
exact_etag none current = false
exact_etag (some e) none = false
exact_etag (some e) (some c) = not (e == "") && (e == c)

-- The tests of `delete`
unfoldable pub check_delete :
    FileStore → Kind → String → Option String → Result StoreError (Unit {0})
unfolding any dict_get
check_delete st k name etag =
    let current = dict_get (k, name) st.etags in
    if is_some (get_object k name st.objects)
    then (if not (current_etag etag current)
        then err etag_mismatch
        else if not_referenced st.objects k name
        then ok tt
        else err config_invalid)
    else if any (is_entry k name) st.errors
    then (if exact_etag etag current then ok tt else err etag_mismatch)
    else err config_invalid

-- `delete`
unfoldable pub delete : StoreOps → Kind → String → Option String → Op FileStore StoreError Saved
unfolding check_delete commit
delete ops k name etag st =
    (do
      guard (ops.is_id k name) config_invalid
      lift (check_delete st k name etag)
      commit ops k name (del_object k name st.objects) (dict_del (k, name) st.etags) none)
      st
