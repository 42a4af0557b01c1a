-- ===== src/Config/Files/Reload.antt =====
-- `_load_file` and `reload` of worlds/config_store.py; the texts of the messages are left out.
use personal_world.Prelude.{
  ℕ, String, Bool, true, Option, none, some, List, [], ◌∷◌, ◌++◌, not, ◌==◌, string_eq, dict_put,
  if◌then◌else◌,
}
use personal_world.Value.{Value, obj}
use personal_world.Config.Files.Objects.{
  Kind, Object, id_of, Objects, get_object, BadFile, FileStore, StoreOps,
}
use personal_world.Config.Files.Changes.{key_eq, current_versions, changed_ids}

-- A file under the directory of its kind: its stem, its parent's name and its bytes, if it can be read
pub record File : Type 0 where
  pub kind : Kind
  pub stem : String
  pub folder : String
  pub bytes : Option (List ℕ)

-- yaml and utf-8 (none on an error), `model_validate` of a kind, and sha256
pub record Disk : Type 0 where
  pub parse : List ℕ → Option Value
  pub validate : Kind → Value → Option Object
  pub sha256 : List ℕ → String

-- `objects[kind][name] = x`
unfoldable pub put_at : String → Object → Objects → Objects
put_at name (Object.provider p) o = record o { all_providers = dict_put name p o.all_providers }
put_at name (Object.request r) o = record o { all_requests = dict_put name r o.all_requests }
put_at name (Object.card c) o = record o { all_cards = dict_put name c o.all_cards }
put_at name (Object.board b) o = record o { all_boards = dict_put name b o.all_boards }
put_at name (Object.action a) o = record o { all_actions = dict_put name a o.all_actions }

-- `kind == "request" and path.parent.name != obj.provider`, negated
abbrev pub well_placed : String → Object → Bool
well_placed folder (Object.request r) = folder == r.provider
well_placed folder x = true

abbrev pub of_object : File → Option Object → Option Object
of_object f none = none
of_object f (some x) =
    if not (id_of x == f.stem) then none else if well_placed f.folder x then some x else none

-- The top level must be a mapping.
abbrev pub of_document : Disk → File → Option Value → Option Object
of_document disk f (some (obj fields)) = of_object f (disk.validate f.kind (obj fields))
of_document disk f v = none

abbrev pub of_bytes : Disk → File → Option (List ℕ) → Option Object
of_bytes disk f none = none
of_bytes disk f (some raw) = of_document disk f (disk.parse raw)

-- The object that `_load_file` gives
unfoldable pub load_file : StoreOps → Disk → File → Option Object
load_file ops disk f = if ops.is_id f.kind f.stem then of_bytes disk f f.bytes else none

-- `_file_etag`, and the etag of a file that loads
abbrev pub file_etag : Disk → Option (List ℕ) → Option String
file_etag disk none = none
file_etag disk (some raw) = some (disk.sha256 raw)

abbrev pub put_etag :
    File → Option String → List ((Kind × String) × String) → List ((Kind × String) × String)
put_etag f none etags = etags
put_etag f (some e) etags = dict_put (f.kind, f.stem) e etags

abbrev pub put_previous : String → Option Object → Objects → Objects
put_previous stem none o = o
put_previous stem (some x) o = put_at stem x o

-- The objects after one file: an invalid file keeps the last valid object active.
abbrev pub take_object : FileStore → File → Option Object → Objects → Objects
take_object before f none o = put_previous f.stem (get_object f.kind f.stem before.objects) o
take_object before f (some x) o = put_at (id_of x) x o

abbrev pub take_error : File → Option Object → List BadFile → List BadFile
take_error f none errors = errors ++ (record { kind = f.kind; name = f.stem } ∷ [])
take_error f (some x) errors = errors

-- One round of the loop
unfoldable pub take_file : StoreOps → Disk → FileStore → FileStore → File → FileStore
unfolding load_file get_object put_at
take_file ops disk before st f =
    let loaded = load_file ops disk f in
    record st {
      objects = take_object before f loaded st.objects;
      etags = put_etag f (file_etag disk f.bytes) st.etags;
      errors = take_error f loaded st.errors;
    }

unfoldable pub take_files : StoreOps → Disk → FileStore → FileStore → List File → FileStore
unfolding take_file
take_files ops disk before st [] = st
take_files ops disk before st (f ∷ files) =
    take_files ops disk before (take_file ops disk before st f) files

abbrev pub nothing : Objects
nothing = record {
  all_providers = [];
  all_requests = [];
  all_cards = [];
  all_boards = [];
  all_actions = [];
}

abbrev pub refreshed : StoreOps → FileStore → List String × FileStore
refreshed ops st = (
  changed_ids st.versions (current_versions ops st.objects),
  record st { versions = current_versions ops st.objects },
)

-- `reload`, with the ids that the listeners are told; the files come in the order of the two loops.
unfoldable pub reload : StoreOps → Disk → List File → FileStore → List String × FileStore
unfolding take_files
reload ops disk files st = refreshed ops (
    take_files ops disk st
      (record { objects = nothing; etags = []; errors = []; versions = st.versions }) files)
