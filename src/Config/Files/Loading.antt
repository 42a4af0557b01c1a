-- ===== src/Config/Files/Loading.antt =====
-- `reload` of worlds/config_store.py against a description of what each file stands for.
use personal_world.Prelude.{
  String, Bool, false, Option, none, some, List, [], ◌∷◌, ◌&&◌, any, ◌≡◌, ◌==◌, string_eq,
  if◌then◌else◌,
}
use personal_world.Config.Files.Objects.{
  Kind, kind_beq, Object, Objects, get_object, FileStore, StoreOps,
}
use personal_world.Config.Files.Reload.{File, Disk, load_file, take_file, take_files}
use personal_world.Config.Files.Reloaded.{KeepsKind}

abbrev pub is_file : Kind → String → File → Bool
is_file k name f = kind_beq f.kind k && (f.stem == name)

-- No two files have one kind and one stem.
abbrev pub Distinct : List File → Type 0
Distinct [] = Unit
Distinct (f ∷ files) = (any (is_file f.kind f.stem) files ≡ false) × Distinct files

-- The first of two, if it is there
abbrev pub or_else : Option Object → Option Object → Option Object
or_else (some x) o = some x
or_else none o = o

-- What stands for an id: its file's object, or the last valid one where that file is invalid.
abbrev pub expected : StoreOps → Disk → Objects → Kind → String → List File → Option Object
expected ops disk old k name [] = none
expected ops disk old k name (f ∷ files) =
    if is_file k name f
    then or_else (load_file ops disk f) (get_object k name old)
    else expected ops disk old k name files

module _ (ops : StoreOps) (disk : Disk) (keeps : KeepsKind disk) (before : FileStore) where
  abbrev Found : FileStore → File → List File → Kind → String → Type 0
  Found st f files c j =
      get_object c j st.objects ≡ none
      → get_object c j (take_files ops disk before (take_file ops disk before st f) files).objects
        ≡ or_else (load_file ops disk f) (get_object c j before.objects)
