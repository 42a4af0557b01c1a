-- ===== src/Config/Files/Reloaded.antt =====
-- What `reload` reads back, and what it tells the listeners.
use text.Mathlib.TextEquality.{eq_iff}
use personal_world.Prelude.{
  some_inj, ℕ, String, Bool, true, false, Option, none, some, List, ◌&&◌, not, ◌≡◌, inl, inr, refl,
  arith, sym, ap, subst, ◌∙◌, ◌==◌, string_eq, dict_get, get-put, Bool-cases, if◌then◌else◌,
}
use personal_world.Value.{Value, obj, null, bool, num, str, arr}
use personal_world.Config.Files.Objects.{
  Kind, providers, requests, cards, boards, actions, kind_beq, Object, kind_of, id_of, Objects,
  get_object, wrap, StoreOps,
}
use personal_world.Config.Files.Reload.{
  File, Disk, put_at, well_placed, of_object, of_document, of_bytes, load_file,
}

wrap_if :
    {A : Type 0} (w : A → Object) (b : Bool) (v : A) (d : Option A)
    → wrap w (if b then some v else d) ≡ (if b then some (w v) else wrap w d)
wrap_if w true v d = refl
wrap_if w false v d = refl

pub get-put_at :
    (k : Kind) (name j : String) (x : Object) (o : Objects)
    → get_object k name (put_at j x o)
      ≡ (if kind_beq (kind_of x) k && (j == name) then some x else get_object k name o)
unfolding get_object put_at
get-put_at providers name j (Object.provider p) o =
    ap (wrap Object.provider) (get-put j name p o.all_providers)
    ∙ wrap_if Object.provider (j == name) p (dict_get name o.all_providers)
get-put_at providers name j (Object.request r) o = refl
get-put_at providers name j (Object.card c) o = refl
get-put_at providers name j (Object.board b) o = refl
get-put_at providers name j (Object.action a) o = refl
get-put_at requests name j (Object.provider p) o = refl
get-put_at requests name j (Object.request r) o =
    ap (wrap Object.request) (get-put j name r o.all_requests)
    ∙ wrap_if Object.request (j == name) r (dict_get name o.all_requests)
get-put_at requests name j (Object.card c) o = refl
get-put_at requests name j (Object.board b) o = refl
get-put_at requests name j (Object.action a) o = refl
get-put_at cards name j (Object.provider p) o = refl
get-put_at cards name j (Object.request r) o = refl
get-put_at cards name j (Object.card c) o =
    ap (wrap Object.card) (get-put j name c o.all_cards)
    ∙ wrap_if Object.card (j == name) c (dict_get name o.all_cards)
get-put_at cards name j (Object.board b) o = refl
get-put_at cards name j (Object.action a) o = refl
get-put_at boards name j (Object.provider p) o = refl
get-put_at boards name j (Object.request r) o = refl
get-put_at boards name j (Object.card c) o = refl
get-put_at boards name j (Object.board b) o =
    ap (wrap Object.board) (get-put j name b o.all_boards)
    ∙ wrap_if Object.board (j == name) b (dict_get name o.all_boards)
get-put_at boards name j (Object.action a) o = refl
get-put_at actions name j (Object.provider p) o = refl
get-put_at actions name j (Object.request r) o = refl
get-put_at actions name j (Object.card c) o = refl
get-put_at actions name j (Object.board b) o = refl
get-put_at actions name j (Object.action a) o =
    ap (wrap Object.action) (get-put j name a o.all_actions)
    ∙ wrap_if Object.action (j == name) a (dict_get name o.all_actions)

wrap_kind :
    {A : Type 0} (w : A → Object) (k : Kind) (d : Option A) {x : Object}
    → ((v : A) → kind_of (w v) ≡ k)
    → wrap w d ≡ some x
    → kind_of x ≡ k
wrap_kind w k none all h = absurd (ground (arith, h))
wrap_kind w k (some v) all h = subst (λ y. kind_of y ≡ k) (some_inj h) (all v)

pub kind-get_object :
    (k : Kind) (name : String) (o : Objects) {x : Object}
    → get_object k name o ≡ some x
    → kind_of x ≡ k
unfolding get_object
kind-get_object providers name o h =
    wrap_kind Object.provider providers (dict_get name o.all_providers) (λ v. refl) h
kind-get_object requests name o h =
    wrap_kind Object.request requests (dict_get name o.all_requests) (λ v. refl) h
kind-get_object cards name o h =
    wrap_kind Object.card cards (dict_get name o.all_cards) (λ v. refl) h
kind-get_object boards name o h =
    wrap_kind Object.board boards (dict_get name o.all_boards) (λ v. refl) h
kind-get_object actions name o h =
    wrap_kind Object.action actions (dict_get name o.all_actions) (λ v. refl) h

-- `model_validate` of a kind's model gives an object of that kind.
abbrev pub KeepsKind : Disk → Type 0
KeepsKind disk = (k : Kind) (v : Value) (x : Object) → disk.validate k v ≡ some x → kind_of x ≡ k

-- A loaded file holds an object of its kind under its stem.
module _ (ops : StoreOps) (disk : Disk) (keeps : KeepsKind disk) where
  of_object_fits :
      (f : File) (o : Option Object) {x : Object}
      → ((y : Object) → o ≡ some y → kind_of y ≡ f.kind)
      → of_object f o ≡ some x
      → (kind_of x ≡ f.kind) × (id_of x ≡ f.stem)
  of_object_fits f none k h = absurd (ground (arith, h))
  of_object_fits f (some y) {x} k h =
      (subst (λ z. kind_of z ≡ f.kind) same (k y refl), subst (λ z. id_of z ≡ f.stem) same named)
    where
      passes : (not (id_of y == f.stem) ≡ false) × (well_placed f.folder y ≡ true)
      passes = (ground (arith, h), ground (arith, h))

      named : id_of y ≡ f.stem
      named = (eq_iff (id_of y) f.stem).0 (ground (arith, passes.0))

      same : y ≡ x
      same = some_inj (sym (rw (passes.0, passes.1) refl) ∙ h)

  of_document_fits :
      (f : File) (v : Option Value) {x : Object}
      → of_document disk f v ≡ some x
      → (kind_of x ≡ f.kind) × (id_of x ≡ f.stem)
  of_document_fits f none h = absurd (ground (arith, h))
  of_document_fits f (some (obj fields)) h =
      of_object_fits f (disk.validate f.kind (obj fields)) (λ y e. keeps f.kind (obj fields) y e) h
  of_document_fits f (some null) h = absurd (ground (arith, h))
  of_document_fits f (some (bool b)) h = absurd (ground (arith, h))
  of_document_fits f (some (num n)) h = absurd (ground (arith, h))
  of_document_fits f (some (str t)) h = absurd (ground (arith, h))
  of_document_fits f (some (arr vs)) h = absurd (ground (arith, h))

  of_bytes_fits :
      (f : File) (b : Option (List ℕ)) {x : Object}
      → of_bytes disk f b ≡ some x
      → (kind_of x ≡ f.kind) × (id_of x ≡ f.stem)
  of_bytes_fits f none h = absurd (ground (arith, h))
  of_bytes_fits f (some raw) h = of_document_fits f (disk.parse raw) h

  pub load_file_fits :
      (f : File) {x : Object}
      → load_file ops disk f ≡ some x
      → (kind_of x ≡ f.kind) × (id_of x ≡ f.stem)
  unfolding load_file
  load_file_fits f h = elim (Bool-cases (ops.is_id f.kind f.stem)) [
    | inl i ↦ of_bytes_fits f f.bytes (sym (rw i refl) ∙ h)
    | inr i ↦ absurd (ground (arith, h, i))
  ]
