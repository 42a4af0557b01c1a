-- ===== src/Config/Files/Versions.antt =====
-- Which action ids a change of the configuration reports.
use text.Mathlib.TextEquality.{eq_iff}
use personal_world.Prelude.{
  String, Bool, true, false, Option, none, some, List, [], ◌∷◌, ◌++◌, ◌&&◌, ◌||◌, not, ◌≡◌, ◌≢◌,
  ◌↔◌, inl, inr, refl, arith, sym, ap, ◌∙◌, string_eq, dict_get, is_some, map, elem, any,
  if◌then◌else◌, Option-cases,
}
use personal_world.Tx.{ok}
use personal_world.Config.Models.{Action}
use personal_world.Config.Store.{version_of}
use personal_world.Config.Files.Objects.{Objects, StoreOps, snapshot, FileStore, Object, Kind}
use personal_world.Config.Files.Changes.{
  current_versions, version_in, same_version, differing, dropped, changed_ids, save, Saved, commit,
  delete,
}
use personal_world.Config.Files.Cases.{save_cases, delete_cases}

-- `_versions` belongs to the objects.
abbrev pub IsCurrent : StoreOps → FileStore → Type 0
IsCurrent ops st = st.versions ≡ current_versions ops st.objects

abbrev pub version_under : StoreOps → Objects → String → Option String
version_under ops o name = version_of (snapshot ops o) name

same_version_iff : (a b : Option String) → (same_version a b ≡ true) ↔ (a ≡ b)
same_version_iff none none = (λ h. refl, λ h. refl)
same_version_iff none (some w) = (λ h. cc, λ h. cc)
same_version_iff (some v) none = (λ h. cc, λ h. cc)
same_version_iff (some v) (some w) = ground (arith, eq_iff v w)

-- Entries that a function of the key gives.
abbrev listed : {V : Type 0} → (String → V) → List (String × Action) → List (String × V)
listed f acts = map (λ p. (p.0, f p.0)) acts

get-listed :
    {V : Type 0} (f : String → V) (name : String) (acts : List (String × Action))
    → dict_get name (listed f acts) ≡ (if is_some (dict_get name acts) then some (f name) else none)
unfolding dict_get
get-listed f name [] = refl
get-listed f name ((k, a) ∷ acts) = ground (arith, get-listed f name acts, eq_iff k name)

elem-differing :
    (old : List (String × Option String)) (f : String → Option String) (name : String)
    (acts : List (String × Action))
    → elem name (differing old (listed f acts)) ≡ (
        is_some (dict_get name acts)
        && not (same_version (version_in (dict_get name old)) (f name)))
unfolding differing dict_get elem any
elem-differing old f name [] = refl
elem-differing old f name ((k, a) ∷ acts) =
    ground (arith, elem-differing old f name acts, eq_iff k name)

elem-dropped :
    (current : List (String × Option String)) (f : String → Option String) (name : String)
    (acts : List (String × Action))
    → elem name (dropped current (listed f acts))
      ≡ (is_some (dict_get name acts) && not (is_some (dict_get name current)) && is_some (f name))
unfolding dropped dict_get elem any
elem-dropped current f name [] = refl
elem-dropped current f name ((k, a) ∷ acts) =
    ground (arith, elem-dropped current f name acts, eq_iff k name)

elem-append :
    (name : String) (xs ys : List String) → elem name (xs ++ ys) ≡ (elem name xs || elem name ys)
unfolding elem any
elem-append name [] ys = refl
elem-append name (x ∷ xs) ys = ground (arith, elem-append name xs ys)

version_of_unknown :
    (ops : StoreOps) (o : Objects) (name : String)
    → is_some (dict_get name o.all_actions) ≡ false
    → version_under ops o name ≡ none
unfolding version_of
version_of_unknown ops o name h = elim (Option-cases (dict_get name o.all_actions)) [
  | inl e ↦ rw e refl
  | inr (a, e) ↦ absurd (ground (arith, h, e))
]

same_version-none : (b : Option String) → same_version none b ≡ not (is_some b)
same_version-none none = refl
same_version-none (some v) = refl

-- The ids between two tables of versions are those whose version differs.
changed_test :
    (ops : StoreOps) (before after : Objects) (name : String)
    → elem name (changed_ids (current_versions ops before) (current_versions ops after))
      ≡ not (same_version (version_under ops before name) (version_under ops after name))
unfolding changed_ids current_versions
changed_test ops before after name =
    by_known (is_some (dict_get name before.all_actions)) refl
      (is_some (dict_get name after.all_actions)) refl
  where
    by_known :
        (a : Bool)
        → is_some (dict_get name before.all_actions) ≡ a
        → (b : Bool) → is_some (dict_get name after.all_actions) ≡ b
        → elem name (
            differing
              (listed (version_under ops before) before.all_actions)
              (listed (version_under ops after) after.all_actions)
            ++ dropped
                (listed (version_under ops after) after.all_actions)
                (listed (version_under ops before) before.all_actions))
          ≡ not (same_version (version_under ops before name) (version_under ops after name))
    by_known a p b q =
        elem-append name
          (differing (listed (version_under ops before) before.all_actions)
            (listed (version_under ops after) after.all_actions))
          (dropped (listed (version_under ops after) after.all_actions)
            (listed (version_under ops before) before.all_actions))
        ∙ ground (
          arith,
          elem-differing (listed (version_under ops before) before.all_actions)
              (version_under ops after) name after.all_actions,
          elem-dropped (listed (version_under ops after) after.all_actions)
              (version_under ops before) name before.all_actions,
          get-listed (version_under ops before) name before.all_actions,
          get-listed (version_under ops after) name after.all_actions,
          version_of_unknown ops before name,
          version_of_unknown ops after name,
          same_version-none (version_under ops after name),
          p,
          q,
        )

iff_of_test : (b : Bool) (u v : Option String) → b ≡ not (same_version u v) → (b ≡ true) ↔ (u ≢ v)
iff_of_test b u v h = (
  λ e p. absurd (ground (arith, h, e, (same_version_iff u v).1 p)),
  λ n. by_test (same_version u v) refl n,
)
  where
    by_test : (c : Bool) → same_version u v ≡ c → u ≢ v → b ≡ true
    by_test true e n = absurd (n ((same_version_iff u v).0 e))
    by_test false e n = ground (arith, h, e)

-- What `_refresh_versions` keeps and returns.
pub commit_reports :
    (ops : StoreOps) (st after : FileStore) (s : Saved) (name : String)
    → IsCurrent ops st
    → s.changed ≡ changed_ids st.versions (current_versions ops after.objects)
    → (elem name s.changed ≡ true)
      ↔ (version_under ops st.objects name ≢ version_under ops after.objects name)
commit_reports ops st after s name c h =
    iff_of_test (elem name s.changed) (version_under ops st.objects name)
      (version_under ops after.objects name)
      (ap (elem name) (h ∙ ap (λ v. changed_ids v (current_versions ops after.objects)) c)
        ∙ changed_test ops st.objects after.objects name)

-- An accepted `save` tells the listeners exactly the actions whose version it changes, and the table of
-- versions fits the objects again.
pub save_reports :
    (ops : StoreOps) (x : Object) (etag : Option String) (st : FileStore) (name : String)
    {s : Saved}
    → IsCurrent ops st
    → (save ops x etag st).0 ≡ ok s
    → IsCurrent ops (save ops x etag st).1
      × ((elem name s.changed ≡ true) ↔ (
          version_under ops st.objects name
          ≢ version_under ops (save ops x etag st).1.objects name))
unfolding commit
save_reports ops x etag st name {s} c h = elim (save_cases ops x etag st) [
  | inl (e, r) ↦ absurd (cc (h, ap (λ p. p.0) r))
  | inr (w, a) ↦ (
    ap (λ p. p.1.versions) a.becomes ∙ ap (λ p. current_versions ops p.1.objects) (sym a.becomes),
    commit_reports ops st (save ops x etag st).1 s name c (ground (arith, h, a.becomes)),
  )
]

-- The same of `delete`, under which the versions of the actions that used the object go.
pub delete_reports :
    (ops : StoreOps) (k : Kind) (id : String) (etag : Option String) (st : FileStore)
    (name : String) {s : Saved}
    → IsCurrent ops st
    → (delete ops k id etag st).0 ≡ ok s
    → IsCurrent ops (delete ops k id etag st).1
      × ((elem name s.changed ≡ true) ↔ (
          version_under ops st.objects name
          ≢ version_under ops (delete ops k id etag st).1.objects name))
unfolding commit
delete_reports ops k id etag st name {s} c h = elim (delete_cases ops k id etag st) [
  | inl (e, r) ↦ absurd (cc (h, ap (λ p. p.0) r))
  | inr (checked, r) ↦ (
    ap (λ p. p.1.versions) r ∙ ap (λ p. current_versions ops p.1.objects) (sym r),
    commit_reports ops st (delete ops k id etag st).1 s name c (ground (arith, h, r)),
  )
]
