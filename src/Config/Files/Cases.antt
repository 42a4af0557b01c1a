-- ===== src/Config/Files/Cases.antt =====
-- How `save` and `delete` can end.
use personal_world.Prelude.{
  String, true, Option, none, some, ◌≡◌, ◌⊎◌, inl, inr, refl, arith, Bool-cases, Option-cases,
  dict_get, dict_put, dict_del, is_some,
}
use personal_world.Tx.{Result, ok, err}
use personal_world.Config.Files.Objects.{
  Kind, Object, kind_of, id_of, get_object, put_object, del_object, FileStore, StoreOps,
}
use personal_world.Config.Files.References.{check_references, not_referenced}
use personal_world.Config.Files.Changes.{
  StoreError, config_invalid, etag_mismatch, key_eq, save, delete, commit, check_delete, etag_fits,
  current_etag,
}

-- The parts of an accepted `save`.
pub record SaveAccepted (ops : StoreOps) (x : Object) (etag : Option String) (st : FileStore)
    (new_etag : String) : Type 0 where
  pub valid : ops.valid x ≡ true
  pub refers : check_references st.objects x ≡ true
  pub fitting : etag_fits etag (dict_get (kind_of x, id_of x) st.etags) ≡ true
  pub written : ops.written x ≡ some new_etag
  pub becomes :
      save ops x etag st
      ≡ commit ops
          (kind_of x)
          (id_of x)
          (put_object x st.objects)
          (dict_put (kind_of x, id_of x) new_etag st.etags)
          (some new_etag)
          st

pub save_cases :
    (ops : StoreOps) (x : Object) (etag : Option String) (st : FileStore)
    → ((e : StoreError) × (save ops x etag st ≡ (err e, st)))
      ⊎ ((new_etag : String) × SaveAccepted ops x etag st new_etag)
unfolding save
save_cases ops x etag st = elim (Bool-cases (ops.is_id (kind_of x) (id_of x))) [
  | inr a ↦ inl (config_invalid, ground (arith, a))
  | inl a ↦ elim (Bool-cases (ops.valid x)) [
    | inr b ↦ inl (config_invalid, ground (arith, a, b))
    | inl b ↦ elim (Bool-cases (check_references st.objects x)) [
      | inr c ↦ inl (config_invalid, ground (arith, a, b, c))
      | inl c ↦ elim (Bool-cases (etag_fits etag (dict_get (kind_of x, id_of x) st.etags))) [
        | inr d ↦ inl (etag_mismatch, rw (a, b, c, d) refl)
        | inl d ↦ elim (Option-cases (ops.written x)) [
          | inl e ↦ inl (config_invalid, rw (a, b, c, d, e) refl)
          | inr (w, e) ↦ inr (
            w,
            record {
              valid = b;
              refers = c;
              fitting = d;
              written = e;
              becomes = rw (a, b, c, d, e) refl;
            },
          )
        ]
      ]
    ]
  ]
]

pub delete_cases :
    (ops : StoreOps) (k : Kind) (name : String) (etag : Option String) (st : FileStore)
    → ((e : StoreError) × (delete ops k name etag st ≡ (err e, st)))
      ⊎ ((check_delete st k name etag ≡ ok tt)
          × (delete ops k name etag st
              ≡ commit ops k name
                  (del_object k name st.objects)
                  (dict_del (k, name) st.etags)
                  none
                  st))
unfolding delete
delete_cases ops k name etag st = elim (Bool-cases (ops.is_id k name)) [
  | inr a ↦ inl (config_invalid, rw a refl)
  | inl a ↦ by_check (check_delete st k name etag) refl a
]
  where
    by_check :
        (r : Result StoreError (Unit {0}))
        → check_delete st k name etag ≡ r
        → ops.is_id k name ≡ true
        → ((e : StoreError) × (delete ops k name etag st ≡ (err e, st)))
          ⊎ ((check_delete st k name etag ≡ ok tt)
              × (delete ops k name etag st
                  ≡ commit ops k name
                      (del_object k name st.objects)
                      (dict_del (k, name) st.etags)
                      none
                      st))
    by_check (err x) e a = inl (x, rw (a, e) refl)
    by_check (ok tt) e a = inr (e, rw (a, e) refl)

-- An accepted `delete` of a loaded object found it unreferenced.
pub check_delete-not_referenced :
    (st : FileStore) (k : Kind) (name : String) (etag : Option String)
    → check_delete st k name etag ≡ ok tt
    → is_some (get_object k name st.objects) ≡ true
    → (not_referenced st.objects k name ≡ true)
      × (current_etag etag (dict_get (k, name) st.etags) ≡ true)
unfolding check_delete
check_delete-not_referenced st k name etag h l = ground (arith, h, l)
