-- ===== src/Config/Files/Preserved.antt =====
-- `save` and `delete` keep the references between the loaded objects.
use personal_world.Prelude.{
  String, false, Option, List, [], ◌∷◌, ◌≡◌, inl, inr, refl, arith, sym, ap, subst, ◌==◌, string_eq,
  dict_get, dict_del, is_some, Bool-cases,
}
use personal_world.Tx.{Result}
use personal_world.Config.Files.Objects.{
  Kind, providers, requests, cards, boards, actions, Object, Objects, get_object, del_object,
  FileStore, StoreOps,
}
use personal_world.Config.Files.Changes.{Saved, save, delete, commit, StoreError}
use personal_world.Config.Files.Cases.{save_cases, delete_cases, check_delete-not_referenced}
use personal_world.Config.Files.Closed.{IsClosed, put-IsClosed, del-IsClosed}

del_absent :
    {V : Type 0} (k : String) (d : List (String × V))
    → is_some (dict_get k d) ≡ false
    → dict_del k d ≡ d
unfolding dict_get dict_del
del_absent k [] h = refl
del_absent k ((j, w) ∷ d) h = elim (Bool-cases (j == k)) [
  | inl e ↦ absurd (ground (arith, e))
  | inr e ↦ rw e (ap (λ r. (j, w) ∷ r) (del_absent k d (ground (arith, e))))
]

del_object_absent :
    (k : Kind) (name : String) (o : Objects)
    → is_some (get_object k name o) ≡ false
    → del_object k name o ≡ o
unfolding del_object get_object
del_object_absent providers name o h =
    ap (λ d. record o { all_providers = d }) (del_absent name o.all_providers (ground (arith, h)))
del_object_absent requests name o h =
    ap (λ d. record o { all_requests = d }) (del_absent name o.all_requests (ground (arith, h)))
del_object_absent cards name o h =
    ap (λ d. record o { all_cards = d }) (del_absent name o.all_cards (ground (arith, h)))
del_object_absent boards name o h =
    ap (λ d. record o { all_boards = d }) (del_absent name o.all_boards (ground (arith, h)))
del_object_absent actions name o h =
    ap (λ d. record o { all_actions = d }) (del_absent name o.all_actions (ground (arith, h)))

-- Whether it is accepted or refused, a `save` or a `delete` leaves no reference that leads nowhere and
-- no action that its request's effect forbids, if there was none before.
pub changes-IsClosed :
    (ops : StoreOps) (x : Object) (k : Kind) (name : String) (etag : Option String) (st : FileStore)
    → IsClosed st.objects
    → IsClosed (save ops x etag st).1.objects × IsClosed (delete ops k name etag st).1.objects
unfolding commit
changes-IsClosed ops x k name etag st c = (saved, deleted)
  where
    saved : IsClosed (save ops x etag st).1.objects
    saved = elim (save_cases ops x etag st) [
      | inl (e, r) ↦
          subst (λ (p : Result StoreError Saved × FileStore). IsClosed p.1.objects) (sym r) c
      | inr (w, a) ↦
          subst (λ (p : Result StoreError Saved × FileStore). IsClosed p.1.objects) (sym a.becomes)
            (put-IsClosed x st.objects a.refers c)
    ]

    deleted : IsClosed (delete ops k name etag st).1.objects
    deleted = elim (delete_cases ops k name etag st) [
      | inl (e, r) ↦
          subst (λ (p : Result StoreError Saved × FileStore). IsClosed p.1.objects) (sym r) c
      | inr (checked, r) ↦
          subst (λ (p : Result StoreError Saved × FileStore). IsClosed p.1.objects) (sym r)
            (elim (Bool-cases (is_some (get_object k name st.objects))) [
              | inl l ↦
                  del-IsClosed k name st.objects
                    (check_delete-not_referenced st k name etag checked l).0 c
              | inr l ↦ subst IsClosed (sym (del_object_absent k name st.objects l)) c
            ])
    ]
