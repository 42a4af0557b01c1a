-- ===== src/Config/Files/Etags.antt =====
-- Optimistic concurrency: `save` and `delete` under an etag.
use text.Mathlib.TextEquality.{eq_iff}
use personal_world.Prelude.{
  String, true, Option, none, some, List, ◌≡◌, ◌⊎◌, inl, inr, refl, arith, ap, sym, ◌∙◌, string_eq,
  dict_get, dict_put, get-put, if◌then◌else◌,
}
use personal_world.Tx.{ok}
use personal_world.Config.Files.Objects.{
  Kind, Object, kind_of, id_of, Objects, get_object, put_object, FileStore, StoreOps,
}
use personal_world.Config.Files.Changes.{key_eq, key_beq_iff, Saved, save, commit, etag_fits}
use personal_world.Config.Files.Cases.{SaveAccepted, save_cases}

get-put_object :
    (x : Object) (o : Objects) → get_object (kind_of x) (id_of x) (put_object x o) ≡ some x
unfolding get_object put_object
get-put_object (Object.provider p) o =
    ground (arith, get-put p.id p.id p o.all_providers, eq_iff p.id p.id)
get-put_object (Object.request r) o =
    ground (arith, get-put r.id r.id r o.all_requests, eq_iff r.id r.id)
get-put_object (Object.card c) o = ground (arith, get-put c.id c.id c o.all_cards, eq_iff c.id c.id)
get-put_object (Object.board b) o =
    ground (arith, get-put b.id b.id b o.all_boards, eq_iff b.id b.id)
get-put_object (Object.action a) o =
    ground (arith, get-put a.id a.id a o.all_actions, eq_iff a.id a.id)

put_read :
    (k : Kind × String) (w : String) (d : List ((Kind × String) × String))
    → dict_get k (dict_put k w d) ≡ some w
put_read k w d =
    get-put k k w d ∙ ap (λ b. if b then some w else dict_get k d) ((key_beq_iff k k).1 refl)

-- A `save` under an etag is accepted only where that etag is the object's current one, or where "" is
-- given and there is none; the object is then read back as it was saved, under its new etag.
save_under_etag :
    (ops : StoreOps) (x : Object) (e : String) (st : FileStore) {s : Saved}
    → (save ops x (some e) st).0 ≡ ok s
    → ((dict_get (kind_of x, id_of x) st.etags ≡ some e)
        ⊎ ((dict_get (kind_of x, id_of x) st.etags ≡ none) × (e ≡ "")))
      × (get_object (kind_of x) (id_of x) (save ops x (some e) st).1.objects ≡ some x)
      × (dict_get (kind_of x, id_of x) (save ops x (some e) st).1.etags ≡ s.etag)
      × (s.etag ≡ ops.written x)
unfolding commit
save_under_etag ops x e st {s} h = elim (save_cases ops x (some e) st) [
  | inl (f, r) ↦ absurd (cc (h, ap (λ p. p.0) r))
  | inr (w, a) ↦ (
    by_current (dict_get (kind_of x, id_of x) st.etags) refl a.fitting,
    ap (λ p. get_object (kind_of x) (id_of x) p.1.objects) a.becomes ∙ get-put_object x st.objects,
    stored w a ∙ sym (answered w a),
    answered w a ∙ sym a.written,
  )
]
  where
    answered : (w : String) → SaveAccepted ops x (some e) st w → s.etag ≡ some w
    answered w a = ground (arith, h, a.becomes)

    stored :
        (w : String)
        → SaveAccepted ops x (some e) st w
        → dict_get (kind_of x, id_of x) (save ops x (some e) st).1.etags ≡ some w
    stored w a =
        ap (λ p. dict_get (kind_of x, id_of x) p.1.etags) a.becomes
        ∙ put_read (kind_of x, id_of x) w st.etags

    by_current :
        (c : Option String)
        → dict_get (kind_of x, id_of x) st.etags ≡ c
        → etag_fits (some e) c ≡ true
        → (dict_get (kind_of x, id_of x) st.etags ≡ some e)
          ⊎ ((dict_get (kind_of x, id_of x) st.etags ≡ none) × (e ≡ ""))
    by_current none p f = inr (p, ground (arith, f, eq_iff e ""))
    by_current (some c) p f = inl (ground (arith, p, f, eq_iff c e))
