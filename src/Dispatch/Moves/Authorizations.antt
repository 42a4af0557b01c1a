-- ===== src/Dispatch/Moves/Authorizations.antt =====
-- Every operation moves each authorization along `AuthPath`, and keeps their ids unique.
use personal_world.Prelude.{
  ℕ, String, Bool, true, false, Option, none, some, List, [], ◌∷◌, ◌++◌, ◌==◌, nat_eq, string_eq,
  ◌≡◌, inl, inr, refl, arith, Bool-cases, if◌then◌else◌, ap, subst, sym, ◌∙◌,
}
use personal_world.Table.{
  find_by, update_where, find_by-update_where, find_by-append, map_row, or_else, IsKeyed,
  IsKeyed-update_where, IsKeyed-snoc,
}
use personal_world.Value.{Value}
use personal_world.Authn.Principal.{Principal}
use personal_world.Dispatch.Rows.{Authorization, Db, Dispatcher, invalidated}
use personal_world.Dispatch.Base.{Target, auth_id, find_auth}
use personal_world.Dispatch.Request.{new_authorization, auto_approved, request_authorization}
use personal_world.Dispatch.Approve.{
  approve, record_project_home_approval, deny, expire_due, invalidate_all, stale,
  on_actions_changed,
}
use personal_world.Dispatch.Execute.{consume}
use personal_world.Dispatch.Recover.{request_retry}
use personal_world.Dispatch.Moves.Rules.{
  AuthMove, AuthPath, stay, born_pending, born_approved, by_owner, by_project_home, close, use_up,
  to_denied, to_expired, to_invalidated, here, and_then,
}
use personal_world.Dispatch.Moves.Cases.{
  with_auths, approve_cases, project_home_cases, deny_cases, expire_due_lem, insert_cases,
  request_row, request_writes, consume_cases, retry_cases, changed_lem,
}

-- An UPDATE of each row by a move is a move of what is found under each id.
update-AuthMove :
    (q : Authorization → Bool) (f : Authorization → Authorization)
    → ((a : Authorization) → auth_id (f a) ≡ auth_id a)
    → ((a : Authorization) → q a ≡ true → AuthMove (some a) (some (f a)))
    → (k : ℕ) (db : Db)
    → AuthMove (find_auth k db) (find_auth k (with_auths db (update_where q f db.authorizations)))
update-AuthMove q f same move k db =
    subst (AuthMove (find_auth k db))
      (sym (find_by-update_where auth_id q f same k db.authorizations)) (rows (find_auth k db))
  where
    row_move :
        (a : Authorization) (b : Bool) → q a ≡ b → AuthMove (some a) (some (if b then f a else a))
    row_move a true e = move a e
    row_move a false e = stay

    rows : (o : Option Authorization) → AuthMove o (map_row q f o)
    rows none = stay
    rows (some a) = row_move a (q a) refl

one : {o q : Option Authorization} → AuthMove o q → AuthPath o q
one m = and_then m here

-- The row that a request inserts waits for an approval, or carries the policy's.
request_row-AuthMove :
    (d : Dispatcher) (p : Principal) (action_id : String) (params : Option Value)
    (key : Option String) (retry_of : Option ℕ) (warn : Bool) (now aid : ℕ) (t : Target)
    (version : String) (db : Db)
    → AuthMove none (some (request_row d p action_id params key retry_of warn now aid t version))
request_row-AuthMove d p action_id params key retry_of warn now aid t version db =
    elim (Bool-cases (auto_approved d p t retry_of)) [
      | inl e ↦
          born_approved {a = new} (unfold new_authorization in rw e refl)
            (unfold new_authorization in rw e refl)
      | inr e ↦ born_pending {a = new} (unfold new_authorization in rw e refl)
    ]
  where
    new : Authorization
    new = request_row d p action_id params key retry_of warn now aid t version

-- An appended row with a fresh id is seen under its own id only.
append-AuthMove :
    (k : ℕ) (db : Db) (a : Authorization)
    → find_auth a.id db ≡ none
    → AuthMove none (some a)
    → AuthMove (find_auth k db) (find_auth k (with_auths db (db.authorizations ++ a ∷ [])))
unfolding find_by
append-AuthMove k db a fresh m =
    subst (AuthMove (find_auth k db)) (sym (find_by-append auth_id k db.authorizations (a ∷ [])))
      (seen (find_auth k db) (a.id == k))
  where
    seen :
        (o : Option Authorization) (b : Bool) → AuthMove o (or_else o (if b then some a else none))
    seen none true = m
    seen none false = stay
    seen (some x) b = stay

AuthPath-trans : {o p q : Option Authorization} → AuthPath o p → AuthPath p q → AuthPath o q
AuthPath-trans here m = m
AuthPath-trans (and_then s l) m = and_then s (AuthPath-trans l m)

-- What an operation does to the authorizations.
pub record Decides (db after : Db) : Type 0 where
  pub path : (k : ℕ) → AuthPath (find_auth k db) (find_auth k after)
  pub ids : IsKeyed auth_id db.authorizations → IsKeyed auth_id after.authorizations

Decides-trans : {a b c : Db} → Decides a b → Decides b c → Decides a c
Decides-trans f g = record {
  path = λ k. AuthPath-trans (f.path k) (g.path k);
  ids = λ h. g.ids (f.ids h);
}

pub Decides-same : (db after : Db) → after.authorizations ≡ db.authorizations → Decides db after
Decides-same db after e = record {
  path = λ k. subst (λ rows. AuthPath (find_auth k db) (find_by auth_id k rows)) (sym e) here;
  ids = subst (IsKeyed auth_id) (sym e);
}

module _ (db : Db) where
  updated :
      (q : Authorization → Bool) (f : Authorization → Authorization)
      → ((a : Authorization) → auth_id (f a) ≡ auth_id a)
      → ((a : Authorization) → q a ≡ true → AuthMove (some a) (some (f a)))
      → (after : Db) → after.authorizations ≡ update_where q f db.authorizations
      → Decides db after
  updated q f same move after e = record {
    path = λ k.
        subst (λ rows. AuthPath (find_auth k db) (find_by auth_id k rows)) (sym e)
          (one (update-AuthMove q f same move k db));
    ids = λ h.
        subst (IsKeyed auth_id) (sym e) (IsKeyed-update_where auth_id q f same db.authorizations h);
  }

  appended :
      (a : Authorization)
      → find_auth a.id db ≡ none
      → AuthMove none (some a)
      → Decides db (with_auths db (db.authorizations ++ a ∷ []))
  appended a fresh m = record {
    path = λ k. one (append-AuthMove k db a fresh m);
    ids = λ h. IsKeyed-snoc auth_id db.authorizations a h fresh;
  }

  moved : {after other : Db} → after ≡ other → Decides db other → Decides db after
  moved e f = subst (Decides db) (sym e) f

  settled : {after : Db} → after ≡ db → Decides db after
  settled e = moved e (Decides-same db db refl)

  pub approve-Decides :
      (d : Dispatcher) (p : Principal) (aid step_up_now now : ℕ)
      → Decides db (approve d p aid step_up_now now db).1
  approve-Decides d p aid step_up_now now = elim (approve_cases db d p aid step_up_now now) [
    | inl e ↦ settled e
    | inr e ↦ moved e (updated _ _ (λ a. refl) (λ a h. by_owner p now (ground arith)) _ refl)
  ]

  pub project_home-Decides :
      (d : Dispatcher) (aid : ℕ) (ph_id : String) (now : ℕ)
      → Decides db (record_project_home_approval d aid ph_id now db).1
  project_home-Decides d aid ph_id now = elim (project_home_cases db d aid ph_id now) [
    | inl e ↦ settled e
    | inr e ↦
        moved e (updated _ _ (λ a. refl) (λ a h. by_project_home ph_id now (ground arith)) _ refl)
  ]

  pub deny-Decides : (p : Principal) (aid : ℕ) → Decides db (deny p aid db).1
  deny-Decides p aid = elim (deny_cases db p aid) [
    | inl e ↦ settled e
    | inr e ↦ moved e (updated _ _ (λ a. refl) (λ a h. close (ground arith) to_denied) _ refl)
  ]

  pub expire_due-Decides : (now : ℕ) → Decides db (expire_due now db).1
  expire_due-Decides now =
      moved (expire_due_lem db now)
        (updated _ _ (λ a. refl) (λ a h. close (ground arith) to_expired) _ refl)

  module _ (d : Dispatcher) (p : Principal) where
    pub request-Decides :
        (action_id : String) (params : Option Value) (key : Option String) (retry_of : Option ℕ)
        (warn : Bool) (now aid : ℕ)
        → Decides db (request_authorization d p action_id params key retry_of warn now aid db).1
    request-Decides action_id params key retry_of warn now aid =
        elim (request_writes db d p action_id params key retry_of warn now aid) [
          | inl e ↦ settled e
          | inr (t, version, e) ↦
              elim (insert_cases db
                (request_row d p action_id params key retry_of warn now aid t version)) [
                  | inl f ↦ settled (e ∙ f)
                  | inr (fresh, f) ↦ moved (e ∙ f) (
                      appended _ fresh (
                        request_row-AuthMove d p action_id params key retry_of warn now aid t
                          version db))
                ]
        ]

    pub consume-Decides : (aid now eid : ℕ) → Decides db (consume d p aid now eid db).1
    consume-Decides aid now eid = elim (consume_cases db d p aid now eid) [
      | inl e ↦ settled e
      | inr (a, found, fresh_id, fresh_auth, once, e) ↦
          moved e (updated _ _ (λ b. refl) (λ b h. use_up (ground arith)) _ refl)
    ]

    pub retry-Decides : (eid now aid : ℕ) → Decides db (request_retry d p eid now aid db).1
    retry-Decides eid now aid = elim (retry_cases db d p eid now aid) [
      | inl e ↦ settled e
      | inr (action_id, params, key, warn, e) ↦
          moved (ap (λ r. r.1) e) (request-Decides action_id params key (some eid) warn now aid)
    ]

-- Each round of the loop over changed actions is one UPDATE.
invalidate_all-Decides :
    (d : Dispatcher) (ids : List String) (db : Db) → Decides db (invalidate_all d ids db).1
unfolding invalidate_all
invalidate_all-Decides d [] db = Decides-same db db refl
invalidate_all-Decides d (action_id ∷ rest) db =
    Decides-trans
      (updated db (stale d action_id) (λ b. record b { state = invalidated }) (λ b. refl)
        (λ b h. close (ground arith) to_invalidated)
        (with_auths db (
          update_where (stale d action_id) (λ b. record b { state = invalidated })
            db.authorizations))
        refl)
      (invalidate_all-Decides d rest (
        with_auths db (
          update_where (stale d action_id) (λ b. record b { state = invalidated })
            db.authorizations)))

pub changed-Decides :
    (d : Dispatcher) (ids : List String) (db : Db) → Decides db (on_actions_changed d ids db).1
changed-Decides d ids db = moved db (changed_lem d ids db) (invalidate_all-Decides d ids db)
