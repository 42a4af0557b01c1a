-- ===== src/Authn/Callers.antt =====
-- Who is accepted as the caller of a request.
use personal_world.Prelude.{
  ℕ, ◌+◌, ◌≤◌, ◌<◌, Text, Bool, true, false, Option, none, some, [], ◌∷◌, ◌≡◌, ◌⊎◌, inl, inr, refl,
  arith, sym, ap, ◌∙◌, ◌&&◌, ◌||◌, codes, same_text, Bool-cases, Option-cases,
}
use personal_world.Tx.{Result, ok, err}
use personal_world.Authn.Principal.{Principal}
use personal_world.Authn.Sessions.{AuthDb, Session, idle_seconds, find_session, get_session, verify}
use personal_world.Authn.Lifetime.{get_session_sound, IsTokenOf, verify_sound}
use personal_world.Authn.Requests.{
  HttpRequest, Auth, AuthFailure, changes, compare_digest, or_empty, is_empty, both_tests,
  origin_allowed, check_csrf, owner_of, of_session, by_token, by_cookie, by_header, authenticate,
  is_ascii,
}

same_text_eq : (s t : Text) → same_text s t ≡ true → s ≡ t
unfolding same_text
same_text_eq [] [] h = refl
same_text_eq [] (c ∷ t) h = absurd (ground (arith, h))
same_text_eq (c ∷ s) [] h = absurd (ground (arith, h))
same_text_eq (c ∷ s) (d ∷ t) h =
    ap (λ x. x ∷ s) (ground (arith, h)) ∙ ap (λ u. d ∷ u) (same_text_eq s t (ground (arith, h)))

compare_same : (a b : Text) → compare_digest a b ≡ some true → a ≡ b
unfolding compare_digest
compare_same a b h = elim (Bool-cases (is_ascii a && is_ascii b)) [
  | inl i ↦ same_text_eq a b (ground (arith, h, i))
  | inr i ↦ absurd (ground (arith, h, i))
]

-- What shows that the page that sent the request is one of the program's own.
pub record OwnPage (a : Auth) (r : HttpRequest) (sid : Text) : Type 0 where
  pub from_origin : origin_allowed a r.origin ≡ true
  pub header_is_cookie : or_empty r.csrf_header ≡ or_empty r.csrf_cookie
  pub header_is_token : or_empty r.csrf_header ≡ a.request_ops.csrf_token sid
  pub not_empty : is_empty (or_empty r.csrf_header) ≡ false

both_hold : (x y : Option Bool) → both_tests x y ≡ ok tt → (x ≡ some true) × (y ≡ some true)
both_hold none y h = absurd (ground (arith, h))
both_hold (some false) y h = absurd (ground (arith, h))
both_hold (some true) none h = absurd (ground (arith, h))
both_hold (some true) (some false) h = absurd (ground (arith, h))
both_hold (some true) (some true) h = (refl, refl)

check_csrf_sound :
    (a : Auth) (r : HttpRequest) (sid : Text) → check_csrf a r sid ≡ ok tt → OwnPage a r sid
unfolding check_csrf
check_csrf_sound a r sid h = elim (Bool-cases (origin_allowed a r.origin)) [
  | inr o ↦ absurd (ground (arith, h, o))
  | inl o ↦
      elim (Bool-cases (is_empty (or_empty r.csrf_header) || is_empty (or_empty r.csrf_cookie))) [
        | inl e ↦ absurd (ground (arith, h, o, e))
        | inr e ↦
            let (x, y) =
              both_hold (compare_digest (or_empty r.csrf_header) (or_empty r.csrf_cookie))
                (compare_digest (or_empty r.csrf_header) (a.request_ops.csrf_token sid))
                (sym (rw (o, e) refl) ∙ h) in
            record {
              from_origin = o;
              header_is_cookie = compare_same _ _ x;
              header_is_token = compare_same _ _ y;
              not_empty = ground (arith, e);
            }
      ]
]

-- An agent with its token.
pub record ByToken (a : Auth) (r : HttpRequest) (now : ℕ) (db : AuthDb) (p : Principal)
    : Type 0 where
  pub header : Text
  pub sent : r.authorization ≡ some header
  pub bearer :
      same_text (a.request_ops.lower (a.request_ops.partition header).0) (codes "bearer") ≡ true
  pub token_of : IsTokenOf a.ops (a.request_ops.strip (a.request_ops.partition header).1) now db p

-- The owner in a live session, who changes something only from a page of the program's own.
pub record BySession (a : Auth) (r : HttpRequest) (now : ℕ) (db : AuthDb) (p : Principal)
    : Type 0 where
  pub sid : Text
  pub row : Session
  pub no_header : r.authorization ≡ none
  pub cookie : r.session_cookie ≡ some sid
  pub principal : owner_of row ≡ p
  pub live :
      (find_session (a.ops.h sid) db.sessions ≡ some row)
      × (now < row.expires_at)
      × (now ≤ row.last_seen_at + idle_seconds)
      × (row.binding ≡ a.binding)
  pub own_page : (changes r.method ≡ false) ⊎ OwnPage a r sid

module _ (a : Auth) (r : HttpRequest) (now : ℕ) (db : AuthDb) (p : Principal) where
  token_sound :
      (header : Text)
      → r.authorization ≡ some header
      → by_token a header now db ≡ ok p
      → ByToken a r now db p
  token_sound header e h =
      elim (Bool-cases
        (same_text (a.request_ops.lower (a.request_ops.partition header).0) (codes "bearer"))) [
          | inr b ↦ absurd (ground (arith, h, b))
          | inl b ↦
              elim (Option-cases (
                verify a.ops (some (a.request_ops.strip (a.request_ops.partition header).1)) now
                  db)) [
                    | inl v ↦ absurd (ground (arith, h, b, v))
                    | inr (q, v) ↦ record {
                      header = header;
                      sent = e;
                      bearer = b;
                      token_of =
                          verify_sound a.ops
                            (a.request_ops.strip (a.request_ops.partition header).1) now db {p = p}
                            (ground (arith, h, b, v));
                    }
                  ]
        ]

  session_sound :
      (sid : Text) (s : Session)
      → of_session a r sid (some s) ≡ ok p
      → (owner_of s ≡ p) × ((changes r.method ≡ false) ⊎ OwnPage a r sid)
  session_sound sid s h = elim (Bool-cases (changes r.method)) [
    | inr c ↦ (ground (arith, h, c), inl c)
    | inl c ↦ by_check (check_csrf a r sid) refl c
  ]
    where
      by_check :
          (x : Result AuthFailure (Unit {0}))
          → check_csrf a r sid ≡ x
          → changes r.method ≡ true
          → (owner_of s ≡ p) × ((changes r.method ≡ false) ⊎ OwnPage a r sid)
      by_check (err e) q c = absurd (ground (arith, h, q, c))
      by_check (ok tt) q c = (ground (arith, h, q, c), inr (check_csrf_sound a r sid q))

  cookie_sound :
      (c : Option Text)
      → r.authorization ≡ none
      → r.session_cookie ≡ c
      → (by_cookie a r c now db).0 ≡ ok p
      → BySession a r now db p
  cookie_sound none n e h = absurd (ground (arith, h))
  cookie_sound (some sid) n e h =
      elim (Option-cases (get_session a.ops a.binding (some sid) now db).0) [
        | inl g ↦ absurd (ground (arith, h, g))
        | inr (s, g) ↦
            let (is_owner, page) = session_sound sid s (ap (of_session a r sid) (sym g) ∙ h) in
            record {
              sid = sid;
              row = s;
              no_header = n;
              cookie = e;
              principal = is_owner;
              live = get_session_sound a.ops a.binding sid now db g;
              own_page = page;
            }
      ]

  header_sound :
      (o : Option Text)
      → r.authorization ≡ o
      → (by_header a r o now db).0 ≡ ok p
      → ByToken a r now db p ⊎ BySession a r now db p
  header_sound (some header) e h = inl (token_sound header e h)
  header_sound none e h = inr (cookie_sound r.session_cookie e refl h)

-- A request is accepted only with a bearer token, as the agent of that token: a stored one, under
-- its hash, that is neither revoked nor lapsed, with its id and scopes and no step-up; or,
-- without an authorization header, as the owner of a live session of its cookie; if it may change
-- something, then only with an allowed origin and a CSRF header that equals its cookie and the
-- token of that session.
pub authenticate_sound :
    (a : Auth) (r : HttpRequest) (now : ℕ) (db : AuthDb) (p : Principal)
    → (authenticate a r now db).0 ≡ ok p
    → ByToken a r now db p ⊎ BySession a r now db p
unfolding authenticate
authenticate_sound a r now db p h = header_sound a r now db p r.authorization refl h
