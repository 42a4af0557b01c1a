-- ===== src/Authn/Requests.antt =====
-- `Auth.authenticate` with `_check_csrf` of worlds/authn.py.
use personal_world.Prelude.{
  ℕ, String, Text, Bool, true, false, Option, none, some, List, [], ◌∷◌, ◌&&◌, ◌||◌, not, any, all,
  ltb, ◌==◌, string_eq, codes, same_text, if◌then◌else◌,
}
use personal_world.Tx.{Result, ok, err}
use personal_world.Authn.Principal.{Principal, owner, session}
use personal_world.Authn.Sessions.{AuthDb, AuthOps, Session, get_session, verify}

-- What is read of a request: the headers authorization, origin and x-csrf-token, and the two cookies
pub record HttpRequest : Type 0 where
  pub method : String
  pub authorization : Option Text
  pub session_cookie : Option Text
  pub origin : Option Text
  pub csrf_header : Option Text
  pub csrf_cookie : Option Text

-- `header.partition(" ")` without the space, `lower`, `strip`, `rstrip("/")`, and the keyed hash of
-- `csrf_token`
pub record RequestOps : Type 0 where
  pub partition : Text → Text × Text
  pub lower : Text → Text
  pub strip : Text → Text
  pub rstrip_slash : Text → Text
  pub csrf_token : Text → Text

-- `Auth`, as far as a call reads it
pub record Auth : Type 0 where
  pub ops : AuthOps
  pub request_ops : RequestOps
  pub allowed_origins : List Text
  pub binding : String

-- The status and detail of the `HTTPException`
pub data AuthFailure : Type 0 where
  unauthorized origin_not_allowed csrf_check_failed : AuthFailure

-- `request.method in MUTATING or request.method not in ("GET", "HEAD", "OPTIONS")`
unfoldable pub changes : String → Bool
changes m =
    ((m == "POST") || (m == "PUT") || (m == "PATCH") || (m == "DELETE"))
    || not ((m == "GET") || (m == "HEAD") || (m == "OPTIONS"))

abbrev pub is_ascii : Text → Bool
is_ascii t = all (λ c. ltb c 128) t

-- `hmac.compare_digest` of two texts, which raises where one is not ASCII
unfoldable pub compare_digest : Text → Text → Option Bool
unfolding all same_text
compare_digest a b = if is_ascii a && is_ascii b then some (same_text a b) else none

abbrev pub or_empty : Option Text → Text
or_empty none = []
or_empty (some t) = t

abbrev pub is_empty : Text → Bool
is_empty [] = true
is_empty (c ∷ t) = false

-- An exception other than `HTTPException` becomes 401.
abbrev pub second_test : Option Bool → Result AuthFailure (Unit {0})
second_test none = err unauthorized
second_test (some true) = ok tt
second_test (some false) = err csrf_check_failed

abbrev pub both_tests : Option Bool → Option Bool → Result AuthFailure (Unit {0})
both_tests none expected = err unauthorized
both_tests (some false) expected = err csrf_check_failed
both_tests (some true) expected = second_test expected

abbrev pub origin_allowed : Auth → Option Text → Bool
origin_allowed a none = false
origin_allowed a (some o) = any (same_text (a.request_ops.rstrip_slash o)) a.allowed_origins

-- `_check_csrf`
unfoldable pub check_csrf : Auth → HttpRequest → Text → Result AuthFailure (Unit {0})
unfolding any same_text compare_digest
check_csrf a r sid =
    let header = or_empty r.csrf_header in
    let cookie = or_empty r.csrf_cookie in
    if not (origin_allowed a r.origin)
    then err origin_not_allowed
    else if is_empty header || is_empty cookie
    then err csrf_check_failed
    else both_tests (compare_digest header cookie)
        (compare_digest header (a.request_ops.csrf_token sid))

abbrev of_token : Option Principal → Result AuthFailure Principal
of_token none = err unauthorized
of_token (some p) = ok p

abbrev pub owner_of : Session → Principal
owner_of s = record {
  kind = owner;
  id = s.principal;
  scopes = [];
  session_hash = some s.id_hash;
  step_up_at = s.step_up_at;
  via = session;
}

abbrev after_csrf : Session → Result AuthFailure (Unit {0}) → Result AuthFailure Principal
after_csrf s (err e) = err e
after_csrf s (ok u) = ok (owner_of s)

abbrev pub of_session : Auth → HttpRequest → Text → Option Session → Result AuthFailure Principal
of_session a r sid none = err unauthorized
of_session a r sid (some s) =
    if changes r.method then after_csrf s (check_csrf a r sid) else ok (owner_of s)

abbrev pub by_token : Auth → Text → ℕ → AuthDb → Result AuthFailure Principal
by_token a header now db =
    let parts = a.request_ops.partition header in
    if not (same_text (a.request_ops.lower parts.0) (codes "bearer"))
    then err unauthorized
    else of_token (verify a.ops (some (a.request_ops.strip parts.1)) now db)

abbrev pub by_cookie :
    Auth → HttpRequest → Option Text → ℕ → AuthDb → Result AuthFailure Principal × AuthDb
by_cookie a r none now db = (err unauthorized, db)
by_cookie a r (some sid) now db =
    let found = get_session a.ops a.binding (some sid) now db in
    (of_session a r sid found.0, found.1)

abbrev pub by_header :
    Auth → HttpRequest → Option Text → ℕ → AuthDb → Result AuthFailure Principal × AuthDb
by_header a r (some header) now db = (by_token a header now db, db)
by_header a r none now db = by_cookie a r r.session_cookie now db

-- `authenticate`, with `_authenticate`; the sessions are read and written on the way
unfoldable pub authenticate :
    Auth → HttpRequest → ℕ → AuthDb → Result AuthFailure Principal × AuthDb
unfolding check_csrf changes get_session verify same_text
authenticate a r now db = by_header a r r.authorization now db
