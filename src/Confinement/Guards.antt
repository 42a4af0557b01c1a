-- ===== src/Confinement/Guards.antt =====
-- `resolve_within` and `_prepare` of worlds/confinement.py.
use personal_world.Prelude.{
  ℕ, Text, String, Bool, true, Option, none, some, List, [], ◌∷◌, ◌++◌, ◌&&◌, ◌||◌, not, ◌==◌,
  nat_eq, nat_beq, any, codes, same_text, string_eq, dict_get, dict_put, is_some, if◌then◌else◌,
}
use personal_world.Tx.{Result, ok, err}
use personal_world.Config.Models.{
  Provider, ProviderKind, is_room0, Request, get_or_head, Effect, is_write,
}
use personal_world.Dispatch.Rows.{ErrorClass, timeout, connection}
use personal_world.Confinement.Addresses.{
  Denied, unparseable, metadata, unroutable, internal, classify_address,
}
use personal_world.Confinement.Base.{
  Lookup, too_many, timed_out, failed, found, Env, Stop, stopped, ◌>>=◌, ◌>>◌, fail, deny, deny_if,
  has_char, is_empty,
}
use personal_world.Confinement.Urls.{Destination, build_url}

-- `_Ready`
pub record Ready : Type 0 where
  pub scheme : Text
  pub host : Text
  pub port : ℕ
  pub pinned : Text
  pub target : Text
  pub headers : List (String × Text)

-- `_FORBIDDEN_HEADERS`
abbrev pub forbidden_headers : List Text
forbidden_headers =
    codes "host"
    ∷ codes "content-length"
    ∷ codes "transfer-encoding"
    ∷ codes "connection"
    ∷ codes "upgrade"
    ∷ codes "te"
    ∷ codes "trailer"
    ∷ codes "keep-alive"
    ∷ codes "proxy-authorization"
    ∷ codes "proxy-connection"
    ∷ codes "authorization"
    ∷ codes "cookie"
    ∷ codes "set-cookie"
    ∷ codes "expect"
    ∷ []

unfoldable pub is_forbidden : Env → String → Bool
unfolding any same_text
is_forbidden env name = any (same_text (env.lower (codes name))) forbidden_headers

abbrev breaks_line : ℕ → Bool
breaks_line c = (c == 13) || (c == 10) || (c == 0)

unfoldable pub has_control : String × String → Bool
unfolding any
has_control h = any breaks_line (codes h.0 ++ codes h.1)

-- The loop over the headers of the request
unfoldable pub vet_headers :
    Env → List (String × Text) → List (String × String) → Result Stop (List (String × Text))
unfolding is_forbidden has_control dict_put
vet_headers env acc [] = ok acc
vet_headers env acc (h ∷ headers) = do
  deny_if env (is_forbidden env h.0) (codes "header " ++ (env.repr h.0 ++ codes " is not allowed"))
  deny_if env (has_control h) (codes "header contains a control character")
  vet_headers env (dict_put h.0 (codes h.1) acc) headers

abbrev unresolved : Env → ErrorClass → Text → Result Stop (List Text)
unresolved env class note = err (stopped (fail env class note none true))

abbrev pub of_lookup : Env → Lookup → Result Stop (List Text)
of_lookup env too_many =
    unresolved env timeout (codes "too many name lookups in flight for this provider")
of_lookup env timed_out = unresolved env timeout (codes "name lookup did not finish in time")
of_lookup env failed = unresolved env connection (codes "host did not resolve")
of_lookup env (found []) = unresolved env connection (codes "host did not resolve")
of_lookup env (found (a ∷ rest)) = ok (a ∷ rest)

-- `resolve_within`
unfoldable pub resolve_within : Env → Text → ℕ → Result Stop (List Text)
resolve_within env host port = of_lookup env (env.lookup host port)

abbrev reason : Denied → Text
reason unparseable = codes "unparseable address"
reason metadata = codes "cloud metadata address"
reason unroutable = codes "unroutable address"
reason internal = codes "internal address (provider is not marked lan)"

abbrev pub vet_one : Env → Option Denied → Result Stop (Unit {0})
vet_one env none = ok tt
vet_one env (some d) = err (stopped (deny env (reason d)))

-- The loop over the addresses
unfoldable pub vet_addresses : Env → Bool → List Text → Result Stop (Unit {0})
unfolding classify_address
vet_addresses env lan [] = ok tt
vet_addresses env lan (a ∷ rest) = do
  vet_one env (classify_address env.ip lan a)
  vet_addresses env lan rest

abbrev pub first_of : List Text → Text
first_of [] = []
first_of (a ∷ rest) = a

abbrev pub with_principal :
    Env → ProviderKind → Option String → List (String × Text) → Result Stop (List (String × Text))
with_principal env kind none headers = ok headers
with_principal env kind (some p) headers =
    if is_room0 kind && not (is_empty (codes p))
    then (do
      deny_if env (not (env.principal_ok p)) (codes "principal_id is not valid")
      ok (dict_put "X-Worlds-Principal" (codes p) headers))
    else ok headers

abbrev is_default_port : Text → ℕ → Bool
is_default_port scheme port = not (
    (same_text scheme (codes "http") && not (nat_beq port 80))
    || (same_text scheme (codes "https") && not (nat_beq port 443)))

-- `_host_header`
unfoldable pub host_header : Env → Text → Text → ℕ → Text
unfolding same_text any
host_header env scheme host port =
    let text = if has_char b':' host then b'[' ∷ (host ++ (b']' ∷ [])) else host in
    if is_default_port scheme port then text else text ++ (b':' ∷ env.number port)

-- `headers.setdefault(name, value)`
abbrev pub set_default : String → Text → List (String × Text) → List (String × Text)
set_default name value headers =
    if is_some (dict_get name headers) then headers else dict_put name value headers

unfoldable pub own_headers : Env → Destination → List (String × Text) → List (String × Text)
unfolding host_header dict_put dict_get
own_headers env d headers = set_default "Accept" (codes "application/json") (
    dict_put "Connection" (codes "close")
      (dict_put "Host" (host_header env d.scheme d.host d.port) headers))

-- `_prepare`, at one of the two effects
unfoldable pub prepare : Env → Provider → Request → Effect → Result Stop Ready
unfolding build_url vet_headers resolve_within vet_addresses own_headers dict_put
prepare env provider request effect = do
  deny_if env (not (is_write effect) && not (get_or_head request.method))
      (codes "a read effect cannot send a mutating method")
  d ← build_url env provider (codes request.path) request.query
  headers ← vet_headers env [] request.headers
  addresses ← resolve_within env d.host d.port
  vet_addresses env provider.network.lan addresses
  headers ← with_principal env provider.kind provider.principal_id headers
  ok (record {
    scheme = d.scheme;
    host = d.host;
    port = d.port;
    pinned = first_of addresses;
    target = d.target;
    headers = own_headers env d headers;
  })
