-- ===== src/Confinement/Login.antt =====
-- The login exchange of worlds/confinement.py: `_authenticate` and what it reads of the answer.
use personal_world.Prelude.{
  ℕ, Text, String, Bool, true, false, Option, none, some, List, [], ◌∷◌, ◌++◌, ◌&&◌, ◌||◌, not,
  ◌==◌, nat_eq, nat_beq, ltb, any, length, codes, same_text, string_eq, dict_get, dict_put,
  if◌then◌else◌,
}
use personal_world.Value.{Value, str, obj, get_field}
use personal_world.Tx.{Result, ok, err, Op, ◌>>=◌, ◌>>◌, lift}
use personal_world.Config.Models.{Provider, Auth, AuthType, cookie_session, password_grant, post}
use personal_world.Dispatch.Rows.{timeout, auth_failed, RawResponse}
use personal_world.Confinement.Base.{Env, Stop, stopped, fail, deny, is_empty}
use personal_world.Confinement.Urls.{Destination, build_url}
use personal_world.Confinement.Guards.{Ready, host_header}
use personal_world.Confinement.Credentials.{auth_pair, bare, is_control}
use personal_world.Confinement.Exchanges.{login, Net, at_login, Wire, write, exchange_of}
use personal_world.Confinement.Sessions.{strings_eq}

abbrev pub is_cookie : AuthType → Bool
is_cookie cookie_session = true
is_cookie _ = false

-- `auth.type in _SESSION_AUTH`
abbrev pub holds_session : AuthType → Bool
holds_session cookie_session = true
holds_session password_grant = true
holds_session _ = false

-- `_holdable`
unfoldable pub holdable : Text → Option Text
unfolding any
holdable value =
    if is_empty value || ltb 4096 (length value) || any is_control value then none else some value

abbrev until_semicolon : Text → Text
until_semicolon [] = []
until_semicolon (c ∷ t) = let rest = until_semicolon t in if c == b';' then [] else c ∷ rest

abbrev header_named : String → List (String × String) → Option String
header_named name headers = dict_get name headers

-- `_cookie_pair`
unfoldable pub cookie_pair : Env → Option String → Option Text
unfolding holdable
cookie_pair env none = none
cookie_pair env (some s) =
    if is_empty (codes s) then none else holdable (env.strip (until_semicolon (codes s)))

abbrev held_text : Option Value → Option Text
held_text (some (str s)) = holdable (codes s)
held_text v = none

abbrev token_in : String → Option Value → Option Text
token_in field (some (obj fs)) = held_text (get_field field fs)
token_in field v = none

-- `_token_value`
unfoldable pub token_value : Env → List ℕ → String → Option Text
unfolding holdable get_field
token_value env body field = token_in field (env.loads body)

abbrev label : Bool → Text
label cookie = if cookie then codes "login" else codes "token"

abbrev pub auth_path : Auth → Bool → Option String
auth_path auth cookie = if cookie then auth.login_path else auth.token_path

abbrev pub path_or : Bool → Option String → Result Stop Text
path_or cookie none = err (bare auth_failed (label cookie ++ codes " path is not configured") true)
path_or cookie (some p) =
    if is_empty (codes p)
    then err (bare auth_failed (label cookie ++ codes " path is not configured") true)
    else ok (codes p)

-- `(scheme, host, port) != (ready.scheme, ready.host, ready.port)`, negated
abbrev pub same_destination : Destination → Ready → Bool
same_destination d ready =
    same_text d.scheme ready.scheme && same_text d.host ready.host && nat_beq d.port ready.port

abbrev pub require : Bool → Stop → Op Wire Stop (Unit {0})
require true e st = (ok tt, st)
require false e st = (err e, st)

-- An error with the status and duration of a response
abbrev pub answered_badly : Text → RawResponse → Stop
answered_badly note r = stopped (record {
  error_class = auth_failed;
  note = note;
  status_code = some r.status_code;
  duration_ms = some r.duration_ms;
  pre_send = false;
})

abbrev issued_or : Text → RawResponse → Option Text → Result Stop Text
issued_or note r none = err (answered_badly note r)
issued_or note r (some t) = ok t

abbrev pub issued : Env → Auth → Bool → Text → RawResponse → Result Stop Text
issued env auth true path r =
    issued_or (codes "login at " ++ (path ++ codes " returned no session cookie")) r
      (cookie_pair env (header_named "set-cookie" r.headers))
issued env auth false path r =
    issued_or (codes "token at " ++ (path ++ (codes " returned no " ++ codes auth.token_field))) r
      (token_value env r.body auth.token_field)

abbrev pub login_headers : Env → Ready → List (String × Text)
login_headers env ready =
    ("Host", host_header env ready.scheme ready.host ready.port)
    ∷ ("Connection", codes "close")
    ∷ ("Accept", codes "application/json")
    ∷ ("Content-Type", codes "application/x-www-form-urlencoded")
    ∷ []

-- `{username_field: ..., password_field: ...}`
abbrev pub login_form : Auth → Text × Text → List (String × Text)
login_form auth pair = dict_put auth.password_field pair.1 ((auth.username_field, pair.0) ∷ [])

-- The exchange of a login, which has to answer 200
unfoldable pub ask_credential :
    Env → Net → Provider → Ready → Bool → Text × Text → Text → Text → Op Wire Stop Text
unfolding exchange_of write host_header dict_get dict_put cookie_pair token_value same_text
ask_credential env net provider ready cookie pair path target = do
  r ← write env net (
      exchange_of env login ready provider post target (login_headers env ready)
        (some (env.form (login_form provider.auth pair))))
  require (nat_beq r.status_code 200) (
      answered_badly
        (label cookie
          ++ (codes " at " ++ (path ++ (codes " answered " ++ env.number r.status_code))))
        r)
  lift (issued env provider.auth cookie path r)

-- `_authenticate`
unfoldable pub authenticate : Env → Net → Provider → Ready → Bool → Op Wire Stop Text
unfolding auth_pair build_url ask_credential same_text
authenticate env net provider ready cookie st =
    (do
      pair ← lift (auth_pair env provider.auth)
      require (not (net.late at_login st.written))
          (stopped (fail env timeout (codes "total time budget exceeded") none false))
      path ← lift (path_or cookie (auth_path provider.auth cookie))
      d ← lift (build_url env provider path [])
      require (same_destination d ready)
          (stopped (deny env (label cookie ++ codes " path is not on the provider's destination")))
      ask_credential env net provider ready cookie pair path d.target)
      st
