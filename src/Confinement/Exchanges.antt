-- ===== src/Confinement/Exchanges.antt =====
-- `perform`, `read_body`, `_write` and `_exchange` of worlds/confinement.py.
use personal_world.Prelude.{
  ℕ, ◌+◌, Text, String, Bool, true, false, Option, none, some, List, [], ◌∷◌, ◌++◌, ◌&&◌, ◌||◌, not,
  nat_eq, ltb, leb, any, length, codes, same_text, string_eq, dict_get, dict_put, if◌then◌else◌,
}
use personal_world.Value.{Value}
use personal_world.Tx.{Result, ok, err, Op}
use personal_world.Config.Models.{Provider, Request, Method, get_or_head}
use personal_world.Dispatch.Rows.{
  timeout, connection, redirect_refused, too_large, malformed, RawResponse, ConfinementError,
}
use personal_world.Confinement.Base.{Env, Stop, stopped, fail, has_char, is_empty}
use personal_world.Confinement.Guards.{Ready, set_default}

-- What is written for: a login, or the request itself
pub data Purpose : Type 0 where
  login request : Purpose

pub record Exchange : Type 0 where
  pub purpose : Purpose
  pub method : Method
  pub url : Text
  pub sni : Option Text
  pub headers : List (String × Text)
  pub content : Option (List ℕ)
  pub verify : Bool
  pub limit : ℕ

-- An `httpx.TimeoutException` or another `httpx.HTTPError`, and whether the deadline has expired
pub data Fault : Type 0 where
  slow : Bool → Fault
  lost : Bool → Text → Fault

-- How the chunks end, and whether the deadline has expired then
pub data Ended : Type 0 where
  complete : Bool → Ended
  broken : Fault → Ended

-- A streamed response; each chunk comes with the reading of the deadline after it.
pub record Stream : Type 0 where
  pub status : ℕ
  pub headers : List (String × String)  -- the names in lower case
  pub encoding : Text  -- content-encoding, or identity, stripped and in lower case
  pub declared : Option ℕ  -- content-length, if it is digits
  pub late : Bool
  pub chunks : List (List ℕ × Bool)
  pub ended : Ended

pub data Outcome : Type 0 where
  fault : Fault → Outcome
  answered : Stream → Outcome

-- Where the deadline is read before something is written
pub data Site : Type 0 where
  at_exchange at_write at_login : Site

-- httpx and the network, which may answer by what was written before, and the deadline
pub record Net : Type 0 where
  pub http : List Exchange → Exchange → Outcome
  pub late : Site → List Exchange → Bool

-- What was written, the latest first, and `_SESSIONS`
pub record Wire : Type 0 where
  pub written : List Exchange
  pub held : List (List String × Text)

abbrev pub out_of_time : Env → Option ℕ → ConfinementError
out_of_time env status = fail env timeout (codes "total time budget exceeded") status false

abbrev pub fault_error : Env → Fault → ConfinementError
fault_error env (slow expired) = fail env timeout (codes "no answer in time") none false
fault_error env (lost true name) = out_of_time env none
fault_error env (lost false name) =
    fail env connection (codes "transport failed: " ++ name) none false

-- An `httpx.HTTPError` in `read_body`
abbrev pub broken_error : Env → ℕ → Fault → ConfinementError
broken_error env status (slow true) = out_of_time env (some status)
broken_error env status (lost true name) = out_of_time env (some status)
broken_error env status (slow false) = fault_error env (slow false)
broken_error env status (lost false name) = fault_error env (lost false name)

abbrev too_big : Env → ℕ → ConfinementError
too_big env status = fail env too_large (codes "response larger than max_bytes") (some status) false

abbrev end_body : Env → ℕ → Ended → List ℕ → Result ConfinementError (List ℕ)
end_body env status (complete expired) body =
    if expired then err (out_of_time env (some status)) else ok body
end_body env status (broken f) body = err (broken_error env status f)

-- The loop over the chunks: `body` is what came before, `size` its length.
unfoldable pub read_chunks :
    Env → ℕ → ℕ → Ended → ℕ → List ℕ → List (List ℕ × Bool) → Result ConfinementError (List ℕ)
read_chunks env limit status ended size body [] = end_body env status ended body
read_chunks env limit status ended size body ((chunk, late) ∷ chunks) =
    let rest = read_chunks env limit status ended (size + length chunk) (body ++ chunk) chunks in
    if ltb limit (size + length chunk)
    then err (too_big env status)
    else if late
    then err (out_of_time env (some status))
    else rest

abbrev declares_more : ℕ → Option ℕ → Bool
declares_more limit none = false
declares_more limit (some n) = ltb limit n

-- `read_body`
unfoldable pub read_body : Env → ℕ → Stream → Result ConfinementError (List ℕ)
unfolding same_text read_chunks
read_body env limit s =
    if not (is_empty s.encoding || same_text s.encoding (codes "identity"))
    then err (
        fail env malformed (codes "provider sent an encoded body (identity was requested)")
          (some s.status) false)
    else if declares_more limit s.declared
    then err (too_big env s.status)
    else if s.late
    then err (out_of_time env (some s.status))
    else read_chunks env limit s.status s.ended 0 [] s.chunks

abbrev pub with_body : Env → Stream → Result ConfinementError (List ℕ) → Result Stop RawResponse
with_body env s (err e) = err (stopped e)
with_body env s (ok body) = ok (record {
  status_code = s.status;
  headers = s.headers;
  body = body;
  duration_ms = env.elapsed [];
})

-- `perform`
unfoldable pub perform : Env → ℕ → Outcome → Result Stop RawResponse
unfolding read_body
perform env limit (fault f) = err (stopped (fault_error env f))
perform env limit (answered s) =
    if leb 300 s.status && ltb s.status 400
    then err (
        stopped (
          fail env redirect_refused (codes "provider answered with a redirect") (some s.status)
            false))
    else with_body env s (read_body env limit s)

abbrev pub bracketed : Text → Text
bracketed host = if has_char b':' host then b'[' ∷ (host ++ (b']' ∷ [])) else host

unfoldable pub exchange_of :
    Env
    → Purpose
    → Ready
    → Provider
    → Method
    → Text
    → List (String × Text)
    → Option (List ℕ)
    → Exchange
unfolding any same_text dict_put
exchange_of env purpose ready provider method target headers content = record {
  purpose = purpose;
  method = method;
  url =
      ready.scheme
      ++ (codes "://" ++ (bracketed ready.pinned ++ (b':' ∷ (env.number ready.port ++ target))));
  sni = if same_text ready.scheme (codes "https") then some ready.host else none;
  headers = dict_put "Accept-Encoding" (codes "identity") headers;
  content = content;
  verify = provider.tls_verify;
  limit = provider.max_bytes;
}

-- `_write`
unfoldable pub write : Env → Net → Exchange → Op Wire Stop RawResponse
unfolding perform
write env net x st =
    if net.late at_write st.written
    then (err (stopped (out_of_time env none)), st)
    else (perform env x.limit (net.http st.written x), record st { written = x ∷ st.written })

-- `headers.update(credential)`
unfoldable pub update_headers : List (String × Text) → List (String × Text) → List (String × Text)
unfolding dict_put
update_headers headers [] = headers
update_headers headers ((name, value) ∷ credential) =
    update_headers (dict_put name value headers) credential

abbrev pub content_of : Env → Method → Option Value → Option (List ℕ)
content_of env m none = none
content_of env m (some v) = if get_or_head m then none else some (env.dumps v)

abbrev pub typed : Option (List ℕ) → List (String × Text) → List (String × Text)
typed none headers = headers
typed (some b) headers = set_default "Content-Type" (codes "application/json") headers

-- `_exchange`
unfoldable pub exchange :
    Env → Net → Ready → Provider → Request → List (String × Text) → Op Wire Stop RawResponse
unfolding write exchange_of update_headers dict_get dict_put
exchange env net ready provider r credential st =
    let content = content_of env r.method r.body in
    if net.late at_exchange st.written
    then (err (stopped (out_of_time env none)), st)
    else write env net
        (exchange_of env request ready provider r.method ready.target
          (typed content (update_headers ready.headers credential)) content)
        st
