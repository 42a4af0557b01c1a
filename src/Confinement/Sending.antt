-- ===== src/Confinement/Sending.antt =====
-- `_session_send`, `_send` and `confined_request` of worlds/confinement.py.
use personal_world.Prelude.{
  ℕ, Text, String, Bool, true, false, Option, none, some, List, [], ◌∷◌, ◌++◌, nat_eq, nat_beq,
  codes, string_eq, dict_get, dict_del, if◌then◌else◌,
}
use personal_world.Tx.{Result, ok, err, Op, ◌>>=◌, ◌>>◌, lift, pure, modify}
use personal_world.Config.Models.{Provider, Request, Effect, is_write, Auth, AuthType}
use personal_world.Dispatch.Rows.{connection, RawResponse, Reply, response, refused}
use personal_world.Confinement.Base.{Env, Stop, stopped, crashed, fail}
use personal_world.Confinement.Guards.{Ready, prepare}
use personal_world.Confinement.Credentials.{auth_headers}
use personal_world.Confinement.Exchanges.{Net, Wire, exchange}
use personal_world.Confinement.Sessions.{
  strings_eq, session_key, session_take, session_keep, session_forget,
}
use personal_world.Confinement.Login.{
  is_cookie, holds_session, auth_path, answered_badly, authenticate,
}

abbrev pub keep : Provider → Text → Op Wire Stop (Unit {0})
keep provider credential =
    modify (λ w. record w { held = session_keep (session_key provider) credential w.held })

abbrev pub forget : Provider → Op Wire Stop (Unit {0})
forget provider = modify (λ w. record w { held = session_forget (session_key provider) w.held })

-- `_credential_header`
abbrev pub credential_header : Bool → Text → List (String × Text)
credential_header true credential = ("Cookie", credential) ∷ []
credential_header false credential = ("Authorization", codes "Bearer " ++ credential) ∷ []

-- A login, whose credential is kept
unfoldable pub log_in : Env → Net → Provider → Ready → Op Wire Stop Text
unfolding authenticate session_keep session_key
log_in env net provider ready = do
  credential ← authenticate env net provider ready (is_cookie provider.auth.type)
  keep provider credential
  pure credential

abbrev pub or_log_in : Env → Net → Provider → Ready → Option Text → Op Wire Stop Text
or_log_in env net provider ready (some credential) = pure credential
or_log_in env net provider ready none = log_in env net provider ready

-- `_session_take`, or else a login
unfoldable pub take_session : Env → Net → Provider → Ready → Op Wire Stop Text
unfolding log_in dict_get session_key
take_session env net provider ready st =
    or_log_in env net provider ready (session_take (session_key provider) st.held) st

unfoldable pub send_with : Env → Net → Provider → Request → Ready → Text → Op Wire Stop RawResponse
unfolding exchange
send_with env net provider r ready credential =
    exchange env net ready provider r (credential_header (is_cookie provider.auth.type) credential)

-- 403 for a session, 401 for a token
abbrev pub refusal : AuthType → ℕ
refusal t = if is_cookie t then 403 else 401

abbrev path_text : Option String → Text
path_text none = codes "None"
path_text (some p) = codes p

abbrev refused_note : Auth → Text
refused_note auth =
    (if is_cookie auth.type then codes "session" else codes "token")
    ++ (codes " refused at " ++ path_text (auth_path auth (is_cookie auth.type)))

abbrev pub or_refused : Env → Provider → RawResponse → Result Stop RawResponse
or_refused env provider r =
    if nat_beq r.status_code (refusal provider.auth.type)
    then err (answered_badly (refused_note provider.auth) r)
    else ok r

-- The one replay of a read
unfoldable pub replay : Env → Net → Provider → Request → Ready → Op Wire Stop RawResponse
unfolding log_in send_with
replay env net provider r ready = do
  credential ← log_in env net provider ready
  answer ← send_with env net provider r ready credential
  lift (or_refused env provider answer)

abbrev pub after_refusal :
    Env → Net → Provider → Request → Ready → Effect → RawResponse → Op Wire Stop RawResponse
after_refusal env net provider r ready effect answer = do
  forget provider
  if is_write effect then pure answer else replay env net provider r ready

abbrev pub unless_refused :
    Env → Net → Provider → Request → Ready → Effect → RawResponse → Op Wire Stop RawResponse
unless_refused env net provider r ready effect answer =
    if nat_beq answer.status_code (refusal provider.auth.type)
    then after_refusal env net provider r ready effect answer
    else pure answer

-- `_session_send`
unfoldable pub session_send :
    Env → Net → Provider → Request → Ready → Effect → Op Wire Stop RawResponse
unfolding take_session send_with replay session_key dict_del
session_send env net provider r ready effect = do
  credential ← take_session env net provider ready
  answer ← send_with env net provider r ready credential
  unless_refused env net provider r ready effect answer

unfoldable pub plain_send : Env → Net → Provider → Request → Ready → Op Wire Stop RawResponse
unfolding auth_headers exchange
plain_send env net provider r ready = do
  credential ← lift (auth_headers env provider.auth)
  exchange env net ready provider r credential

abbrev pub send_ready : Env → Net → Provider → Request → Effect → Ready → Op Wire Stop RawResponse
send_ready env net provider r effect ready =
    if holds_session provider.auth.type
    then session_send env net provider r ready effect
    else plain_send env net provider r ready

-- `_send`
unfoldable pub send : Env → Net → Provider → Request → Effect → Op Wire Stop RawResponse
unfolding prepare session_send plain_send
send env net provider r effect = do
  ready ← lift (prepare env provider r effect)
  send_ready env net provider r effect ready

abbrev pub reply_of : Env → Result Stop RawResponse → Reply
reply_of env (ok r) = response r
reply_of env (err (stopped e)) = refused e
reply_of env (err (crashed name)) =
    refused (fail env connection (codes "internal error: " ++ name) none false)

-- `confined_request`
unfoldable pub confined_request : Env → Net → Provider → Request → Effect → Wire → Reply × Wire
unfolding send
confined_request env net provider r effect st =
    let p = send env net provider r effect st in (reply_of env p.0, p.1)
