-- ===== src/Authn/Sessions.antt =====
-- `SessionStore` and `AgentTokenStore` of worlds/authn.py.
use personal_world.Prelude.{
  ℕ, ◌+◌, Bool, true, false, Option, none, some, String, Text, List, [], ◌∷◌, ◌++◌, ◌&&◌, ◌||◌, not,
  ltb, leb, ◌==◌, string_eq, length, codes, starts_with, if◌then◌else◌,
}
use personal_world.Tx.{ok, err, Op, write_tx}
use personal_world.Table.{delete_where, update_where, count_where}
use personal_world.Authn.Principal.{Principal, agent, token}

-- A row of `sessions`; its principal and method play no part in the checks.
pub record Session : Type 0 where
  pub id_hash : String
  pub principal : String
  pub method : String
  pub created_at : ℕ
  pub last_seen_at : ℕ
  pub expires_at : ℕ
  pub step_up_at : Option ℕ
  pub binding : String

-- A row of `agent_tokens`.
pub record AgentToken : Type 0 where
  pub id : String
  pub name : String
  pub token_hash : String
  pub scopes : List String
  pub created_at : ℕ
  pub expires_at : Option ℕ
  pub revoked_at : Option ℕ

pub record AuthDb : Type 0 where
  pub sessions : List Session
  pub agent_tokens : List AgentToken

-- sha256 on text, `sorted(set(...))`, and `token.split("_", 2)` with its three parts, if there
-- are three.
pub record AuthOps : Type 0 where
  pub h : Text → String
  pub sorted_set : List String → List String
  pub split3 : Text → Option (Text × String × Text)

-- `sqlite3.IntegrityError`
pub data AuthError : Type 0 where
  integrity : AuthError

abbrev pub idle_seconds : ℕ
idle_seconds = 43200

abbrev pub absolute_seconds : ℕ
absolute_seconds = 604800

abbrev pub under : String → Session → Bool
under hash s = s.id_hash == hash

unfoldable pub find_session : String → List Session → Option Session
find_session hash [] = none
find_session hash (s ∷ rest) =
    let later = find_session hash rest in if under hash s then some s else later

abbrev insert_session : Session → Option Session → Op AuthDb AuthError (Unit {0})
insert_session s none db = (ok tt, record db { sessions = db.sessions ++ s ∷ [] })
insert_session s (some t) db = (err integrity, db)

-- `SessionStore.create`, with the random id
unfoldable pub create :
    AuthOps → String → String → String → Text → ℕ → Op AuthDb AuthError (Unit {0})
unfolding write_tx find_session
create ops binding principal method sid now = write_tx λ db.
    insert_session
      (record {
        id_hash = ops.h sid;
        principal = principal;
        method = method;
        created_at = now;
        last_seen_at = now;
        expires_at = now + absolute_seconds;
        step_up_at = none;
        binding = binding;
      })
      (find_session (ops.h sid) db.sessions) db

-- `SessionStore.invalidate`
unfoldable pub invalidate : AuthOps → Text → AuthDb → AuthDb
invalidate ops sid db = record db { sessions = delete_where (under (ops.h sid)) db.sessions }

-- `SessionStore.invalidate_all`
unfoldable pub invalidate_sessions : AuthDb → AuthDb
invalidate_sessions db = record db { sessions = [] }

-- The session has expired, was idle too long, or belongs to another owner identity.
abbrev pub is_over : String → ℕ → Session → Bool
is_over binding now s =
    leb s.expires_at now || ltb (s.last_seen_at + idle_seconds) now || not (s.binding == binding)

abbrev touch : String → ℕ → AuthDb → AuthDb
touch hash now db = record db {
  sessions = update_where (under hash) (λ s. record s { last_seen_at = now }) db.sessions;
}

abbrev pub checked : AuthOps → String → Text → ℕ → Option Session → AuthDb → Option Session × AuthDb
checked ops binding sid now none db = (none, db)
checked ops binding sid now (some s) db =
    if is_over binding now s
    then (none, invalidate ops sid db)
    else if ltb (s.last_seen_at + 60) now
    then (some s, touch s.id_hash now db)
    else (some s, db)

-- `SessionStore.get`
unfoldable pub get_session : AuthOps → String → Option Text → ℕ → AuthDb → Option Session × AuthDb
unfolding find_session invalidate
get_session ops binding none now db = (none, db)
get_session ops binding (some []) now db = (none, db)
get_session ops binding (some (c ∷ sid)) now db =
    if ltb 200 (length (c ∷ sid))
    then (none, db)
    else checked ops binding (c ∷ sid) now (find_session (ops.h (c ∷ sid)) db.sessions) db

-- `SessionStore.mark_step_up`, with `rowcount == 1`
unfoldable pub mark_step_up : AuthOps → Text → ℕ → AuthDb → ℕ × AuthDb
mark_step_up ops sid now db = (
  count_where (under (ops.h sid)) db.sessions,
  record db {
    sessions =
        update_where (under (ops.h sid)) (λ s. record s { step_up_at = some now }) db.sessions;
  },
)

abbrev pub token_under : String → AgentToken → Bool
token_under tid t = t.id == tid

unfoldable pub find_token : String → List AgentToken → Option AgentToken
find_token tid [] = none
find_token tid (t ∷ rest) =
    let later = find_token tid rest in if token_under tid t then some t else later

abbrev insert_token : AgentToken → Option AgentToken → Op AuthDb AuthError (Unit {0})
insert_token t none db = (ok tt, record db { agent_tokens = db.agent_tokens ++ t ∷ [] })
insert_token t (some u) db = (err integrity, db)

-- `now + ttl_s if ttl_s else None`
abbrev until : ℕ → Option ℕ → Option ℕ
until now none = none
until now (some ℕ.zero) = none
until now (some (ℕ.suc n)) = some (now + ℕ.suc n)

-- `AgentTokenStore.create`, with the random id and the token that is made of it
unfoldable pub create_token :
    AuthOps → String → List String → Option ℕ → String → Text → ℕ → Op AuthDb AuthError (Unit {0})
unfolding write_tx find_token
create_token ops name scopes ttl tid secret now = write_tx λ db.
    insert_token
      (record {
        id = tid;
        name = name;
        token_hash = ops.h (codes "pwa_" ++ codes tid ++ codes "_" ++ secret);
        scopes = ops.sorted_set scopes;
        created_at = now;
        expires_at = until now ttl;
        revoked_at = none;
      })
      (find_token tid db.agent_tokens) db

abbrev pub is_revoked : AgentToken → Bool
is_revoked t = elim (t.revoked_at) [ none ↦ false | some at ↦ true ]

abbrev pub has_lapsed : ℕ → AgentToken → Bool
has_lapsed now t = elim (t.expires_at) [ none ↦ false | some at ↦ leb at now ]

abbrev principal_of : AgentToken → Principal
principal_of t = record {
  kind = agent;
  id = t.id;
  scopes = t.scopes;
  session_hash = none;
  step_up_at = none;
  via = token;
}

abbrev pub verified : AuthOps → Text → ℕ → Option AgentToken → Option Principal
verified ops text now none = none
verified ops text now (some t) =
    if not (ops.h text == t.token_hash) || is_revoked t
    then none
    else if has_lapsed now t
    then none
    else some (principal_of t)

abbrev by_parts : AuthOps → Text → ℕ → AuthDb → Option (Text × String × Text) → Option Principal
by_parts ops text now db none = none
by_parts ops text now db (some p) = verified ops text now (find_token p.1 db.agent_tokens)

-- `AgentTokenStore.verify`
unfoldable pub verify : AuthOps → Option Text → ℕ → AuthDb → Option Principal
unfolding find_token starts_with
verify ops none now db = none
verify ops (some text) now db =
    if ltb 300 (length text) || not (starts_with text (codes "pwa_"))
    then none
    else by_parts ops text now db (ops.split3 text)

abbrev live_token : String → AgentToken → Bool
live_token tid t = token_under tid t && not (is_revoked t)

-- `AgentTokenStore.revoke`, with the row count
unfoldable pub revoke : String → ℕ → AuthDb → ℕ × AuthDb
revoke tid now db = (
  count_where (live_token tid) db.agent_tokens,
  record db {
    agent_tokens =
        update_where (live_token tid) (λ t. record t { revoked_at = some now }) db.agent_tokens;
  },
)
