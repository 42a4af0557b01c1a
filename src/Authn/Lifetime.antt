-- ===== src/Authn/Lifetime.antt =====
-- How long a session and a token last.
use text.Mathlib.TextEquality.{eq_iff}
use personal_world.Prelude.{
  ℕ, ◌+◌, ◌≤◌, ◌<◌, none, some, String, Text, List, [], ◌∷◌, ◌≡◌, arith, Option-cases, inl, inr,
  refl, string_eq,
}
use personal_world.Table.{delete_where}
use personal_world.Authn.Principal.{Principal, agent, token}
use personal_world.Authn.Sessions.{
  Session, AgentToken, AuthDb, AuthOps, idle_seconds, under, find_session, invalidate, get_session,
  find_token, verify,
}

-- A session is answered only under the hash of its id, before its end, within the idle time and for the
-- current owner identity.
pub get_session_sound :
    (ops : AuthOps) (binding : String) (sid : Text) (now : ℕ) (db : AuthDb) {s : Session}
    → (get_session ops binding (some sid) now db).0 ≡ some s
    → (find_session (ops.h sid) db.sessions ≡ some s)
      × (now < s.expires_at)
      × (now ≤ s.last_seen_at + idle_seconds)
      × (s.binding ≡ binding)
unfolding get_session
get_session_sound ops binding [] now db h = absurd (ground arith)
get_session_sound ops binding (c ∷ sid) now db {s} h =
    elim (Option-cases (find_session (ops.h (c ∷ sid)) db.sessions)) [
      | inl e ↦ absurd (ground (arith, e))
      | inr (t, e) ↦ ground (arith, e, eq_iff t.binding binding)
    ]

find-delete :
    (hash : String) (rows : List Session)
    → find_session hash (delete_where (under hash) rows) ≡ none
unfolding find_session delete_where
find-delete hash [] = refl
find-delete hash (s ∷ rest) = ground (arith, find-delete hash rest)

-- After `invalidate` the session is answered to nobody, whatever the clock says.
invalidated_is_gone :
    (ops : AuthOps) (binding : String) (sid : Text) (now : ℕ) (db : AuthDb)
    → (get_session ops binding (some sid) now (invalidate ops sid db)).0 ≡ none
unfolding get_session invalidate
invalidated_is_gone ops binding [] now db = refl
invalidated_is_gone ops binding (c ∷ sid) now db =
    ground (arith, find-delete (ops.h (c ∷ sid)) db.sessions)

-- The agent that a token stands for: the token was issued under the id that stands in the text,
-- its hash is that of the text, it is neither revoked nor lapsed, and the agent has its id and
-- its scopes.
pub record IsTokenOf (ops : AuthOps) (text : Text) (now : ℕ) (db : AuthDb) (p : Principal)
    : Type 0 where
  pub row : AgentToken
  pub parts : Text × String × Text
  pub split : ops.split3 text ≡ some parts
  pub found : find_token parts.1 db.agent_tokens ≡ some row
  pub hashed : ops.h text ≡ row.token_hash
  pub not_revoked : row.revoked_at ≡ none
  pub not_lapsed : (at : ℕ) → row.expires_at ≡ some at → now < at
  pub is_agent : p.kind ≡ agent
  pub by_token : p.via ≡ token
  pub same_id : p.id ≡ row.id
  pub same_scopes : p.scopes ≡ row.scopes
  pub no_session : p.session_hash ≡ none
  pub no_step_up : p.step_up_at ≡ none

-- A token is accepted only as the agent that it stands for.
pub verify_sound :
    (ops : AuthOps) (text : Text) (now : ℕ) (db : AuthDb) {p : Principal}
    → verify ops (some text) now db ≡ some p
    → IsTokenOf ops text now db p
unfolding verify
verify_sound ops text now db h = elim (Option-cases (ops.split3 text)) [
  | inl e ↦ absurd (ground (arith, h, e))
  | inr (parts, e) ↦ elim (Option-cases (find_token parts.1 db.agent_tokens)) [
    | inl f ↦ absurd (ground (arith, h, e, f))
    | inr (t, f) ↦ record {
      row = t;
      parts = parts;
      split = e;
      found = f;
      hashed = ground (arith, h, e, f, eq_iff (ops.h text) t.token_hash);
      not_revoked = ground (arith, h, e, f);
      not_lapsed = λ at g. ground (arith, h, e, f, g);
      is_agent = ground (arith, h, e, f);
      by_token = ground (arith, h, e, f);
      same_id = ground (arith, h, e, f);
      same_scopes = ground (arith, h, e, f);
      no_session = ground (arith, h, e, f);
      no_step_up = ground (arith, h, e, f);
    }
  ]
]
