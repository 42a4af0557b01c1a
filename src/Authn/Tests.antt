-- ===== src/Authn/Tests.antt =====
-- Sessions and tokens at concrete inputs.
use personal_world.Prelude.{any, all, same_text, ◌⊎◌, none, some, [], ◌∷◌, refl, codes}
use personal_world.Authn.Principal.{Principal, agent, token}
use personal_world.Authn.Sessions.{Session, AgentToken, AuthDb, AuthOps, find_session, get_session}
use personal_world.Authn.Requests.{
  Auth, HttpRequest, authenticate, check_csrf, changes, compare_digest, owner_of,
}
use personal_world.Authn.Callers.{ByToken, BySession, authenticate_sound}

abbrev ops : AuthOps
ops = record {
  h = λ t. "h";
  sorted_set = λ s. s;
  split3 = λ t. some (codes "pwa", "t1", codes "s");
}

abbrev sitting : Session
sitting = record {
  id_hash = "h";
  principal = "owner";
  method = "oidc";
  created_at = 0;
  last_seen_at = 10;
  expires_at = 604800;
  step_up_at = none;
  binding = "me";
}

abbrev helper : AgentToken
helper = record {
  id = "t1";
  name = "helper";
  token_hash = "h";
  scopes = [];
  created_at = 0;
  expires_at = none;
  revoked_at = none;
}

abbrev db : AuthDb
db = record { sessions = sitting ∷ []; agent_tokens = helper ∷ [] }

abbrev caller : Principal
caller = record {
  kind = agent;
  id = "t1";
  scopes = [];
  session_hash = none;
  step_up_at = none;
  via = token;
}

abbrev auth : Auth
auth = record {
  ops = ops;
  request_ops = record {
    partition = λ t. (t, []);
    lower = λ t. t;
    strip = λ t. t;
    rstrip_slash = λ t. t;
    csrf_token = λ sid. codes "token";
  };
  allowed_origins = codes "https://home.example" ∷ [];
  binding = "me";
}

abbrev click : HttpRequest
click = record {
  method = "POST";
  authorization = none;
  session_cookie = some (codes "sid");
  origin = some (codes "https://home.example");
  csrf_header = some (codes "token");
  csrf_cookie = some (codes "token");
}

authenticate_sound_example :
    ByToken auth click 40 db (owner_of sitting) ⊎ BySession auth click 40 db (owner_of sitting)
unfolding authenticate check_csrf changes get_session find_session same_text compare_digest any all
authenticate_sound_example = authenticate_sound auth click 40 db (owner_of sitting) refl
