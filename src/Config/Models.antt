-- ===== src/Config/Models.antt =====
-- The configuration records of worlds/models.py, with what they decide.
use personal_world.Prelude.{
  ℕ, String, Bool, true, false, Option, none, some, List, ◌&&◌, not, if◌then◌else◌,
}
use personal_world.Value.{Value}

pub data AuthType : Type 0 where
  no_auth bearer header basic cookie_session password_grant : AuthType

pub record Auth : Type 0 where
  pub type : AuthType
  pub header_name : Option String
  pub secret_ref : Option String
  pub login_path : Option String
  pub username_field : String
  pub password_field : String
  pub token_path : Option String
  pub token_field : String

pub record Network : Type 0 where
  pub lan : Bool

pub data ProviderKind : Type 0 where
  http room0 reference : ProviderKind

pub data Governance : Type 0 where
  worlds project_home : Governance

pub record Provider : Type 0 where
  pub id : String
  pub kind : ProviderKind
  pub base_url : String
  pub path_prefix : String
  pub auth : Auth
  pub network : Network
  pub governance : Option Governance
  pub principal_id : Option String
  pub tls_verify : Bool
  pub max_bytes : ℕ

abbrev pub is_room0 : ProviderKind → Bool
is_room0 room0 = true
is_room0 _ = false

abbrev governs : Option Governance → ProviderKind → Bool
governs (some project_home) k = true
governs (some worlds) k = false
governs none k = is_room0 k

unfoldable pub governed_by_project_home : Provider → Bool
governed_by_project_home p = governs p.governance p.kind

pub data Method : Type 0 where
  get head post put patch delete : Method

pub data EffectSetting : Type 0 where
  auto read write : EffectSetting

pub data Effect : Type 0 where
  reads writes : Effect

pub record Assertion : Type 0 where
  pub status : Option ℕ
  pub path : Option String
  pub exists : Option Bool
  pub is_list : Option Bool
  pub equals : Value

pub record Request : Type 0 where
  pub id : String
  pub provider : String
  pub method : Method
  pub path : String
  pub query : List (String × String)
  pub headers : List (String × String)
  pub body : Option Value
  pub effect : EffectSetting
  pub known_safe : Bool
  pub ttl_s : ℕ
  pub timeout_s : Option ℕ
  pub assertions : List Assertion

-- `self.method in ("GET", "HEAD")`
abbrev pub get_or_head : Method → Bool
get_or_head get = true
get_or_head head = true
get_or_head _ = false

abbrev base_effect : Method → Effect
base_effect m = if get_or_head m then reads else writes

abbrev resolve_setting : EffectSetting → Method → Bool → Effect
resolve_setting write m safe = writes
resolve_setting read m safe = if not (get_or_head m) && not safe then writes else reads
resolve_setting auto m safe = base_effect m

unfoldable pub resolved_effect : Request → Effect
resolved_effect r = resolve_setting r.effect r.method r.known_safe

-- `effect == "write"`
abbrev pub is_write : Effect → Bool
is_write writes = true
is_write reads = false

pub data Access : Type 0 where
  read_access write_access : Access

pub data Approval : Type 0 where
  never always : Approval

pub data Idempotency : Type 0 where
  required optional none_allowed : Idempotency

pub record Action : Type 0 where
  pub id : String
  pub request : String
  pub name : String
  pub access : Access
  pub approval : Approval
  pub scope : String
  pub idempotency : Idempotency
  pub exposed : Bool
  pub owner_waives_approval : Bool

-- What `action_version` hashes: the action, the request and the provider's destination.
pub record Payload : Type 0 where
  pub action : Action
  pub request : Request
  pub provider_id : String
  pub provider_kind : ProviderKind
  pub base_url : String
  pub path_prefix : String
  pub auth : Auth
  pub network : Network
  pub tls_verify : Bool

unfoldable pub action_version : (Payload → String) → Action → Request → Provider → String
action_version digest action request provider = digest (record {
  action = action;
  request = request;
  provider_id = provider.id;
  provider_kind = provider.kind;
  base_url = provider.base_url;
  path_prefix = provider.path_prefix;
  auth = provider.auth;
  network = provider.network;
  tls_verify = provider.tls_verify;
})
