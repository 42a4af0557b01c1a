-- ===== src/Dispatch/Rows.antt =====
-- The three tables of worlds/dispatcher.py, its exceptions, and the dispatcher's own settings.
-- A `uuid4().hex` is the 128-bit number that it spells; a time is a number of seconds.
use personal_world.Prelude.{ℕ, String, Text, Bool, Option, List}
use personal_world.Value.{Value}
use personal_world.Config.Models.{Provider, Request, Method, Effect}
use personal_world.Config.Store.{ConfigStore}
use personal_world.Runner.Redact.{TextOps}

pub data AuthState : Type 0 where
  pending approved denied expired invalidated consumed : AuthState

-- The texts `policy:never`, `worlds_owner` and `project_home:<approval id>`.
pub data Authority : Type 0 where
  policy_never worlds_owner : Authority
  project_home : String → Authority

pub record Authorization : Type 0 where
  pub id : ℕ
  pub action_id : String
  pub action_version : String
  pub caller : String
  pub destination : Text
  pub params_hash : String
  pub params_json : String
  pub created_at : ℕ
  pub expires_at : ℕ
  pub state : AuthState
  pub authority : Option Authority
  pub approved_at : Option ℕ
  pub approved_by : Option String
  pub step_up_at : Option ℕ
  pub idempotency_key : Option String
  pub retry_of : Option ℕ
  pub previous_may_have_run : Bool

pub data ExecState : Type 0 where
  intent dispatching succeeded failed unknown : ExecState

pub data ErrorClass : Type 0 where
  timeout connection http_4xx http_5xx redirect_refused too_large confinement_denied auth_failed :
      ErrorClass
  malformed : ErrorClass

-- The document that is stored as `evidence_redacted`.
pub record Evidence : Type 0 where
  pub method : Option Method
  pub path : Option String
  pub status_code : Option ℕ
  pub error_class : Option ErrorClass
  pub duration_ms : Option ℕ
  pub note : Text  -- [] where the key is left out
  pub summary : Text  -- likewise

pub record Execution : Type 0 where
  pub id : ℕ
  pub authorization_id : ℕ
  pub intent_at : ℕ
  pub dispatch_started_at : Option ℕ
  pub finished_at : Option ℕ
  pub state : ExecState
  pub status_code : Option ℕ
  pub evidence : Option Evidence
  pub idempotency_key : Option String
  pub owner_id : Option ℕ

pub record Lease : Type 0 where
  pub instance_id : ℕ
  pub heartbeat : ℕ
  pub pid : Option ℕ
  pub boot_id : Option String
  pub started : Option String
  pub host : Option String

pub record Db : Type 0 where
  pub authorizations : List Authorization
  pub executions : List Execution
  pub leases : List Lease

-- Why an authorization cannot be consumed: the texts of `NotConsumable.reason`.
pub data Reason : Type 0 where
  authorization_is : AuthState → Reason
  authorization_expired action_changed not_configured bad_params_hash still_in_progress : Reason

-- The exceptions; `integrity` is `sqlite3.IntegrityError`.
pub data Error : Type 0 where
  not_permitted bad_request settled_before_send integrity : Error
  not_consumable : Reason → Error

-- What Python's json, hashlib and str give.
pub record Codec : Type 0 where
  pub dumps : Value → String  -- `canonical_json`
  pub loads : String → Value  -- `json.loads` of a stored text
  pub sha256 : Text → String  -- of the encoded text, `.hexdigest()`
  pub size : String → ℕ  -- `len(s.encode())`
  pub printable : String → Bool  -- `s.isprintable()`
  pub decode : List ℕ → Option Value  -- a body, decoded and parsed; none on ValueError

-- A `RawResponse` or `ConfinementError` of worlds/confinement.py, or a sender that raised.
pub record RawResponse : Type 0 where
  pub status_code : ℕ
  pub headers : List (String × String)
  pub body : List ℕ
  pub duration_ms : ℕ

pub record ConfinementError : Type 0 where
  pub error_class : ErrorClass
  pub note : Text
  pub status_code : Option ℕ
  pub duration_ms : Option ℕ
  pub pre_send : Bool

pub data Reply : Type 0 where
  response : RawResponse → Reply
  refused : ConfinementError → Reply
  other : Reply

pub data Sending : Type 0 where
  returned : Reply → Sending
  raised : Text → Sending  -- the exception's type name

-- One network attempt, for an execution.
pub record Attempt : Type 0 where
  pub execution : ℕ
  pub provider : Provider
  pub request : Request
  pub effect : Effect

pub record Identity : Type 0 where
  pub boot : String
  pub pid : ℕ
  pub started : String
  pub host : String

pub record Dispatcher : Type 0 where
  pub store : ConfigStore
  pub send : List Attempt → Attempt → Sending  -- it may answer by what was sent before
  pub secrets : List Text
  pub ph_governs : Provider → Bool
  pub ph_verify : Option (String → Authorization → Bool)
  pub ttl : ℕ
  pub identity : Identity
  pub instance_id : ℕ
  pub codec : Codec
  pub text : TextOps

abbrev pub max_params_bytes : ℕ
max_params_bytes = 8192

abbrev pub lease_ttl_s : ℕ
lease_ttl_s = 30

abbrev pub lease_renew_s : ℕ
lease_renew_s = 10
