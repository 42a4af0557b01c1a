-- ===== src/Runner/Fetch.antt =====
-- `Fetch` of worlds/runner.py, what a `Runner` keeps, and what it calls.
use personal_world.Prelude.{ℕ, String, Text, Bool, false, Option, none, some, List}
use personal_world.Value.{Value, null}
use personal_world.Config.Models.{Request, Provider, Method}
use personal_world.Config.Store.{ConfigStore}
use personal_world.Mapping.Path.{Digits, PathError}
use personal_world.Runner.Redact.{TextOps, redact}
use personal_world.Dispatch.Rows.{ErrorClass, RawResponse, ConfinementError}

pub record Fetch : Type 0 where
  pub request_id : String
  pub method : Option Method
  pub path : Option String
  pub ok : Bool
  pub content : Value  -- `data`; `None` is `null`
  pub error_class : Option ErrorClass
  pub status_code : Option ℕ
  pub duration_ms : Option ℕ
  pub fetched_at : Option ℕ
  pub from_cache : Bool
  pub note : Text

-- What the call of `send` gives; an exception or a stranger is known by its text.
pub data Answer : Type 0 where
  response : RawResponse → Answer
  refused : ConfinementError → Answer
  stranger raised : Text → Answer

-- What `json.loads` gives of a text, or the exception: a ValueError, or a RecursionError where
-- the text is nested too deeply
pub data Loaded : Type 0 where
  loaded_as : Value → Loaded
  not_json nested_too_deeply : Loaded

-- What leaves `fetch` as an exception
pub data Raised : Type 0 where
  path_raised : PathError → Raised
  recursion_error : Raised

-- Python's bytes, json and str
pub record Python : Type 0 where
  pub decode : List ℕ → Option Text  -- `bytes(body or b"").decode("utf-8")`, none on an error
  pub loads : Text → Loaded
  pub equal : Value → Value → Bool  -- `==` of two documents
  pub repr : String → Text  -- `{s!r}`
  pub number : ℕ → Text  -- `{n}`
  pub path_error : String → Text  -- `str(exc)` of the MappingError of a path

-- `__init__`, without the cache directory
pub record Runner : Type 0 where
  pub store : ConfigStore
  pub send : List (Provider × Request) → Provider → Request → Answer  -- it may answer by what was sent before
  pub secrets : List Text
  pub text : TextOps
  pub python : Python
  pub digits : Digits

pub record Kept : Type 0 where
  pub cache : List (String × Fetch)
  pub last_good : List (String × (Value × Option ℕ))
  pub sends : List (Provider × Request)  -- what was given to `send`, the latest first

-- The readings of the clock in one call
pub record Clock : Type 0 where
  pub on_cache : ℕ
  pub on_send : ℕ
  pub on_failure : ℕ

-- `_failure`
unfoldable pub failure :
    Runner → ℕ → String → ErrorClass → Text → Option Method → Option String → Fetch
unfolding redact
failure r at request_id error_class note method path = record {
  request_id = request_id;
  method = method;
  path = path;
  ok = false;
  content = null;
  error_class = some error_class;
  status_code = none;
  duration_ms = none;
  fetched_at = some at;
  from_cache = false;
  note = redact r.text note r.secrets;
}
