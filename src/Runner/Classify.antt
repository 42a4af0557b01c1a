-- ===== src/Runner/Classify.antt =====
-- `_classify`, `_parse_body`, `_check_assertions` and `_send_once` of worlds/runner.py.
use personal_world.Prelude.{
  ℕ, String, Text, Bool, true, false, Option, none, some, List, [], ◌∷◌, ◌++◌, ◌&&◌, ◌||◌, not, all,
  leb, ltb, codes, ◌==◌, nat_eq, if◌then◌else◌,
}
use personal_world.Value.{Value, null, str, arr}
use personal_world.Tx.{Result, ok, err}
use personal_world.Config.Models.{Request, Provider, Assertion}
use personal_world.Mapping.Path.{PathError, mapping_error}
use personal_world.Mapping.Resolve.{resolve, Resolved}
use personal_world.Runner.Redact.{redact}
use personal_world.Runner.Fetch.{
  Loaded, loaded_as, not_json, nested_too_deeply, Raised, path_raised, recursion_error, Fetch,
  Answer, response, refused, stranger, raised, Python, Runner, Kept, failure,
}
use personal_world.Dispatch.Rows.{
  ErrorClass, auth_failed, http_4xx, http_5xx, malformed, connection, RawResponse,
}

-- The parsed body, or why it is not usable: the code tells the two apart by `isinstance(data, str)`.
pub data Body : Type 0 where
  parsed : Value → Body
  unusable : Text → Body
  overflow : Body  -- the RecursionError, which is not caught

abbrev pub by_type : Value → Body
by_type (str s) = unusable (codes s)
by_type v = parsed v

abbrev pub loaded : Loaded → Body
loaded not_json = unusable (codes "response body is not valid JSON")
loaded nested_too_deeply = overflow
loaded (loaded_as v) = by_type v

abbrev pub decoded : Python → Option Text → Body
decoded p none = unusable (codes "response body is not valid UTF-8")
decoded p (some t) = loaded (p.loads t)

-- `_parse_body`, with the test of its answer
unfoldable pub parse_body : Python → List ℕ → Body
parse_body p body = decoded p (p.decode body)

abbrev pub is_arr : Value → Bool
is_arr (arr vs) = true
is_arr v = false

abbrev pub truthy : Option Bool → Bool
truthy none = false
truthy (some b) = b

abbrev pub is_null : Value → Bool
is_null null = true
is_null v = false

abbrev pub is_nil : List Value → Bool
is_nil [] = true
is_nil (v ∷ vs) = false

-- `found != [assertion.equals]`, negated
abbrev pub is_only : Python → Value → List Value → Bool
is_only p v (w ∷ []) = p.equal w v
is_only p v vs = false

-- The tests at a path that resolved
unfoldable pub check_found : Runner → Assertion → String → Resolved → Option Text
unfolding all
check_found r a path res =
    let fails = codes "assertion failed: " ++ codes path in
    if truthy a.exists && not res.found
    then some (fails ++ codes " is missing")
    else if truthy a.is_list && (is_nil res.values || not (all is_arr res.values))
    then some (fails ++ codes " is not a list")
    else if not (is_null a.equals) && not (is_only r.python a.equals res.values)
    then some (fails ++ codes " is not the expected value")
    else none

-- Only `MappingError` is caught.
abbrev pub check_resolved :
    Runner → Assertion → String → Result PathError Resolved → Result PathError (Option Text)
check_resolved r a path (ok res) = ok (check_found r a path res)
check_resolved r a path (err mapping_error) =
    ok (some (codes "assertion failed: " ++ r.python.path_error path))
check_resolved r a path (err e) = err e

abbrev pub check_path : Runner → Value → Assertion → Option String → Result PathError (Option Text)
check_path r doc a none = ok none
check_path r doc a (some path) = check_resolved r a path (resolve r.digits doc (codes path))

abbrev pub wrong_status : Option ℕ → ℕ → Bool
wrong_status none status = false
wrong_status (some n) status = not (n == status)

abbrev status_text : Option ℕ → Runner → Text
status_text none r = []
status_text (some n) r = r.python.number n

-- One round of the loop: the failure of one assertion
unfoldable pub check_assertion : Runner → ℕ → Value → Assertion → Result PathError (Option Text)
unfolding resolve check_found
check_assertion r status doc a =
    if wrong_status a.status status
    then ok (
        some (
          codes "assertion failed: status is "
          ++ (r.python.number status ++ (codes ", expected " ++ status_text a.status r))))
    else check_path r doc a a.path

abbrev pub or_next :
    Result PathError (Option Text) → Result PathError (Option Text) → Result PathError (Option Text)
or_next (err e) rest = err e
or_next (ok (some failed)) rest = ok (some failed)
or_next (ok none) rest = rest

-- `_check_assertions`
unfoldable pub check_assertions :
    Runner → ℕ → Value → List Assertion → Result PathError (Option Text)
unfolding check_assertion
check_assertions r status doc [] = ok none
check_assertions r status doc (a ∷ rest) =
    or_next (check_assertion r status doc a) (check_assertions r status doc rest)

-- A `Fetch` of the facts of a response
unfoldable pub fetch_of : String → Request → RawResponse → ℕ → Fetch
fetch_of request_id request resp now = record {
  request_id = request_id;
  method = some request.method;
  path = some request.path;
  ok = false;
  content = null;
  error_class = none;
  status_code = some resp.status_code;
  duration_ms = some resp.duration_ms;
  fetched_at = some now;
  from_cache = false;
  note = [];
}

abbrev pub with_class : ErrorClass → Text → Fetch → Fetch
with_class c note f = record f { error_class = some c; note = note }

abbrev pub with_verdict :
    Runner → Value → Fetch → Result PathError (Option Text) → Result Raised Fetch
with_verdict r doc f (err e) = err (path_raised e)
with_verdict r doc f (ok (some failed)) =
    ok (with_class malformed (redact r.text failed r.secrets) f)
with_verdict r doc f (ok none) = ok (record f { ok = true; content = doc })

abbrev pub with_body : Runner → Request → ℕ → Fetch → Body → Result Raised Fetch
with_body r request status f (unusable why) =
    ok (with_class malformed (redact r.text why r.secrets) f)
with_body r request status f overflow = err recursion_error
with_body r request status f (parsed doc) =
    with_verdict r doc f (check_assertions r status doc request.assertions)

-- `_classify`
unfoldable pub classify : Runner → String → Request → RawResponse → ℕ → Result Raised Fetch
unfolding fetch_of parse_body check_assertions redact
classify r request_id request resp now =
    let status = resp.status_code in
    let facts = fetch_of request_id request resp now in
    if (status == 401) || (status == 403)
    then ok (with_class auth_failed [] facts)
    else if leb 400 status && ltb status 500
    then ok (with_class http_4xx [] facts)
    else if leb 500 status
    then ok (with_class http_5xx [] facts)
    else with_body r request status facts (parse_body r.python resp.body)

-- What `_send_once` makes of the answer
unfoldable pub read_answer : Runner → String → Request → ℕ → Answer → Result Raised Fetch
unfolding classify failure redact
read_answer r request_id request now (raised text) =
    ok (failure r now request_id connection text (some request.method) (some request.path))
read_answer r request_id request now (refused e) = ok (record {
  request_id = request_id;
  method = some request.method;
  path = some request.path;
  ok = false;
  content = null;
  error_class = some e.error_class;
  status_code = e.status_code;
  duration_ms = e.duration_ms;
  fetched_at = some now;
  from_cache = false;
  note = redact r.text e.note r.secrets;
})
read_answer r request_id request now (stranger type) = ok (
    failure r now request_id connection
      (codes "send returned " ++ (type ++ codes ", not a response")) (some request.method)
      (some request.path))
read_answer r request_id request now (response resp) = classify r request_id request resp now

-- `_send_once`
unfoldable pub send_once :
    Runner → String → Provider → Request → ℕ → Kept → Result Raised Fetch × Kept
unfolding read_answer
send_once r request_id provider request now st = (
  read_answer r request_id request now (r.send st.sends provider request),
  record st { sends = (provider, request) ∷ st.sends },
)
