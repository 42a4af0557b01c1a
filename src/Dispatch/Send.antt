-- ===== src/Dispatch/Send.antt =====
-- What `execute` of worlds/dispatcher.py sends, and what it makes of the answer.
use personal_world.Prelude.{
  ℕ, String, Text, Bool, true, false, Option, none, some, List, [], ◌∷◌, ◌++◌, ◌&&◌, ◌==◌, nat_eq,
  string_eq, take, codes, if◌then◌else◌,
}
use personal_world.Value.{Value}
use personal_world.Config.Models.{Request, Provider, is_room0}
use personal_world.Runner.Redact.{redact}
use personal_world.Dispatch.Rows.{
  ExecState, succeeded, Evidence, connection, Reply, response, refused, other, ConfinementError,
  Sending, returned, raised, Dispatcher, ErrorClass,
}
use personal_world.Dispatch.Outcome.{Outcome, classify_outcome, RoomReceipt, room_receipt}
use personal_world.Dispatch.Request.{has_params}

-- `{**headers, name: value}`
unfoldable pub set_header : String → String → List (String × String) → List (String × String)
set_header name value [] = (name, value) ∷ []
set_header name value ((n, v) ∷ rest) =
    if n == name then (name, value) ∷ rest else (n, v) ∷ set_header name value rest

abbrev with_key : Option String → Request → Request
with_key none r = r
with_key (some k) r =
    if k == "" then r else record r { headers = set_header "Idempotency-Key" k r.headers }

-- `request.model_copy(update=updates)`
unfoldable pub request_to_send : Value → Option String → Request → Request
unfolding set_header
request_to_send params key r =
    with_key key (if has_params params then record r { body = some params } else r)

-- An exception of the sender counts as a connection error.
abbrev sender_error : Text → ConfinementError
sender_error name = record {
  error_class = connection;
  note = codes "sender error: " ++ name;
  status_code = none;
  duration_ms = none;
  pre_send = false;
}

abbrev pub reply_of : Sending → Reply
reply_of (returned r) = r
reply_of (raised name) = refused (sender_error name)

-- The state, status, error class and summary that are recorded.
pub record Verdict : Type 0 where
  pub state : ExecState
  pub status_code : Option ℕ
  pub error_class : Option ErrorClass
  pub summary : Option Text

abbrev plain_verdict : Outcome → Verdict
plain_verdict o = record {
  state = o.state;
  status_code = o.status_code;
  error_class = o.error_class;
  summary = none;
}

abbrev room_verdict : Outcome → RoomReceipt → Verdict
room_verdict o r = record {
  state = r.state;
  status_code = o.status_code;
  error_class = r.error_class;
  summary = r.summary;
}

abbrev pub is_succeeded : ExecState → Bool
is_succeeded succeeded = true
is_succeeded _ = false

abbrev read_receipt : Dispatcher → Provider → Outcome → Reply → Verdict
read_receipt d p o (response r) =
    if is_succeeded o.state && is_room0 p.kind
    then room_verdict o (room_receipt d.codec r)
    else plain_verdict o
read_receipt d p o _ = plain_verdict o

unfoldable pub verdict : Dispatcher → Provider → Reply → Verdict
unfolding classify_outcome room_receipt
verdict d p reply = read_receipt d p (classify_outcome reply) reply

abbrev pub note_of : Dispatcher → Reply → Text
note_of d (refused e) = take 300 (redact d.text e.note d.secrets)
note_of d _ = []

abbrev duration_of : Reply → Option ℕ
duration_of (response r) = some r.duration_ms
duration_of (refused e) = e.duration_ms
duration_of other = none

abbrev pub summary_text : Dispatcher → Option Text → Text
summary_text d none = []
summary_text d (some []) = []
summary_text d (some (c ∷ s)) = take 200 (redact d.text (c ∷ s) d.secrets)

unfoldable pub evidence_of : Dispatcher → Request → Reply → Verdict → Evidence
unfolding redact
evidence_of d r reply v = record {
  method = some r.method;
  path = some r.path;
  status_code = v.status_code;
  error_class = v.error_class;
  duration_ms = duration_of reply;
  note = note_of d reply;
  summary = summary_text d v.summary;
}
