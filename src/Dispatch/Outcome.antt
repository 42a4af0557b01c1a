-- ===== src/Dispatch/Outcome.antt =====
-- `classify_outcome` and `_room_receipt` of worlds/dispatcher.py.
use personal_world.Prelude.{
  ℕ, Text, Bool, true, false, Option, none, some, List, [], ◌∷◌, ◌&&◌, ◌||◌, ltb, leb, elem, nat_eq,
  codes, if◌then◌else◌,
}
use personal_world.Value.{Value, bool, str, obj, Fields, get_field, nothing_there}
use personal_world.Dispatch.Rows.{
  ExecState, succeeded, failed, unknown, ErrorClass, http_4xx, http_5xx, redirect_refused,
  confinement_denied, auth_failed, malformed, Codec, RawResponse, Reply, response, refused, other,
}

abbrev pub not_executed_4xx : List ℕ
not_executed_4xx =
    400 ∷ 401 ∷ 402 ∷ 403 ∷ 404 ∷ 405 ∷ 406 ∷ 410 ∷ 411 ∷ 413 ∷ 414 ∷ 415 ∷ 421 ∷ 422 ∷ 426 ∷ 428
    ∷ 431 ∷ []

pub record Outcome : Type 0 where
  pub state : ExecState
  pub status_code : Option ℕ
  pub error_class : Option ErrorClass

-- `result.error_class in ("confinement_denied", "auth_failed")`
abbrev pub refused_locally : ErrorClass → Bool
refused_locally confinement_denied = true
refused_locally auth_failed = true
refused_locally _ = false

abbrev ambiguous_class : ℕ → ErrorClass
ambiguous_class code =
    if leb 500 code then http_5xx else if leb 400 code then http_4xx else redirect_refused

unfoldable pub classify_outcome : Reply → Outcome
classify_outcome (response r) =
    if leb 200 r.status_code && ltb r.status_code 300
    then record { state = succeeded; status_code = some r.status_code; error_class = none }
    else if elem r.status_code not_executed_4xx
    then record { state = failed; status_code = some r.status_code; error_class = some http_4xx }
    else record {
      state = unknown;
      status_code = some r.status_code;
      error_class = some (ambiguous_class r.status_code);
    }
classify_outcome (refused e) =
    if e.pre_send || refused_locally e.error_class
    then record { state = failed; status_code = e.status_code; error_class = some e.error_class }
    else record { state = unknown; status_code = e.status_code; error_class = some e.error_class }
classify_outcome other = record {
  state = unknown;
  status_code = none;
  error_class = some malformed;
}

pub record RoomReceipt : Type 0 where
  pub state : ExecState
  pub error_class : Option ErrorClass
  pub summary : Option Text

abbrev unreadable : RoomReceipt
unreadable = record { state = unknown; error_class = some malformed; summary = none }

abbrev summary_of : Option Value → Option Text
summary_of (some (str s)) = some (codes s)
summary_of _ = none

-- `changed in (None, [], {}, "", False) and "changed" in doc`
abbrev pub says_unchanged : Option Value → Bool
says_unchanged none = false
says_unchanged (some v) = nothing_there v

abbrev pub receipt_of_ok : Bool → Fields → RoomReceipt
receipt_of_ok true doc = record {
  state = succeeded;
  error_class = none;
  summary = summary_of (get_field "summary" doc);
}
receipt_of_ok false doc = record {
  state = if says_unchanged (get_field "changed" doc) then failed else unknown;
  error_class = some http_4xx;
  summary = summary_of (get_field "summary" doc);
}

abbrev pub receipt_of_flag : Option Value → Fields → RoomReceipt
receipt_of_flag (some (bool b)) doc = receipt_of_ok b doc
receipt_of_flag _ doc = unreadable

abbrev pub receipt_of_doc : Option Value → RoomReceipt
receipt_of_doc (some (obj doc)) = receipt_of_flag (get_field "ok" doc) doc
receipt_of_doc _ = unreadable

unfoldable pub room_receipt : Codec → RawResponse → RoomReceipt
room_receipt codec result = receipt_of_doc (codec.decode result.body)
