-- ===== src/Dispatch/Tests/Setup.antt =====
-- A small configuration and a day of its dispatcher, for the instances of the theorems.
use personal_world.Prelude.{
  Bool, true, false, none, some, [], ◌∷◌, elem, any, starts_with, ends_with, but_last, same_text,
  ◌==◌, string_eq, if◌then◌else◌, nat_eq,
}
use personal_world.Tx.{write_tx}
use personal_world.Value.{obj, end}
use personal_world.Authn.Principal.{Principal, owner, session, has_step_up, allows_scope, covers}
use personal_world.Config.Models.{
  Action, Request, Provider, no_auth, http, post, auto, write_access, always, optional, Approval,
  never, resolved_effect, governed_by_project_home, action_version,
}
use personal_world.Config.Store.{ConfigStore, version_of}
use personal_world.Runner.Redact.{redact}
use personal_world.Dispatch.Rows.{Dispatcher, Attempt, returned, response}
use personal_world.Dispatch.System.{drop_one, System, empty, requests, consumes, run, start}
use personal_world.Dispatch.System.Invariant.{sends, times}
use personal_world.Dispatch.Base.{
  update_authorizations, update_executions, heartbeat, upsert_lease, resolve, row, can_see,
  check_approvable, target_of,
}
use personal_world.Dispatch.Request.{
  request_authorization, check_request, auto_approved, new_authorization, insert_authorization,
  get_authorization, destination_of, params_hash,
}
use personal_world.Dispatch.Approve.{approve, expire_due, on_actions_changed, invalidate_all}
use personal_world.Dispatch.Send.{verdict, evidence_of, request_to_send}
use personal_world.Dispatch.Outcome.{classify_outcome, room_receipt}
use personal_world.Dispatch.Execute.{
  consume, consume_tx, start_dispatch, settle, receipt, send_attempt, execute, insert_execution,
}
use personal_world.Dispatch.Recover.{recover, alive_ids, is_gone, request_retry}
use personal_world.Table.{find_by, update_where, count_where, delete_where}

abbrev pub the_provider : Provider
the_provider = record {
  id = "lights";
  kind = http;
  base_url = "http://lights";
  path_prefix = "";
  auth = record {
    type = no_auth;
    header_name = none;
    secret_ref = none;
    login_path = none;
    username_field = "username";
    password_field = "password";
    token_path = none;
    token_field = "access_token";
  };
  network = record { lan = true };
  governance = none;
  principal_id = none;
  tls_verify = true;
  max_bytes = 2097152;
}

abbrev pub the_request : Request
the_request = record {
  id = "lights.on";
  provider = "lights";
  method = post;
  path = "/on";
  query = [];
  headers = [];
  body = none;
  effect = auto;
  known_safe = false;
  ttl_s = 60;
  timeout_s = none;
  assertions = [];
}

abbrev pub action_with : Approval → Bool → Action
action_with rule waived = record {
  id = "on";
  request = "lights.on";
  name = "Lights on";
  access = write_access;
  approval = rule;
  scope = "lights.write";
  idempotency = optional;
  exposed = true;
  owner_waives_approval = waived;
}

abbrev pub store_with : Action → ConfigStore
store_with a = record {
  action = λ i. if i == "on" then some a else none;
  request = λ i. if i == "lights.on" then some the_request else none;
  provider = λ i. if i == "lights" then some the_provider else none;
  actions = a ∷ [];
  digest = λ p. "v1";
}

abbrev pub dispatcher_with : Action → Dispatcher
dispatcher_with a = record {
  store = store_with a;
  send = λ wire attempt.
      returned (response (record { status_code = 204; headers = []; body = []; duration_ms = 3 }));
  secrets = [];
  ph_governs = governed_by_project_home;
  ph_verify = none;
  ttl = 600;
  identity = record { boot = "b1"; pid = 1; started = "7"; host = "box" };
  instance_id = 11;
  codec = record {
    dumps = λ v. "{}";
    loads = λ s. obj end;
    sha256 = λ t. "0123456789abcdef0123";
    size = λ s. 2;
    printable = λ s. true;
    decode = λ b. none;
  };
  text = record { blot = λ secret out. out; blot_patterns = λ out. out; squeeze = λ out. out };
}

-- The owner waives the approval, or must give it.
abbrev pub waived : Dispatcher
waived = dispatcher_with (action_with never true)

abbrev pub guarded : Dispatcher
guarded = dispatcher_with (action_with always false)

-- Another process on the same host, after a reboot.
abbrev pub rebooted : Dispatcher
rebooted = record guarded {
  instance_id = 12;
  identity = record { boot = "b2"; pid = 1; started = "9"; host = "box" };
}

abbrev pub the_owner : Principal
the_owner = record {
  kind = owner;
  id = "rylee";
  scopes = [];
  session_hash = some "s";
  step_up_at = some 95;
  via = session;
}

abbrev pub s1 : System
s1 = record empty { db = run (requests waived the_owner "on" none none 100 1) empty.db }

abbrev pub s2 : System
s2 = record s1 { db = run (consumes waived the_owner 1 101 2) s1.db }

abbrev pub the_attempt : Attempt
the_attempt = record {
  execution = 2;
  provider = the_provider;
  request = the_request;
  effect = resolved_effect the_request;
}

-- To unfold this is to unfold the whole dispatcher.
unfoldable pub the_code : Unit {0}
unfolding run start drop_one request_authorization consume start_dispatch execute elem any find_by
    update_where count_where delete_where resolve row insert_authorization get_authorization
    write_tx check_request can_see allows_scope auto_approved new_authorization destination_of
    params_hash version_of action_version resolved_effect governed_by_project_home covers
    starts_with same_text ends_with but_last consume_tx update_authorizations update_executions
    insert_execution heartbeat upsert_lease send_attempt verdict classify_outcome room_receipt
    evidence_of redact settle receipt request_to_send has_step_up approve check_approvable times
    sends recover alive_ids is_gone request_retry on_actions_changed invalidate_all expire_due
    target_of
the_code = tt
