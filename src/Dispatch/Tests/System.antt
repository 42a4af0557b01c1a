-- ===== src/Dispatch/Tests/System.antt =====
-- The theorems on `System`, at a day on which one action is requested, consumed and sent.
use personal_world.Prelude.{
  ℕ, ◌≤◌, true, false, none, some, [], ◌∷◌, ◌≡◌, refl, elem, codes, string_eq, nat_eq,
}
use personal_world.Dispatch.Rows.{
  unknown, consumed, policy_never, response, Authorization, Execution,
}
use personal_world.Dispatch.System.{
  drop_one, System, empty, Reach, here, next, operate, begin, transmit, requests, consumes,
  recovers, settles, run, start,
}
use personal_world.Dispatch.System.Safety.{
  send_at_most_once, sent_was_approved, approval_sends_once, Traced,
}
use personal_world.Dispatch.System.Invariant.{sends}
use personal_world.Dispatch.Base.{find_auth, find_exec}
use personal_world.Dispatch.Laws.Forever.{receipt_forever, closed_forever}
use personal_world.Dispatch.Recover.{interrupted}
use personal_world.Dispatch.Tests.Setup.{
  the_code, waived, rebooted, the_owner, s2, the_attempt, the_request, the_provider,
}

s3_due : elem 2 (start 2 102 s2).going ≡ true
unfolding the_code
s3_due = refl

abbrev s4 : System
s4 = record (start 2 102 s2) { going = drop_one 2 (start 2 102 s2).going; wire = the_attempt ∷ [] }

-- Requested, consumed, moved to DISPATCHING and sent.
day : Reach empty s4
unfolding the_code
day =
    next
      (next
        (next (next here (operate (requests waived the_owner "on" none none 100 1)))
          (operate (consumes waived the_owner 1 101 2)))
        (begin 2 102))
      (transmit the_attempt s3_due)

send_at_most_once_example : sends 2 s4.wire ≤ 1
send_at_most_once_example = send_at_most_once day 2

sent_was_approved_example : (e : Execution) × Traced s4.db the_attempt e
sent_was_approved_example = sent_was_approved day 0 the_attempt refl

approval_sends_once_example : ◌≡◌ {A = ℕ} 0 0
unfolding the_code
approval_sends_once_example =
    approval_sends_once day 0 0 the_attempt the_attempt _ _ refl refl refl refl refl

abbrev s5 : System
s5 = record s4 { db = run (recovers rebooted 500) s4.db }

-- The process is gone: another one recovers the row, and its own late answer comes too late.
abbrev s6 : System
s6 = record s5 {
  db =
      run
        (settles waived the_provider the_request
          (response (record { status_code = 204; headers = []; body = []; duration_ms = 3 })) 2 501)
        s5.db;
}

late : Reach s5 s6
late = next here (
    operate (
      settles waived the_provider the_request
        (response (record { status_code = 204; headers = []; body = []; duration_ms = 3 })) 2 501))

abbrev lost_row : Execution
lost_row = record {
  id = 2;
  authorization_id = 1;
  intent_at = 101;
  dispatch_started_at = some 102;
  finished_at = some 500;
  state = unknown;
  status_code = none;
  evidence = some interrupted;
  idempotency_key = none;
  owner_id = some 11;
}

receipt_forever_example : find_exec 2 s6.db ≡ some lost_row
unfolding the_code
receipt_forever_example = receipt_forever late 2 lost_row refl refl

abbrev spent_row : Authorization
spent_row = record {
  id = 1;
  action_id = "on";
  action_version = "v1";
  caller = "rylee";
  destination = codes "lights:0123456789abcdef";
  params_hash = "0123456789abcdef0123";
  params_json = "{}";
  created_at = 100;
  expires_at = 700;
  state = consumed;
  authority = some policy_never;
  approved_at = some 100;
  approved_by = some "policy:never";
  step_up_at = none;
  idempotency_key = none;
  retry_of = none;
  previous_may_have_run = false;
}

closed_forever_example : find_auth 1 s6.db ≡ some spent_row
unfolding the_code
closed_forever_example = closed_forever late 1 spent_row refl refl
