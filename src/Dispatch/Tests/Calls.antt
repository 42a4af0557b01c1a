-- ===== src/Dispatch/Tests/Calls.antt =====
-- The theorems on approving and executing, at concrete inputs.
use personal_world.Dispatch.Laws.Single.{execute_refused}
use personal_world.Dispatch.Laws.Consume.{consume_sound}
use personal_world.Dispatch.Laws.Approval.{approve_sound, MayApprove}
use personal_world.Dispatch.Laws.Requests.{MayWaive, waiver_sound}
use personal_world.Prelude.{
  ◌++◌, inr, ℕ, ◌<◌, true, false, none, some, [], ◌∷◌, ◌≡◌, refl, inl, codes, ◌==◌, string_eq,
  nat_eq, Bool-cases, ◌⊎◌,
}
use personal_world.Tx.{err}
use personal_world.Config.Models.{always, never}
use personal_world.Config.Store.{version_of}
use personal_world.Dispatch.Rows.{
  policy_never, unknown, consumed, Db, Authorization, Execution, pending, approved, bad_request,
}
use personal_world.Dispatch.System.Invariant.{IsSound, HasAuthority}
use personal_world.Dispatch.Base.{find_auth, find_exec, Target, target_of, may_touch}
use personal_world.Dispatch.Request.{new_authorization, request_authorization}
use personal_world.Dispatch.System.{empty}
use personal_world.Value.{obj, end}
use personal_world.Dispatch.Approve.{approved_by_owner}
use personal_world.Dispatch.Execute.{consume, execute, Consumed, Readings, World, new_execution}
use personal_world.Dispatch.Tests.Setup.{
  the_code, waived, the_owner, the_request, the_provider, guarded, action_with,
}

abbrev pub asked : Authorization
asked = record {
  id = 1;
  action_id = "on";
  action_version = "v1";
  caller = "helper";
  destination = codes "lights:0123456789abcdef";
  params_hash = "0123456789abcdef0123";
  params_json = "{}";
  created_at = 100;
  expires_at = 700;
  state = pending;
  authority = none;
  approved_at = none;
  approved_by = none;
  step_up_at = none;
  idempotency_key = none;
  retry_of = none;
  previous_may_have_run = false;
}

abbrev pub asked_db : Db
asked_db = record { authorizations = asked ∷ []; executions = []; leases = [] }

abbrev pub granted : Authorization
granted = approved_by_owner the_owner 120 asked

abbrev pub granted_db : Db
granted_db = record asked_db { authorizations = granted ∷ [] }

approve_sound_example :
    (a : Authorization) × (find_auth 1 asked_db ≡ some a)
    × MayApprove guarded the_owner 110 120 a
    × (granted ≡ approved_by_owner the_owner 120 a)
unfolding the_code
approve_sound_example = approve_sound guarded the_owner 1 110 120 asked_db refl

abbrev the_target : Target
the_target = record {
  action = action_with never true;
  request = the_request;
  provider = the_provider;
}

abbrev waived_row : Authorization
waived_row = new_authorization waived the_owner "on" the_target "v1" (obj end) none none false 100 1

waiver_sound_example :
    (find_auth 1 empty.db ≡ none)
    × ((request_authorization waived the_owner "on" none none none false 100 1 empty.db).1
        ≡ record empty.db { authorizations = empty.db.authorizations ++ (waived_row ∷ []) })
    × ((t : Target) × (target_of waived.store "on" ≡ some t)
        × (((waived_row.state ≡ approved)
              × (waived_row.authority ≡ some policy_never)
              × (waived_row.approved_at ≡ some 100)
              × MayWaive waived the_owner t none)
            ⊎ ((waived_row.state ≡ pending)
                × (waived_row.authority ≡ none)
                × (waived_row.approved_at ≡ none)
                × (¬ (MayWaive waived the_owner t none)))))
unfolding the_code
waiver_sound_example =
    waiver_sound waived the_owner "on" none none none false 100 1 empty.db {b = waived_row} refl

IsSound-granted : IsSound granted_db
unfolding the_code
IsSound-granted = record {
  exec_ids = tt;
  exec_auths = tt;
  auth_ids = (refl, tt);
  authority = λ k. authority_at k;
  backed = λ k. tt;
}
  where
    authority_at : (k : ℕ) → HasAuthority (find_auth k granted_db)
    authority_at k = elim (Bool-cases (1 == k)) [ inl e ↦ rw e (λ w. tt) | inr e ↦ rw e tt ]

abbrev used : Consumed
used = record {
  row = granted;
  execution_id = 2;
  target = record {
    action = action_with always false;
    request = the_request;
    provider = the_provider;
  };
}

consume_sound_example :
    (find_auth 1 granted_db ≡ some granted)
    × (may_touch the_owner granted ≡ true)
    × (granted.state ≡ approved)
    × (130 < granted.expires_at)
    × (version_of guarded.store "on" ≡ some "v1")
    × (find_auth 1 (consume guarded the_owner 1 130 2 granted_db).1
        ≡ some (record granted { state = consumed }))
    × (find_exec 2 (consume guarded the_owner 1 130 2 granted_db).1
        ≡ some (new_execution guarded granted 130 2))
unfolding the_code
consume_sound_example =
    consume_sound guarded the_owner 1 130 2 granted_db {c = used} IsSound-granted refl

abbrev readings : Readings
readings = record { consumed_at = 130; beat_at = 131; started_at = 132; finished_at = 133 }

abbrev before : World
before = record { db = granted_db; wire = [] }

execute_refused_example : execute guarded the_owner 9 readings 2 before ≡ (err bad_request, before)
unfolding the_code
execute_refused_example = execute_refused guarded the_owner 9 readings 2 before refl

abbrev unknown_row : Execution
unknown_row = record (new_execution guarded granted 130 2) { state = unknown }

abbrev pub lost_db : Db
lost_db = record {
  authorizations = record granted { state = consumed } ∷ [];
  executions = unknown_row ∷ [];
  leases = [];
}

abbrev asked_again : Authorization
asked_again = record asked {
  id = 3;
  caller = "rylee";
  created_at = 200;
  expires_at = 800;
  retry_of = some 2;
  previous_may_have_run = true;
}
