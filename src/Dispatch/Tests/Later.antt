-- ===== src/Dispatch/Tests/Later.antt =====
-- The theorems on outcomes, changes, expiry and recovery, at concrete inputs.
use mathlib.Core.List.{Memᴰ}
use personal_world.Dispatch.Laws.Recovery.{recover_settles_orphans}
use personal_world.Dispatch.Laws.Changes.{changed_closes_stale}
use personal_world.Dispatch.Laws.Evidence.{DidNotRun, failed-DidNotRun}
use personal_world.Prelude.{some, [], ◌∷◌, ◌↔◌, ◌≡◌, refl, arith, string_eq, nat_eq}
use personal_world.Config.Store.{version_of}
use personal_world.Dispatch.Rows.{
  unknown, Dispatcher, RawResponse, failed, response, Db, Authorization, Execution, dispatching,
  Lease,
}
use personal_world.Dispatch.Base.{find_exec}
use personal_world.Dispatch.Send.{verdict}
use personal_world.Dispatch.Execute.{new_execution}
use personal_world.Dispatch.Recover.{interrupted, recover}
use personal_world.Dispatch.Tests.Setup.{the_code, the_provider, guarded}
use personal_world.Dispatch.Tests.Calls.{asked, asked_db, granted, lost_db}

abbrev not_found : RawResponse
not_found = record { status_code = 404; headers = []; body = []; duration_ms = 3 }

failed-DidNotRun_example :
    ((verdict guarded the_provider (response not_found)).state ≡ failed)
    ↔ DidNotRun guarded the_provider not_found
failed-DidNotRun_example = failed-DidNotRun guarded the_provider not_found

-- The same configuration after its action changed.
abbrev changed : Dispatcher
changed = record guarded { store = record (guarded.store) { digest = λ p. "v2" } }

abbrev renewed : Authorization
renewed = record asked { id = 5; action_version = "v2" }

abbrev two_db : Db
two_db = record asked_db { authorizations = granted ∷ renewed ∷ [] }

changed_closes_stale_example : version_of changed.store "on" ≡ some "v2"
unfolding the_code
changed_closes_stale_example =
    changed_closes_stale changed ("on" ∷ []) "on" 5 two_db {b = renewed} (Memᴰ.head refl) refl refl
      refl

abbrev going_row : Execution
going_row = record (new_execution guarded granted 130 2) { state = dispatching }

abbrev lease_of_11 : Lease
lease_of_11 = record {
  instance_id = 11;
  heartbeat = 131;
  pid = some 1;
  boot_id = some "b1";
  started = some "7";
  host = some "box";
}

abbrev going_db : Db
going_db = record lost_db { executions = going_row ∷ []; leases = lease_of_11 ∷ [] }

-- A second process of the same boot.
abbrev second : Dispatcher
second = record guarded {
  instance_id = 12;
  identity = record { boot = "b1"; pid = 2; started = "8"; host = "box" };
}

recover_settles_orphans_example :
    find_exec 2 (recover second 140 (record going_db { leases = [] })).1
    ≡ some
        (record going_row { state = unknown; finished_at = some 140; evidence = some interrupted })
unfolding the_code
recover_settles_orphans_example =
    recover_settles_orphans second 140 2 (record going_db { leases = [] }) {x = going_row} {o = 11}
      refl refl refl (omega arith) (λ l m. elim m [ ])
