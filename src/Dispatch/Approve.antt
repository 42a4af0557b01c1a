-- ===== src/Dispatch/Approve.antt =====
-- Decisions on authorizations: `approve`, `record_project_home_approval`, `deny`, `expire_due` and
-- `_on_actions_changed` of worlds/dispatcher.py.
use personal_world.Prelude.{
  ℕ, String, Bool, Option, none, some, List, [], ◌∷◌, ◌&&◌, not, ◌==◌, nat_eq, string_eq, leb,
}
use personal_world.Tx.{Op, ◌>>=◌, ◌>>◌, write_tx, guard, raise, pure}
use personal_world.Authn.Principal.{Principal, has_step_up}
use personal_world.Config.Store.{version_of}
use personal_world.Dispatch.Rows.{
  Authorization, approved, denied, expired, invalidated, worlds_owner, project_home, Db, Error,
  not_permitted, bad_request, not_consumable, authorization_is, Dispatcher,
}
use personal_world.Dispatch.Base.{
  row, resolve, update_authorizations, check_approvable, is_pending, is_open, owner_ok, may_touch,
  auth_id, opt_is,
}

abbrev pub approved_by_owner : Principal → ℕ → Authorization → Authorization
approved_by_owner p now a = record a {
  state = approved;
  authority = some worlds_owner;
  approved_at = some now;
  approved_by = some p.id;
  step_up_at = p.step_up_at;
}

approve_tx : Dispatcher → Principal → ℕ → ℕ → Op Db Error ℕ
unfolding row resolve check_approvable update_authorizations
approve_tx d p aid now = do
  a ← row aid
  t ← resolve d bad_request a.action_id
  guard (not (d.ph_governs t.provider)) not_permitted
  (λ db. (check_approvable d a now, db))
  update_authorizations (λ b. (auth_id b == aid) && is_pending b.state) (approved_by_owner p now)

-- `approve`; the clock is read for the step-up and again for the approval
unfoldable pub approve : Dispatcher → Principal → ℕ → ℕ → ℕ → Op Db Error Authorization
unfolding approve_tx write_tx row
approve d p aid step_up_now now = do
  guard (owner_ok p) not_permitted
  guard (has_step_up p step_up_now) not_permitted
  write_tx (approve_tx d p aid now)
  row aid

abbrev pub approved_by_project_home : String → ℕ → Authorization → Authorization
approved_by_project_home ph_id now a = record a {
  state = approved;
  authority = some (project_home ph_id);
  approved_at = some now;
  approved_by = some "project_home";
}

project_home_tx : Dispatcher → (String → Authorization → Bool) → ℕ → String → ℕ → Op Db Error ℕ
unfolding row resolve check_approvable update_authorizations
project_home_tx d verify aid ph_id now = do
  a ← row aid
  t ← resolve d bad_request a.action_id
  guard (d.ph_governs t.provider) not_permitted
  (λ db. (check_approvable d a now, db))
  guard (verify ph_id a) not_permitted
  update_authorizations (λ b. (auth_id b == aid) && is_pending b.state)
      (approved_by_project_home ph_id now)

abbrev with_verifier :
    Dispatcher → Option (String → Authorization → Bool) → ℕ → String → ℕ → Op Db Error ℕ
with_verifier d none aid ph_id now = raise not_permitted
with_verifier d (some verify) aid ph_id now = write_tx (project_home_tx d verify aid ph_id now)

-- `record_project_home_approval`
unfoldable pub record_project_home_approval :
    Dispatcher → ℕ → String → ℕ → Op Db Error Authorization
unfolding project_home_tx write_tx row
record_project_home_approval d aid ph_id now = do with_verifier d d.ph_verify aid ph_id now; row aid

deny_tx : Principal → ℕ → Op Db Error (Unit {0})
unfolding row update_authorizations
deny_tx p aid = do
  a ← row aid
  guard (may_touch p a) not_permitted
  n ←
      update_authorizations (λ b. (auth_id b == aid) && is_open b.state)
        (λ b. record b { state = denied })
  guard (n == 1) (not_consumable (authorization_is a.state))

-- `deny`
unfoldable pub deny : Principal → ℕ → Op Db Error Authorization
unfolding deny_tx write_tx row
deny p aid = do write_tx (deny_tx p aid); row aid

-- `expire_due`; returns how many
unfoldable pub expire_due : ℕ → Op Db Error ℕ
unfolding update_authorizations write_tx
expire_due now = write_tx (
    update_authorizations (λ b. is_open b.state && leb b.expires_at now)
      (λ b. record b { state = expired }))

-- The rows of one changed action: `… AND (version IS NULL OR action_version != version)`.
abbrev pub stale : Dispatcher → String → Authorization → Bool
stale d action_id b =
    (b.action_id == action_id)
    && is_open b.state
    && not (opt_is (version_of d.store action_id) b.action_version)

-- The loop of `_on_actions_changed`.
unfoldable pub invalidate_all : Dispatcher → List String → Op Db Error (Unit {0})
unfolding update_authorizations
invalidate_all d [] = pure tt
invalidate_all d (action_id ∷ rest) =
    update_authorizations (stale d action_id) (λ b. record b { state = invalidated })
    >> invalidate_all d rest

-- `_on_actions_changed`; with no ids nothing is written
unfoldable pub on_actions_changed : Dispatcher → List String → Op Db Error (Unit {0})
unfolding invalidate_all write_tx
on_actions_changed d ids = write_tx (invalidate_all d ids)
